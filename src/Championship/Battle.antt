-- ===== src/Championship/Battle.antt =====
-- battle.c: one round of a battle. `true` and 1 of a flag are as in the source.
pub mod Blow
pub mod Laws
use sp.Base.{
  ℕ, ◌==◌, ltb, if◌then◌else◌, Bool, true, false, ◌&&◌, ◌||◌, Result, ok, guard, overflow, ◌>>=◌,
  ◌>>◌,
}
use sp.Base.Int.{ℤ, pos, ltb_ℤ, leb_ℤ, eqb_ℤ, add_int, sub_int}
use sp.Championship.Status.{Attribute, fire, grass, water, Status}
use sp.Championship.Graph.{graph}

-- Whether the first one attacks first.
unfoldable pub compare : Status → Status → Bool
compare stat1 stat2 =
    if ltb_ℤ stat1.hp stat2.hp
    then true
    else eqb_ℤ stat1.hp stat2.hp && ltb stat1.real_player_id stat2.real_player_id

abbrev pub is_down : Status → Bool
is_down stat = leb_ℤ stat.hp (pos 0)

unfoldable pub battle_end : Status → Status → (Status × Status) × Bool
battle_end stat1 stat2 =
    if is_down stat1 || is_down stat2
    then (
      (record stat1 { battle_ended_flag = pos 1 }, record stat2 { battle_ended_flag = pos 1 }),
      true,
    )
    else ((stat1, stat2), false)

abbrev pub same_attr : Attribute → Attribute → Bool
same_attr fire fire = true
same_attr grass grass = true
same_attr water water = true
same_attr a b = false

-- The attack of one in a battle: twice as strong where the attribute is the battle's.
unfoldable pub attack : Attribute → Status → Result ℤ
attack attr stat = if same_attr attr stat.attr then add_int stat.atk stat.atk else ok stat.atk

-- `Battle`; the first one attacks first.
unfoldable pub battle : Attribute → Status → Status → Result (Status × Status)
unfolding battle_end attack
battle attr stat1 stat2 = do
  atk1 ← attack attr stat1
  atk2 ← attack attr stat2
  hp2 ← sub_int stat2.hp atk1
  let (stats, ended) = battle_end stat1 (record stat2 { hp = hp2 })
  if ended then ok stats else (do
    hp1 ← sub_int stat1.hp atk2
    ok (battle_end (record stat1 { hp = hp1 }) (record stat2 { hp = hp2 })).0)

abbrev pub flip : Status × Status → Status × Status
flip (a, b) = (b, a)

-- The part of a round of `main` between its reads and its writes.
unfoldable pub fight : ℕ → Status → Status → Result (Status × Status)
unfolding compare battle
fight battle_id stat1 stat2 =
    let s1 = record stat1 { current_battle_id = battle_id } in
    let s2 = record stat2 { current_battle_id = battle_id } in
    let attr = (graph battle_id).attr in
    if compare s1 s2 then battle attr s1 s2 else (do stats ← battle attr s2 s1; ok (flip stats))
