-- ===== src/Championship/Player/Laws.antt =====
-- What a player makes of the status that its battle returns.
use sp.Base.{
  ◌+◌, ◌≤◌, ◌≡◌, ◌≢◌, refl, ap, ◌∙◌, Bool, true, false, if◌then◌else◌, ◌==◌, not_eq, ==_iff, arith,
  ok, ◌>>=◌,
}
use sp.Base.Int.{
  ℤ, pos, negsuc, pos_part, neg_part, ltb_ℤ, eqb_ℤ, half_ℤ, ◌+ℤ◌, ◌-ℤ◌, +ℤ_parts, +ℤ_bound, add_int,
  add_int-ok, int_max,
}
use sp.Championship.Status.{Status, Outside}
use sp.Championship.Battle.Blow.{IsFit, sub_int-ok}
use sp.Championship.Battle.Laws.{Stands, IsSame}
use sp.Championship.Player.{Player, gone, playing, is_real, lose, recover, after_battle, test_flag}

-- The player has never more HP than it began with.
abbrev pub IsKept : ℤ → Status → Type 0
IsKept origin s =
    (neg_part origin ≡ 0) × (pos_part s.hp ≤ pos_part origin) × (pos_part origin ≤ int_max)

flag_off : (a : ℤ) → a ≡ pos 0 → eqb_ℤ a (pos 1) ≡ false
flag_off a h = ap (λ b. eqb_ℤ b (pos 1)) h

flag_on : (a : ℤ) → a ≡ pos 1 → eqb_ℤ a (pos 1) ≡ true
flag_on a h = ap (λ b. eqb_ℤ b (pos 1)) h

half_lem : (a : ℤ) → neg_part a ≡ 0 → (neg_part (half_ℤ a) ≡ 0) × (pos_part (half_ℤ a) ≤ pos_part a)
half_lem (pos n) h = (refl, omega arith)
half_lem (negsuc n) h = absurd (omega (arith, h))

-- The status after the recovery of a player that won, all but its flag.
abbrev pub healed : ℤ → Status → Status
healed origin s = record s { hp = s.hp +ℤ half_ℤ (origin -ℤ s.hp); battle_ended_flag = pos 0 }

module _ (origin : ℤ) (s st : Status) (f : IsFit st) (same : IsSame st s) (stands : Stands st.hp s)
    (kept : IsKept origin st) where
  missing :
      (neg_part (origin -ℤ s.hp) ≡ 0)
      × (pos_part (origin -ℤ s.hp) + pos_part s.hp ≡ pos_part origin)
  unfolding ◌-ℤ◌
  missing = let (a, b, c) = stands in let (d, e, g) = kept in ground arith

  heal_bound : pos_part s.hp + pos_part (half_ℤ (origin -ℤ s.hp)) ≤ pos_part origin
  heal_bound = omega (arith, missing, half_lem (origin -ℤ s.hp) missing.0)

  -- A player that won recovers: its HP stays within what it began with, and it is fit again.
  pub recover-ok : recover origin s ≡ ok (healed origin s)
  unfolding recover
  recover-ok =
      ap
        (λ r. r >>= λ lost.
          add_int s.hp (half_ℤ lost) >>= λ hp. ok (record s { hp = hp; battle_ended_flag = pos 0 }))
        (sub_int-ok origin s.hp kept.0 stands.0 kept.2 (omega (arith, kept, stands)))
      ∙ ap (λ r. r >>= λ hp. ok (record s { hp = hp; battle_ended_flag = pos 0 }))
          (add_int-ok s.hp (half_ℤ (origin -ℤ s.hp)) (omega (arith, heal_bound, kept))
            (omega (arith, stands, half_lem (origin -ℤ s.hp) missing.0)))

  healed_hp :
      (neg_part (healed origin s).hp ≡ 0)
      × (pos_part s.hp ≤ pos_part (healed origin s).hp)
      × (pos_part (healed origin s).hp ≤ pos_part origin)
  healed_hp =
      let half = half_ℤ (origin -ℤ s.hp) in
      let sum = +ℤ_parts s.hp half in
      let none_below = (+ℤ_bound s.hp half).1 in
      let small = half_lem (origin -ℤ s.hp) missing.0 in
      let bound = heal_bound in
      (
        omega (arith, none_below, small.0, stands.0),
        omega (arith, sum, none_below, small.0, stands.0),
        omega (arith, sum, none_below, small.0, stands.0, bound),
      )

  pub healed-IsFit : IsFit (healed origin s)
  healed-IsFit =
      let hp = healed_hp in
      record {
        player = omega (arith, same.0, f.player);
        hp_sign = hp.0;
        alive = omega (arith, hp, stands.1);
        hp_int = omega (arith, hp, kept);
        atk_sign = ap neg_part same.1 ∙ f.atk_sign;
        harms = omega (arith, ap pos_part same.1, f.harms);
        atk_int = omega (arith, ap pos_part same.1, f.atk_int);
        on = refl;
      }

  pub healed-IsKept : IsKept origin (healed origin s)
  healed-IsKept = (kept.0, healed_hp.2, kept.2)

-- A player with another status.
abbrev pub with_status : Player → Status → Player
with_status q s = record q { status = s }

-- The status of a round that is not the last.
pub test_flag_off :
    (q : Player) (s : Status) (w : Outside)
    → s.battle_ended_flag ≡ pos 0
    → test_flag (with_status q s) w ≡ ok (playing (with_status q s), w)
unfolding test_flag
test_flag_off q s w h =
    ap (λ b. if b then after_battle (with_status q s) w else ok (playing (with_status q s), w))
      (flag_off s.battle_ended_flag h)

test_flag_last :
    (q : Player) (s : Status) (w : Outside)
    → s.battle_ended_flag ≡ pos 1
    → test_flag (with_status q s) w ≡ after_battle (with_status q s) w
unfolding test_flag
test_flag_last q s w h =
    ap (λ b. if b then after_battle (with_status q s) w else ok (playing (with_status q s), w))
      (flag_on s.battle_ended_flag h)

-- The loop behind the inner one, by its two tests.
after_tests :
    (q : Player) (s : Status) (w : Outside) {a b : Bool}
    → (s.current_battle_id == b'A') ≡ a
    → ltb_ℤ (pos 0) s.hp ≡ b
    → after_battle (with_status q s) w ≡ (
        if a
        then ok (gone, w)
        else (if b
            then (recover q.origin_hp s >>= λ status. ok (playing (with_status q status), w))
            else lose (is_real q.id) (with_status q s) w))
unfolding after_battle
after_tests q s w ha hb = λ i.
    if ha i
    then ok (gone, w)
    else (if hb i
        then (recover q.origin_hp s >>= λ status. ok (playing (with_status q status), w))
        else lose (is_real q.id) (with_status q s) w)

alive_lem : (a : ℤ) → neg_part a ≡ 0 → 1 ≤ pos_part a → ltb_ℤ (pos 0) a ≡ true
alive_lem a h l = ground arith

down_lem : (a : ℤ) → pos_part a ≡ 0 → ltb_ℤ (pos 0) a ≡ false
down_lem a h = ground arith

-- Of the last battle: the player ends.
pub test_flag_final :
    (q : Player) (s : Status) (w : Outside)
    → s.battle_ended_flag ≡ pos 1
    → s.current_battle_id ≡ b'A'
    → test_flag (with_status q s) w ≡ ok (gone, w)
test_flag_final q s w h last =
    test_flag_last q s w h ∙ after_tests q s w ((==_iff s.current_battle_id b'A').1 last) refl

-- Of a battle that is won, but not the last.
pub test_flag_won :
    (q : Player) (s st : Status) (w : Outside)
    → s.battle_ended_flag ≡ pos 1
    → s.current_battle_id ≢ b'A'
    → IsFit st
    → IsSame st s
    → Stands st.hp s
    → IsKept q.origin_hp st
    → test_flag (with_status q s) w ≡ ok (playing (with_status q (healed q.origin_hp s)), w)
test_flag_won q s st w h more f same stands kept =
    test_flag_last q s w h
    ∙ after_tests q s w (not_eq s.current_battle_id b'A' more) (alive_lem s.hp stands.0 stands.1)
    ∙ ap (λ r. r >>= λ status. ok (playing (with_status q status), w))
        (recover-ok q.origin_hp s st f same stands kept)

-- Of a battle that is lost.
pub test_flag_lost :
    (q : Player) (s : Status) (w : Outside)
    → s.battle_ended_flag ≡ pos 1
    → s.current_battle_id ≢ b'A'
    → pos_part s.hp ≡ 0
    → test_flag (with_status q s) w ≡ lose (is_real q.id) (with_status q s) w
test_flag_lost q s w h more down =
    test_flag_last q s w h
    ∙ after_tests q s w (not_eq s.current_battle_id b'A' more) (down_lem s.hp down)
