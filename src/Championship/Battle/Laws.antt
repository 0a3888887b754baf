-- ===== src/Championship/Battle/Laws.antt =====
-- What a round does to two players that are fit for it.
use sp.Base.{
  ℕ, ◌+◌, ◌≤◌, ◌<◌, ◌≡◌, refl, ap, sym, ◌∙◌, inl, inr, Bool, true, false, not, ◌≢◌, if◌then◌else◌,
  if_lem, arith, eq_cases, Result, ok, err, ◌>>=◌,
}
use sp.Base.Int.{ℤ, eq_of_parts, pos, pos_part, neg_part, leb_ℤ, ◌-ℤ◌, sub_int, int_max}
use sp.Championship.Status.{Attribute, Status}
use sp.Championship.Graph.{graph}
use sp.Championship.Battle.{compare, attack, battle, battle_end, fight, flip, is_down}
use sp.Championship.Battle.Blow.{IsFit, sub_int-ok, attack_lem, blow}

-- What a round leaves of a player that stands, whatever its HP.
abbrev pub IsSame : Status → Status → Type 0
IsSame s t = (t.real_player_id ≡ s.real_player_id) × (t.atk ≡ s.atk) × (t.attr ≡ s.attr)

abbrev pub Stands : ℤ → Status → Type 0
Stands hp t = (neg_part t.hp ≡ 0) × (1 ≤ pos_part t.hp) × (pos_part t.hp ≤ pos_part hp)

-- Both stand, with less, and go on; or one has fallen, and the round is the last.
pub data Outcome (h1 h2 : ℤ) (t1 t2 : Status) : Type 0 where
  both :
      Stands h1 t1
      → Stands h2 t2
      → pos_part t1.hp < pos_part h1
      → pos_part t2.hp < pos_part h2
      → t1.battle_ended_flag ≡ pos 0
      → t2.battle_ended_flag ≡ pos 0
      → Outcome h1 h2 t1 t2
  first :
      Stands h1 t1
      → pos_part t2.hp ≡ 0
      → t1.battle_ended_flag ≡ pos 1
      → t2.battle_ended_flag ≡ pos 1
      → Outcome h1 h2 t1 t2
  second :
      Stands h2 t2
      → pos_part t1.hp ≡ 0
      → t1.battle_ended_flag ≡ pos 1
      → t2.battle_ended_flag ≡ pos 1
      → Outcome h1 h2 t1 t2

abbrev hit : ℤ → Status → Status
hit a s = record s { hp = s.hp -ℤ a }

abbrev close : Status → Status
close s = record s { battle_ended_flag = pos 1 }

not_down : (s : Status) → IsFit s → is_down s ≡ false
not_down s f = let alive = f.alive in let sign = f.hp_sign in ground arith

-- The round, by the strengths of the two blows.
module _ (attr : Attribute) (s1 s2 : Status) (f : IsFit s1) (g : IsFit s2) (a b : ℤ)
    (ea : attack attr s1 ≡ ok a) (eb : attack attr s2 ≡ ok b) (ha : neg_part a ≡ 0)
    (hb : neg_part b ≡ 0) (ma : pos_part a ≤ int_max) (mb : pos_part b ≤ int_max) where
  first_blow : sub_int s2.hp a ≡ ok (s2.hp -ℤ a)
  first_blow = sub_int-ok s2.hp a g.hp_sign ha g.hp_int ma

  second_blow : sub_int s1.hp b ≡ ok (s1.hp -ℤ b)
  second_blow = sub_int-ok s1.hp b f.hp_sign hb f.hp_int mb

  battle_down :
      leb_ℤ (s2.hp -ℤ a) (pos 0) ≡ true → battle attr s1 s2 ≡ ok (close s1, close (hit a s2))
  unfolding battle battle_end
  battle_down d = rw (ea, eb, first_blow, not_down s1 f, d)

  battle_second :
      leb_ℤ (s2.hp -ℤ a) (pos 0) ≡ false
      → leb_ℤ (s1.hp -ℤ b) (pos 0) ≡ true
      → battle attr s1 s2 ≡ ok (close (hit b s1), close (hit a s2))
  unfolding battle battle_end
  battle_second d e = rw (ea, eb, first_blow, second_blow, not_down s1 f, d, e)

  battle_both :
      leb_ℤ (s2.hp -ℤ a) (pos 0) ≡ false
      → leb_ℤ (s1.hp -ℤ b) (pos 0) ≡ false
      → battle attr s1 s2 ≡ ok (hit b s1, hit a s2)
  unfolding battle battle_end
  battle_both d e = rw (ea, eb, first_blow, second_blow, not_down s1 f, d, e)

-- What `fight` and `battle` promise of the status that they return.
abbrev pub Fought : ℕ → Status → Status → Result (Status × Status) → Type 0
Fought b s1 s2 r =
    (t1 : Status) × (t2 : Status) × (r ≡ ok (t1, t2))
    × IsSame s1 t1
    × IsSame s2 t2
    × (t1.current_battle_id ≡ b)
    × (t2.current_battle_id ≡ b)
    × Outcome s1.hp s2.hp t1 t2

battle_lem :
    (attr : Attribute) (b : ℕ) (s1 s2 : Status)
    → IsFit s1
    → IsFit s2
    → s1.current_battle_id ≡ b
    → s2.current_battle_id ≡ b
    → Fought b s1 s2 (battle attr s1 s2)
battle_lem attr id s1 s2 f g i j =
    let (a, ea, ha, la, ma) = attack_lem attr s1 f in
    let (b, eb, hb, lb, mb) = attack_lem attr s2 g in
    elim (blow s2.hp a g.hp_sign ha la) [
      | inl (d, z) ↦ (
        close s1,
        close (hit a s2),
        battle_down attr s1 s2 f g a b ea eb ha hb ma mb d,
        (refl, refl, refl),
        (refl, refl, refl),
        i,
        j,
        first (f.hp_sign, f.alive, omega arith) z refl refl,
      )
      | inr (d, sign, up, less) ↦ elim (blow s1.hp b f.hp_sign hb lb) [
        | inl (e, z) ↦ (
          close (hit b s1),
          close (hit a s2),
          battle_second attr s1 s2 f g a b ea eb ha hb ma mb d e,
          (refl, refl, refl),
          (refl, refl, refl),
          i,
          j,
          second (sign, up, omega (arith, less)) z refl refl,
        )
        | inr (e, sign1, up1, less1) ↦ (
          hit b s1,
          hit a s2,
          battle_both attr s1 s2 f g a b ea eb ha hb ma mb d e,
          (refl, refl, refl),
          (refl, refl, refl),
          i,
          j,
          both (sign1, up1, omega (arith, less1)) (sign, up, omega (arith, less)) less1 less f.on
              g.on,
        )
      ]
    ]

Outcome-flip : {h1 h2 : ℤ} {t1 t2 : Status} → Outcome h1 h2 t1 t2 → Outcome h2 h1 t2 t1
Outcome-flip (both a b c d e f) = both b a d c f e
Outcome-flip (first a b c d) = second a b d c
Outcome-flip (second a b c d) = first a b d c

Fought-flip :
    (b : ℕ) (s1 s2 : Status) (r : Result (Status × Status))
    → Fought b s2 s1 r
    → Fought b s1 s2 (r >>= λ stats. ok (flip stats))
Fought-flip b s1 s2 r (t2, t1, e, same2, same1, i2, i1, o) =
    (t1, t2, ap (λ q. q >>= λ stats. ok (flip stats)) e, same1, same2, i1, i2, Outcome-flip o)

abbrev pub move_to : ℕ → Status → Status
move_to b s = record s { current_battle_id = b }

pub IsFit-move_to : (b : ℕ) (s : Status) → IsFit s → IsFit (move_to b s)
IsFit-move_to b s f = record {
  player = f.player;
  hp_sign = f.hp_sign;
  alive = f.alive;
  hp_int = f.hp_int;
  atk_sign = f.atk_sign;
  harms = f.harms;
  atk_int = f.atk_int;
  on = f.on;
}

-- One round between two players that are fit returns: it changes their HP, flag and battle alone, and
-- either both stand with less HP and go on, or exactly one stands, with no more HP than before, and the
-- flags of both say that the battle is over.
pub fight_lem : (b : ℕ) (s1 s2 : Status) → IsFit s1 → IsFit s2 → Fought b s1 s2 (fight b s1 s2)
unfolding fight
fight_lem b s1 s2 f g =
    let first_fit = IsFit-move_to b s1 f in
    let second_fit = IsFit-move_to b s2 g in
    let attr = (graph b).attr in
    if_lem (Fought b s1 s2) (compare (move_to b s1) (move_to b s2))
      (battle_lem attr b (move_to b s1) (move_to b s2) first_fit second_fit refl refl)
      (Fought-flip b s1 s2 (battle attr (move_to b s2) (move_to b s1))
        (battle_lem attr b (move_to b s2) (move_to b s1) second_fit first_fit refl refl))

-- Of two players with other HP or another number exactly one is to attack first.
compare_flip :
    (s1 s2 : Status)
    → (s1.hp ≡ s2.hp → s1.real_player_id ≢ s2.real_player_id)
    → compare s2 s1 ≡ not (compare s1 s2)
unfolding compare
compare_flip s1 s2 h =
    elim (eq_cases (pos_part s1.hp + neg_part s2.hp) (pos_part s2.hp + neg_part s1.hp)) [
      | inl e ↦
          let same = eq_of_parts s1.hp s2.hp e in
          let other = h same in
          let up = ap pos_part same in let down = ap neg_part same in ground arith
      | inr ne ↦ ground arith
    ]

flip_twice : (r : Result (Status × Status)) → ((r >>= λ p. ok (flip p)) >>= λ p. ok (flip p)) ≡ r
flip_twice (ok (a, b)) = refl
flip_twice (err e) = refl

either_first :
    (c : Bool) (m n : Result (Status × Status))
    → (if not c then n else (m >>= λ p. ok (flip p)))
      ≡ ((if c then m else (n >>= λ p. ok (flip p))) >>= λ p. ok (flip p))
either_first true m n = refl
either_first false m n = sym (flip_twice n)

-- Which child of a battle a player comes from makes no difference: with the players swapped a round
-- returns the same two statuses, swapped, or stops on the same fault, unless two players have both the
-- same HP and the same number.
pub fight-flip :
    (b : ℕ) (s1 s2 : Status)
    → (s1.hp ≡ s2.hp → s1.real_player_id ≢ s2.real_player_id)
    → fight b s2 s1 ≡ (fight b s1 s2 >>= λ stats. ok (flip stats))
unfolding fight
fight-flip b s1 s2 h =
    let m = battle (graph b).attr (move_to b s1) (move_to b s2) in
    let n = battle (graph b).attr (move_to b s2) (move_to b s1) in
    ap (λ c. if c then n else (m >>= λ p. ok (flip p)))
      (compare_flip (move_to b s1) (move_to b s2) h)
    ∙ either_first (compare (move_to b s1) (move_to b s2)) m n
