-- ===== src/Championship/Battle/Blow.antt =====
-- A player that is fit to fight, its attack, and how one blow ends.
use sp.Base.{◌^◌, ◌≤◌, ◌<◌, ◌≡◌, refl, ◌⊎◌, true, false, if_lem, arith, ok}
use sp.Base.Int.{
  ℤ, pos, pos_part, neg_part, leb_ℤ, ◌+ℤ◌, ◌-ℤ◌, +ℤ_parts, +ℤ_bound, sub_int, add_int-ok, int_max,
}
use sp.Championship.Status.{Attribute, Status}
use sp.Championship.Battle.{attack, same_attr}

-- A player that can fight: alive, strong enough to do harm, and with no attack beyond `int` twice over.
pub record IsFit (s : Status) : Type 0 where
  pub player : s.real_player_id ≤ 7
  pub hp_sign : neg_part s.hp ≡ 0
  pub alive : 1 ≤ pos_part s.hp
  pub hp_int : pos_part s.hp ≤ int_max
  pub atk_sign : neg_part s.atk ≡ 0
  pub harms : 1 ≤ pos_part s.atk
  pub atk_int : pos_part s.atk < 2 ^ 30
  pub on : s.battle_ended_flag ≡ pos 0

pub sub_int-ok :
    (a b : ℤ)
    → neg_part a ≡ 0
    → neg_part b ≡ 0
    → pos_part a ≤ int_max
    → pos_part b ≤ int_max
    → sub_int a b ≡ ok (a -ℤ b)
unfolding ◌-ℤ◌
sub_int-ok a b h k l m = ground arith

pub attack_lem :
    (attr : Attribute) (s : Status)
    → IsFit s
    → (a : ℤ) × (attack attr s ≡ ok a)
      × (neg_part a ≡ 0)
      × (1 ≤ pos_part a)
      × (pos_part a ≤ int_max)
unfolding attack
attack_lem attr s f =
    let sum = +ℤ_bound s.atk s.atk in
    let twice = +ℤ_parts s.atk s.atk in
    if_lem
      (λ r. (a : ℤ) × (r ≡ ok a) × (neg_part a ≡ 0) × (1 ≤ pos_part a) × (pos_part a ≤ int_max))
      (same_attr attr s.attr)
      (
        s.atk +ℤ s.atk,
        add_int-ok s.atk s.atk (omega (arith, f.atk_int)) (omega (arith, f.atk_sign)),
        omega (arith, sum, f.atk_sign),
        omega (arith, twice, f.atk_sign, f.harms),
        omega (arith, sum, f.atk_int),
      )
      (s.atk, refl, f.atk_sign, f.harms, omega (arith, f.atk_int))

-- The two ways in which a blow ends.
pub blow :
    (a b : ℤ)
    → neg_part a ≡ 0
    → neg_part b ≡ 0
    → 1 ≤ pos_part b
    → let d = a -ℤ b in
      ((leb_ℤ d (pos 0) ≡ true) × (pos_part d ≡ 0))
      ⊎ ((leb_ℤ d (pos 0) ≡ false)
          × (neg_part d ≡ 0)
          × (1 ≤ pos_part d)
          × (pos_part d < pos_part a))
unfolding ◌-ℤ◌
blow a b h k l = ground arith
