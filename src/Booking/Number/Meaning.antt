-- ===== src/Booking/Number/Meaning.antt =====
-- What a word of a command means as a number, and that `convert` finds just that.
use sp.Base.{
  ℕ, zero, suc, ◌+◌, ◌-◌, ◌*◌, ◌<◌, ◌≡◌, refl, sym, ap, ◌∙◌, inl, inr, Bool, true, false, ◌&&◌, [],
  ◌∷◌, Option, some, none, leb, ◌==◌, le→leb, length, if◌then◌else◌, Bool-cases, arith, Result, ok,
}
use mathlib.Core.Option
use sp.Base.Int.{ℤ, pos, negsuc, eqb_ℤ, int_max}
use sp.Base.Text.{Bytes}
use sp.Base.Decimal.{value_of}
use sp.Booking.Number.{error_num, signed, is_no_digit, convert_loop, convert}
use sp.Booking.Number.Laws.{room, room-le, room_pos}

abbrev pub all_digits : Bytes → Bool
all_digits [] = true
all_digits (c ∷ s) = leb b'0' c && leb c b'9' && all_digits s

-- The number that a row of digits writes, 0 for none.
abbrev pub natural : Bytes → Option ℕ
natural s = if all_digits s then some (value_of 0 s) else none

abbrev pub negated : ℕ → ℤ
negated zero = pos 0
negated (suc n) = negsuc n

-- Digits, or a minus sign and digits.
abbrev pub number_of : Bytes → Option ℤ
number_of [] = some (pos 0)
number_of (c ∷ s) =
    if c == b'-' then Option.map negated (natural s) else Option.map pos (natural (c ∷ s))

-- The numbers that a command can ask for: all but -100000.
abbrev pub refuse : Option ℤ → Option ℤ
refuse none = none
refuse (some v) = if eqb_ℤ v (negsuc 99999) then none else some v

abbrev pub or_error : Option ℤ → ℤ
or_error none = error_num
or_error (some v) = v

no_digits : (c : ℕ) (s : Bytes) → is_no_digit c ≡ true → all_digits (c ∷ s) ≡ false
no_digits c s h = ground arith

more_digits : (c : ℕ) (s : Bytes) → is_no_digit c ≡ false → all_digits (c ∷ s) ≡ all_digits s
more_digits c s h = ground arith

loop_stop :
    (negative : Bool) (res c : ℕ) (s : Bytes)
    → is_no_digit c ≡ true
    → convert_loop negative res (c ∷ s) ≡ ok error_num
unfolding convert_loop
loop_stop negative res c s h = rw h

loop_step :
    (negative : Bool) (res c : ℕ) (s : Bytes)
    → is_no_digit c ≡ false
    → leb (res * 10 + (c - 48)) int_max ≡ true
    → convert_loop negative res (c ∷ s) ≡ convert_loop negative (res * 10 + (c - 48)) s
unfolding convert_loop
loop_step negative res c s h k = rw (h, k)

loop_value :
    (negative : Bool) (res : ℕ) (s : Bytes)
    → res < room s
    → convert_loop negative res s
      ≡ ok (if all_digits s then signed negative (value_of res s) else error_num)
unfolding convert_loop room value_of
loop_value negative res [] h = refl
loop_value negative res (c ∷ s) h =
    let next = res * 10 + (c - 48) in
    let answer : Bool → Result ℤ =
      λ b. ok (if b then signed negative (value_of next s) else error_num) in
    elim (Bool-cases (is_no_digit c)) [
      | inl bad ↦ loop_stop negative res c s bad ∙ ap answer (sym (no_digits c s bad))
      | inr digit ↦
          let fits : next < room s = ground arith in
          loop_step negative res c s digit (le→leb next int_max (omega (arith, room-le s)))
          ∙ loop_value negative next s fits
          ∙ ap answer (sym (more_digits c s digit))
    ]

signed-negated : (n : ℕ) → signed true n ≡ negated n
signed-negated zero = refl
signed-negated (suc n) = refl

or_error-map :
    (b : Bool) (n : ℕ) (f g : ℕ → ℤ)
    → f n ≡ g n
    → (if b then f n else error_num) ≡ or_error (Option.map g (if b then some n else none))
or_error-map true n f g h = h
or_error-map false n f g h = refl

convert_minus : (c : ℕ) (s : Bytes) → (c == b'-') ≡ true → convert (c ∷ s) ≡ convert_loop true 0 s
unfolding convert
convert_minus c s h = rw h

convert_plain :
    (c : ℕ) (s : Bytes) → (c == b'-') ≡ false → convert (c ∷ s) ≡ convert_loop false 0 (c ∷ s)
unfolding convert
convert_plain c s h = rw h

-- Of a word that fits an array of eight characters `convert` returns the number, or the value that
-- stands for none.
pub convert-number_of : (s : Bytes) → length s < 8 → convert s ≡ ok (or_error (number_of s))
unfolding convert convert_loop
convert-number_of [] h = refl
convert-number_of (c ∷ s) h =
    let pick : Bool → Result ℤ = λ b.
      ok (
        or_error
          (if b then Option.map negated (natural s) else Option.map pos (natural (c ∷ s)))) in
    elim (Bool-cases (c == b'-')) [
      | inl minus ↦
          convert_minus c s minus
          ∙ loop_value true 0 s (room_pos s (omega (arith, h)))
          ∙ ap ok (
              or_error-map (all_digits s) (value_of 0 s) (signed true) negated
                (signed-negated (value_of 0 s)))
          ∙ ap pick (sym minus)
      | inr plain ↦
          convert_plain c s plain
          ∙ loop_value false 0 (c ∷ s) (room_pos (c ∷ s) h)
          ∙ ap ok (or_error-map (all_digits (c ∷ s)) (value_of 0 (c ∷ s)) (signed false) pos refl)
          ∙ ap pick (sym plain)
    ]
