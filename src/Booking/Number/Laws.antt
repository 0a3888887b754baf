-- ===== src/Booking/Number/Laws.antt =====
-- `convert` reads back what `%d` prints, and cannot overflow on a short word.
use sp.Base.{
  ℕ, zero, suc, ◌+◌, ◌-◌, ◌*◌, ◌/◌, ◌≤◌, ◌<◌, ◌≡◌, refl, Bool, true, false, [], ◌∷◌, ◌==◌, ok,
  arith, length, All, le→leb, Bool-cases, inl, inr,
}
use sp.Base.Int.{ℤ, pos, negsuc, pos_part, neg_part, int_max}
use sp.Base.Text.{Bytes}
use sp.Base.Decimal.{decimal, value_of, value_of-decimal, IsDigit, decimal-IsDigit}
use sp.Booking.Number.{error_num, signed, is_no_digit, convert_loop, convert}

-- More digits make no smaller number.
value_of-le : (acc : ℕ) (s : Bytes) → acc ≤ value_of acc s
unfolding value_of
value_of-le acc [] = omega arith
value_of-le acc (c ∷ s) = omega (arith, value_of-le (acc * 10 + (c - 48)) s)

-- On digits the loop computes their value, if that is an `int`.
convert_loop-value :
    (negative : Bool) (res : ℕ) (s : Bytes)
    → All IsDigit s
    → value_of res s ≤ int_max
    → convert_loop negative res s ≡ ok (signed negative (value_of res s))
unfolding convert_loop value_of
convert_loop-value negative res [] h b = refl
convert_loop-value negative res (c ∷ s) h b = ground (
  arith,
  value_of-le (res * 10 + (c - 48)) s,
  convert_loop-value negative (res * 10 + (c - 48)) s,
)

convert-digits :
    (s : Bytes) → All IsDigit s → value_of 0 s ≤ int_max → convert s ≡ ok (pos (value_of 0 s))
unfolding convert
convert-digits [] h b = convert_loop-value false 0 [] h b
convert-digits (c ∷ s) h b = ground (arith, convert_loop-value false 0 (c ∷ s) h b)

convert-minus :
    (s : Bytes)
    → All IsDigit s
    → value_of 0 s ≤ int_max
    → convert (b'-' ∷ s) ≡ ok (signed true (value_of 0 s))
unfolding convert
convert-minus s h b = convert_loop-value true 0 s h b

-- What `%d` prints of a number up to INT_MAX, with or without a minus sign, `convert` reads back.
pub convert-decimal :
    (n : ℕ)
    → n ≤ int_max
    → (convert (decimal n) ≡ ok (pos n)) × (convert (b'-' ∷ decimal n) ≡ ok (signed true n))
convert-decimal n h =
    let v = value_of-decimal n in
    let small : value_of 0 (decimal n) ≤ int_max = rw v h in
    (
      rw v at (convert-digits (decimal n) (decimal-IsDigit n) small),
      rw v at (convert-minus (decimal n) (decimal-IsDigit n) small),
    )

-- The values from which the rest of a word cannot lead to eight digits.
unfoldable pub room : Bytes → ℕ
room [] = 10000000
room (c ∷ s) = room s / 10

pub room-le : (s : Bytes) → room s ≤ 10000000
unfolding room
room-le [] = omega arith
room-le (c ∷ s) = omega (arith, room-le s)

pub room_pos : (s : Bytes) → length s < 8 → 0 < room s
unfolding room
room_pos [] h = omega arith
room_pos (a ∷ []) h = omega arith
room_pos (a ∷ b ∷ []) h = omega arith
room_pos (a ∷ b ∷ c ∷ []) h = omega arith
room_pos (a ∷ b ∷ c ∷ d ∷ []) h = omega arith
room_pos (a ∷ b ∷ c ∷ d ∷ e ∷ []) h = omega arith
room_pos (a ∷ b ∷ c ∷ d ∷ e ∷ f ∷ []) h = omega arith
room_pos (a ∷ b ∷ c ∷ d ∷ e ∷ f ∷ g ∷ []) h = omega arith
room_pos (a ∷ b ∷ c ∷ d ∷ e ∷ f ∷ g ∷ i ∷ s) h = absurd (omega arith)

-- What `convert` makes of a short word: seven digits at most.
abbrev pub IsSmall : ℤ → Type 0
IsSmall v = (pos_part v < 10000000) × (neg_part v < 10000000)

convert_loop-IsSmall :
    (negative : Bool) (res : ℕ) (s : Bytes)
    → res < room s
    → (v : ℤ) × (convert_loop negative res s ≡ ok v) × IsSmall v
unfolding convert_loop room
convert_loop-IsSmall true zero [] h = (pos 0, refl, omega arith)
convert_loop-IsSmall true (suc n) [] h = (negsuc n, refl, omega arith)
convert_loop-IsSmall false n [] h = (pos n, refl, omega arith)
convert_loop-IsSmall negative res (c ∷ s) h = elim (Bool-cases (is_no_digit c)) [
  | inl bad ↦ (error_num, rw bad, omega arith)
  | inr digit ↦
      let next = res * 10 + (c - 48) in
      let fits : next < room s = ground arith in
      let (v, run, small) = convert_loop-IsSmall negative next s fits in
      (v, rw (digit, le→leb next int_max (omega (arith, room-le s))) run, small)
]

-- A word that fits an array of eight characters never makes `convert` overflow.
pub convert-short : (s : Bytes) → length s < 8 → (v : ℤ) × (convert s ≡ ok v) × IsSmall v
unfolding convert room
convert-short [] h = convert_loop-IsSmall false 0 [] (omega arith)
convert-short (c ∷ s) h = elim (Bool-cases (c == b'-')) [
  | inl minus ↦ rw minus (convert_loop-IsSmall true 0 s (room_pos s (omega arith)))
  | inr other ↦ rw other (convert_loop-IsSmall false 0 (c ∷ s) (room_pos (c ∷ s) h))
]
