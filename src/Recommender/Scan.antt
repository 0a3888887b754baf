-- ===== src/Recommender/Scan.antt =====
-- scanf(3) as server.c uses it, on the bytes of stdin: `%d`, `%u` and `%254s`. Each gives what it
-- read and what is left; `none` is a conversion that fails.
pub mod Laws
use sp.Base.{
  ℕ, zero, suc, ◌-◌, ◌%◌, ◌^◌, Bool, true, false, ◌&&◌, List, [], ◌∷◌, Option, some, none, ltb, leb,
  ◌==◌, if◌then◌else◌, Result, ok, err, guard, overflow, ◌>>=◌, ◌>>◌,
}
use sp.Base.Text.{Bytes, is_space}
use sp.Base.Decimal.{value_of}

abbrev pub is_digit : ℕ → Bool
is_digit c = leb b'0' c && leb c b'9'

unfoldable pub skip_space : Bytes → Bytes
skip_space [] = []
skip_space (c ∷ s) = let rest = skip_space s in if is_space c then rest else c ∷ s

-- The digits at the front.
unfoldable pub scan_digits : Bytes → Bytes × Bytes
scan_digits [] = ([], [])
scan_digits (c ∷ s) =
    let (ds, rest) = scan_digits s in if is_digit c then (c ∷ ds, rest) else ([], c ∷ s)

-- Whether the sign is a minus.
unfoldable pub scan_sign : Bytes → Bool × Bytes
scan_sign [] = (false, [])
scan_sign (c ∷ s) =
    if c == b'-' then (true, s) else (if c == b'+' then (false, s) else (false, c ∷ s))

-- Sign and size of a number, which has a digit at least.
abbrev pub to_number : Bool → Bytes → Bytes → Option ((Bool × ℕ) × Bytes)
to_number negative [] rest = none
to_number negative (c ∷ cs) rest = some ((negative, value_of 0 (c ∷ cs)), rest)

unfoldable pub scan_number : Bytes → Option ((Bool × ℕ) × Bytes)
unfolding skip_space scan_digits scan_sign
scan_number s =
    let (negative, t) = scan_sign (skip_space s) in
    let (ds, rest) = scan_digits t in to_number negative ds rest

-- The 32 bits that hold the number.
abbrev pub to_word : Bool × ℕ → ℕ
to_word (negative, n) = if negative then (2 ^ 32 - n) % 2 ^ 32 else n

-- The numbers of `%d`.
abbrev pub fits_int : Bool × ℕ → Bool
fits_int (negative, n) = if negative then leb n (2 ^ 31) else ltb n (2 ^ 31)

-- The number, if `holds` says that C defines what becomes of it.
abbrev pub store_number :
    (Bool × ℕ → Bool) → Option ((Bool × ℕ) × Bytes) → Result (Option (ℕ × Bytes))
store_number holds none = ok none
store_number holds (some (num, rest)) = do guard (holds num) overflow; ok (some (to_word num, rest))

-- `%d`
unfoldable pub scan_int : Bytes → Result (Option (ℕ × Bytes))
unfolding scan_number
scan_int s = store_number fits_int (scan_number s)

-- `%u`, where a minus sign negates in 32 bits.
unfoldable pub scan_unsigned : Bytes → Result (Option (ℕ × Bytes))
unfolding scan_number
scan_unsigned s = store_number (λ num. ltb num.1 (2 ^ 32)) (scan_number s)

-- At most `left` bytes up to white space.
unfoldable pub scan_chars : (left : ℕ) → Bytes → Bytes × Bytes
scan_chars zero s = ([], s)
scan_chars (suc left) [] = ([], [])
scan_chars (suc left) (c ∷ s) =
    let (w, rest) = scan_chars left s in if is_space c then ([], c ∷ s) else (c ∷ w, rest)

abbrev pub to_text : Bytes → Bytes → Option (Bytes × Bytes)
to_text [] rest = none
to_text (c ∷ cs) rest = some (c ∷ cs, rest)

-- `%s` with the width `left`.
unfoldable pub scan_word : (left : ℕ) → Bytes → Option (Bytes × Bytes)
unfolding skip_space scan_chars
scan_word left s = let (w, rest) = scan_chars left (skip_space s) in to_text w rest
