-- ===== src/Booking/Number.antt =====
-- `convert`: from text to `int`, with an error value for what is no number.
pub mod Laws
pub mod Meaning
use sp.Base.{
  ℕ, zero, suc, ◌+◌, ◌-◌, ◌*◌, Bool, true, false, ◌||◌, List, [], ◌∷◌, ltb, leb, ◌==◌,
  if◌then◌else◌, Result, ok, guard, overflow, ◌>>◌,
}
use sp.Base.Int.{ℤ, pos, negsuc, int_max}
use sp.Base.Text.{Bytes}

-- `ERROR_NUM`, -100000
abbrev pub error_num : ℤ
error_num = negsuc 99999

-- `negative * res`
abbrev pub signed : Bool → ℕ → ℤ
signed true zero = pos 0
signed true (suc n) = negsuc n
signed false n = pos n

abbrev pub is_no_digit : ℕ → Bool
is_no_digit c = ltb c 48 || ltb 57 c

-- The loop over the characters that are left. Both steps of `res *= 10; res += ...` stay in range
-- exactly when the sum does.
unfoldable pub convert_loop : (negative : Bool) (res : ℕ) → Bytes → Result ℤ
convert_loop negative res [] = ok (signed negative res)
convert_loop negative res (c ∷ s) =
    let next = res * 10 + (c - 48) in
    let rest = convert_loop negative next s in
    if is_no_digit c then ok error_num else (guard (leb next int_max) overflow >> rest)

unfoldable pub convert : Bytes → Result ℤ
unfolding convert_loop
convert [] = convert_loop false 0 []
convert (c ∷ s) = if c == b'-' then convert_loop true 0 s else convert_loop false 0 (c ∷ s)
