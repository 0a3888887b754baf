-- ===== src/Base/Decimal.antt =====
-- `%d` of a number that is not negative.
use Prim.Native.Nat.{ℕ, zero, suc, ◌+◌, ◌-◌, ◌*◌, ◌/◌, ◌%◌, ◌<◌, ◌≤◌, ◌^◌}
use mathlib.Core.Path.{◌≡◌, refl}
use mathlib.Core.Logic.{◌≢◌}
use mathlib.Core.List.{[], ◌∷◌, ◌++◌}
use native.Mathlib.Omega.{arith}
use sp.Base.Tests.{ltb, if◌then◌else◌, if_lem}
use sp.Base.Lists.{length, length-append, All, All-append}
use sp.Base.Text.{Bytes}

-- The digits, last one last; `fuel` is the number of digits at most.
unfoldable pub digits_of : (fuel n : ℕ) → Bytes
digits_of zero n = []
digits_of (suc fuel) n =
    let front = digits_of fuel (n / 10) in
    if ltb n 10 then (48 + n) ∷ [] else front ++ (48 + n % 10) ∷ []

unfoldable pub decimal : ℕ → Bytes
unfolding digits_of
decimal n = digits_of (suc n) n

-- The value that a row of digits denotes, on top of `acc`.
unfoldable pub value_of : (acc : ℕ) → Bytes → ℕ
value_of acc [] = acc
value_of acc (c ∷ cs) = value_of (acc * 10 + (c - 48)) cs

value_of-append : (acc : ℕ) (s t : Bytes) → value_of acc (s ++ t) ≡ value_of (value_of acc s) t
unfolding value_of
value_of-append acc [] t = refl
value_of-append acc (c ∷ s) t = value_of-append (acc * 10 + (c - 48)) s t

value_of-digits : (fuel n : ℕ) → n < fuel → value_of 0 (digits_of fuel n) ≡ n
unfolding digits_of value_of
value_of-digits zero n h = absurd (omega arith)
value_of-digits (suc fuel) n h = ground (
  arith,
  value_of-append 0 (digits_of fuel (n / 10)) ((48 + n % 10) ∷ []),
  value_of-digits fuel (n / 10),
)

-- Printing a number and reading its digits gives the number back.
pub value_of-decimal : (n : ℕ) → value_of 0 (decimal n) ≡ n
unfolding decimal
value_of-decimal n = value_of-digits (suc n) n (omega arith)

length-digits_of : (k fuel n : ℕ) → n < 10 ^ suc k → length (digits_of fuel n) ≤ suc k
unfolding digits_of
length-digits_of k zero n h = omega arith
length-digits_of zero (suc fuel) n h =
    let l = length-append (digits_of fuel (n / 10)) ((48 + n % 10) ∷ []) in ground arith
length-digits_of (suc k) (suc fuel) n h =
    let l = length-append (digits_of fuel (n / 10)) ((48 + n % 10) ∷ []) in
    let front = length-digits_of k fuel (n / 10) (omega (arith, h)) in ground arith

-- A number below a power of ten has no more digits than its exponent.
pub length-decimal : (k n : ℕ) → n < 10 ^ suc k → length (decimal n) ≤ suc k
unfolding decimal
length-decimal k n h = length-digits_of k (suc n) n h

abbrev pub IsDigit : ℕ → Type 0
IsDigit c = (48 ≤ c) × (c ≤ 57)

digits_of-IsDigit : (fuel n : ℕ) → All IsDigit (digits_of fuel n)
unfolding digits_of
digits_of-IsDigit zero n = tt
digits_of-IsDigit (suc fuel) n = ground (
  arith,
  digits_of-IsDigit fuel (n / 10),
  All-append IsDigit (digits_of fuel (n / 10)) ((48 + n % 10) ∷ []),
)

pub decimal-IsDigit : (n : ℕ) → All IsDigit (decimal n)
unfolding decimal
decimal-IsDigit n = digits_of-IsDigit (suc n) n

snoc_some : (s : Bytes) (c : ℕ) → s ++ c ∷ [] ≢ []
snoc_some [] c = λ e. cc
snoc_some (x ∷ s) c = λ e. cc

pub decimal_some : (n : ℕ) → decimal n ≢ []
unfolding decimal digits_of
decimal_some n =
    if_lem (λ s. s ≢ []) (ltb n 10) (snoc_some [] (48 + n))
      (snoc_some (digits_of n (n / 10)) (48 + n % 10))
