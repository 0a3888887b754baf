-- ===== src/Base/Text.antt =====
-- C strings as lists of bytes without the final NUL, and what string.h says of them.
use Prim.Native.Nat.{ℕ, ◌<◌, compare, Ordering}
use Prim.Native.Char.{code}
use Prim.Native.String.{String}
use mathlib.Core.Path.{◌≡◌, refl}
use mathlib.Core.Logic.{◌≢◌}
use mathlib.Core.Bool.{Bool, true, false, ◌&&◌, ◌||◌}
use mathlib.Core.List.{List, [], ◌∷◌, ◌++◌}
use native.Mathlib.Omega.{arith}
use sp.Base.Tests.{◌==◌, leb, if◌then◌else◌}
use sp.Base.Lists.{All}

abbrev pub Bytes : Type 0
Bytes = List ℕ

abbrev pub codes : String → Bytes
codes String.[] = []
codes (String.◌∷◌ c s) = code c ∷ codes s

-- White space as `isspace` has it.
abbrev pub is_space : ℕ → Bool
is_space c = c == 32 || (leb 9 c && leb c 13)

-- The bytes before the first NUL, which are what a C string in an array of bytes is.
unfoldable pub until_nul : Bytes → Bytes
until_nul [] = []
until_nul (c ∷ s) = if c == 0 then [] else c ∷ until_nul s

-- strcmp(3), as the sign of its result.
unfoldable pub strcmp : Bytes → Bytes → Ordering
strcmp [] [] = Ordering.eq
strcmp [] (y ∷ ys) = Ordering.lt
strcmp (x ∷ xs) [] = Ordering.gt
strcmp (x ∷ xs) (y ∷ ys) = elim (compare x y) [
  | Ordering.lt ↦ Ordering.lt
  | Ordering.eq ↦ strcmp xs ys
  | Ordering.gt ↦ Ordering.gt
]

-- `strncmp(s, prefix, strlen(prefix)) == 0`.
unfoldable pub starts_with : Bytes → Bytes → Bool
starts_with [] s = true
starts_with (p ∷ ps) [] = false
starts_with (p ∷ ps) (c ∷ s) = p == c && starts_with ps s

-- `strstr(s, needle) != NULL`.
unfoldable pub strstr : Bytes → Bytes → Bool
unfolding starts_with
strstr [] needle = starts_with needle []
strstr (c ∷ s) needle = starts_with needle (c ∷ s) || strstr s needle

pub strcmp_refl : (s : Bytes) → strcmp s s ≡ Ordering.eq
unfolding strcmp
strcmp_refl [] = refl
strcmp_refl (x ∷ xs) = ground (arith, strcmp_refl xs)

pub eq_of_strcmp : (s t : Bytes) → strcmp s t ≡ Ordering.eq → s ≡ t
unfolding strcmp
eq_of_strcmp [] [] h = refl
eq_of_strcmp [] (y ∷ ys) h = cc
eq_of_strcmp (x ∷ xs) [] h = cc
eq_of_strcmp (x ∷ xs) (y ∷ ys) h = ground (arith, eq_of_strcmp xs ys)

pub strcmp_flip : (s t : Bytes) → strcmp s t ≡ Ordering.gt → strcmp t s ≡ Ordering.lt
unfolding strcmp
strcmp_flip [] [] h = cc
strcmp_flip [] (y ∷ ys) h = cc
strcmp_flip (x ∷ xs) [] h = refl
strcmp_flip (x ∷ xs) (y ∷ ys) h = ground (arith, strcmp_flip xs ys)

pub strcmp_flip_lt : (s t : Bytes) → strcmp s t ≡ Ordering.lt → strcmp t s ≡ Ordering.gt
unfolding strcmp
strcmp_flip_lt [] [] h = cc
strcmp_flip_lt [] (y ∷ ys) h = refl
strcmp_flip_lt (x ∷ xs) [] h = cc
strcmp_flip_lt (x ∷ xs) (y ∷ ys) h = ground (arith, strcmp_flip_lt xs ys)

-- `strcmp` is not above zero: a transitive relation.
pub strcmp_trans :
    (s t u : Bytes) → strcmp s t ≢ Ordering.gt → strcmp t u ≢ Ordering.gt → strcmp s u ≢ Ordering.gt
unfolding strcmp
strcmp_trans [] t [] p q = λ e. cc
strcmp_trans [] t (z ∷ zs) p q = λ e. cc
strcmp_trans (x ∷ xs) [] u p q = absurd (p refl)
strcmp_trans (x ∷ xs) (y ∷ ys) [] p q = absurd (q refl)
strcmp_trans (x ∷ xs) (y ∷ ys) (z ∷ zs) p q = ground (arith, strcmp_trans xs ys zs)

-- A common ending that begins with a byte below all others does not change the comparison.
pub strcmp-append :
    (k : ℕ) (ending s t : Bytes)
    → All (λ c. k < c) s
    → All (λ c. k < c) t
    → strcmp (s ++ k ∷ ending) (t ++ k ∷ ending) ≡ strcmp s t
unfolding strcmp
strcmp-append k ending [] [] hs ht = ground (arith, strcmp_refl ending)
strcmp-append k ending [] (y ∷ ys) hs ht = ground arith
strcmp-append k ending (x ∷ xs) [] hs ht = ground arith
strcmp-append k ending (x ∷ xs) (y ∷ ys) hs ht = ground (arith, strcmp-append k ending xs ys)

pub until_nul-whole : (s : Bytes) → All (λ c. c ≢ 0) s → until_nul s ≡ s
unfolding until_nul
until_nul-whole [] h = refl
until_nul-whole (c ∷ s) h = ground (arith, until_nul-whole s h.1)
