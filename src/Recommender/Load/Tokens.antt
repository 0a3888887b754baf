-- ===== src/Recommender/Load/Tokens.antt =====
-- Texts that `strtok` cuts into their parts.
use sp.Base.{ℕ, ◌≡◌, ◌≢◌, refl, List, [], ◌∷◌, ◌++◌, some, not_eq, All, arith}
use sp.Base.Text.{Bytes}
use sp.Recommender.Load.{skip, cut, strtok}

-- A text with no delimiter in it, and one that `strtok` finds as a token.
abbrev pub IsFree : ℕ → Bytes → Type 0
IsFree d s = All (λ c. c ≢ d) s

abbrev pub IsToken : ℕ → Bytes → Type 0
IsToken d s = (s ≢ []) × IsFree d s

-- Tokens with a delimiter between each two.
abbrev pub join : ℕ → List Bytes → Bytes
join d [] = []
join d (t ∷ []) = t
join d (t ∷ u ∷ ts) = t ++ d ∷ join d (u ∷ ts)

pub cut-append : (d : ℕ) (t s : Bytes) → IsFree d t → cut d (t ++ d ∷ s) ≡ (t, s)
unfolding cut
cut-append d [] s h = ground arith
cut-append d (c ∷ t) s h = rw (cut-append d t s h.1, not_eq c d h.0)

cut_all : (d : ℕ) (t : Bytes) → IsFree d t → cut d t ≡ (t, [])
unfolding cut
cut_all d [] h = refl
cut_all d (c ∷ t) h = rw (cut_all d t h.1, not_eq c d h.0)

skip_none : (d c : ℕ) (s : Bytes) → c ≢ d → skip d (c ∷ s) ≡ c ∷ s
unfolding skip
skip_none d c s h = rw (not_eq c d h)

pub strtok-append : (d : ℕ) (t s : Bytes) → IsToken d t → strtok d (t ++ d ∷ s) ≡ some (t, s)
unfolding strtok
strtok-append d [] s h = absurd (h.0 refl)
strtok-append d (c ∷ t) s h = rw (skip_none d c (t ++ d ∷ s) h.1.0, cut-append d (c ∷ t) s h.1)

pub strtok_all : (d : ℕ) (t : Bytes) → IsToken d t → strtok d t ≡ some (t, [])
unfolding strtok
strtok_all d [] h = absurd (h.0 refl)
strtok_all d (c ∷ t) h = rw (skip_none d c t h.1.0, cut_all d (c ∷ t) h.1)
