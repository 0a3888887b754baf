-- ===== src/Recommender/Workers/Members.antt =====
-- Lists of numbers without repetition that hold the same numbers.
use mathlib.Core.List.{
  Mem, Perm, Pairwise, Nodup, Nodup-cons, mem-cons, mem-cons_self, mem-cons_of_mem, not-mem-nil,
  perm_ext_iff_of_Nodup,
}
use mathlib.Core.Bool.{Bool-set}
use mathlib.Core.Logic.Or
use sp.Base.{
  ℕ, zero, suc, ◌+◌, ◌<◌, ◌≤◌, ◌≡◌, subst, true, false, inl, inr, List, [], ◌∷◌, arith, eq_cases,
  Bool-cases,
}
use sp.Recommender.Workers.Invariant.{contains, NoRepeat}

-- The numbers from `i` on, `left` of them.
abbrev pub count_from : (left i : ℕ) → List ℕ
count_from zero i = []
count_from (suc left) i = i ∷ count_from left (suc i)

mem_of_contains : (xs : List ℕ) (c : ℕ) → contains xs c ≡ true → Mem c xs
mem_of_contains [] c h = cc
mem_of_contains (x ∷ xs) c h = elim (eq_cases x c) [
  | inl e ↦ subst (λ y. Mem y (x ∷ xs)) e mem-cons_self
  | inr e ↦ mem-cons_of_mem x (mem_of_contains xs c (ground (arith, h)))
]

contains_of_mem : (xs : List ℕ) (c : ℕ) → Mem c xs → contains xs c ≡ true
contains_of_mem [] c m = absurd (not-mem-nil m)
contains_of_mem (x ∷ xs) c m =
    Or.elim (Bool-set _ _) (mem-cons.0 m) (λ e. ground (arith, e))
      (λ n. ground (arith, contains_of_mem xs c n))

NoRepeat-Nodup : (xs : List ℕ) → NoRepeat xs → Nodup xs
NoRepeat-Nodup [] h = Pairwise.nil
NoRepeat-Nodup (x ∷ xs) h =
    Nodup-cons.1 (λ m. cc (contains_of_mem xs x m, h.0), NoRepeat-Nodup xs h.1)

pub perm_of_contains :
    (xs ys : List ℕ)
    → NoRepeat xs
    → NoRepeat ys
    → ((c : ℕ) → contains xs c ≡ true → contains ys c ≡ true)
    → ((c : ℕ) → contains ys c ≡ true → contains xs c ≡ true)
    → Perm xs ys
perm_of_contains xs ys hx hy f g =
    (perm_ext_iff_of_Nodup (NoRepeat-Nodup xs hx) (NoRepeat-Nodup ys hy)).1 (λ c. (
      λ m. mem_of_contains ys c (f c (contains_of_mem xs c m)),
      λ m. mem_of_contains xs c (g c (contains_of_mem ys c m)),
    ))

pub count_from-contains :
    (left i c : ℕ) → i ≤ c → c < i + left → contains (count_from left i) c ≡ true
count_from-contains zero i c h k = absurd (omega arith)
count_from-contains (suc left) i c h k = ground (arith, count_from-contains left (suc i) c)

pub contains-count_from :
    (left i c : ℕ) → contains (count_from left i) c ≡ true → (i ≤ c) × (c < i + left)
contains-count_from zero i c h = cc
contains-count_from (suc left) i c h = ground (arith, contains-count_from left (suc i) c)

count_from_later : (left i c : ℕ) → c < i → contains (count_from left i) c ≡ false
count_from_later left i c h = elim (Bool-cases (contains (count_from left i) c)) [
  | inl p ↦ absurd (omega (arith, h, (contains-count_from left i c p).0))
  | inr p ↦ p
]

pub count_from-NoRepeat : (left i : ℕ) → NoRepeat (count_from left i)
count_from-NoRepeat zero i = tt
count_from-NoRepeat (suc left) i =
    (count_from_later left (suc i) i (omega arith), count_from-NoRepeat left (suc i))
