-- ===== src/Base/Sorted.antt =====
-- Lists in order: the tests of the program induce a total order of keys, and a list in order is
-- settled, up to keys, by what it holds.
use mathlib.Core.Path.{◌≡◌, ◌∙◌, ap₂, refl, subst, sym}
use mathlib.Core.Bool.{Bool, true, false, Bool-set}
use mathlib.Core.List.{
  List, [], ◌∷◌, ◌++◌, map, Mem, Perm, Permᴰ, Pairwise, Pairwise-cons, Pairwise-map, mem-append,
  mem-cons_self, mem-cons, mem-cons_of_mem, not-mem-nil, mem-append_left, mem-append_right,
}
use mathlib.Core.List.Perm
use mathlib.Core.Logic.Or
use mathlib.Core.Logic.{∥∥₁_elim}
use Prim.Native.Nat.{ℕ}
use native.Mathlib.Nat.{ℕ_set}
use native.Mathlib.Omega.{arith}
use sp.Base.Lists.{All, length, take, drop, take-append-drop}

pub record TotalOrder {ℓ} (K : Type ℓ) : Type ℓ where
  pub le : K → K → Bool
  pub le_refl : (a : K) → le a a ≡ true
  pub le_total : (a b : K) → le a b ≡ false → le b a ≡ true
  pub le_trans : (a b c : K) → le a b ≡ true → le b c ≡ true → le a c ≡ true
  pub le_antisymm : (a b : K) → le a b ≡ true → le b a ≡ true → a ≡ b

module _ {ℓ κ} {A : Type ℓ} {K : Type κ} (o : TotalOrder K) (key : A → K) where
  abbrev pub Le : A → A → Type 0
  Le a b = o.le (key a) (key b) ≡ true

  abbrev pub IsSorted : List A → Type ℓ
  IsSorted = Pairwise Le

  -- `a` goes before all of `xs`.
  abbrev pub IsFirst : A → List A → Type ℓ
  IsFirst a xs = (x : A) → Mem x xs → Le a x

  Le_prop : (a b : A) → IsProp (Le a b)
  Le_prop a b = Bool-set _ _

  pub IsFirst-cons : {a b : A} {xs : List A} → Le a b → IsFirst a xs → IsFirst a (b ∷ xs)
  IsFirst-cons {a} {b} h hs x m = Or.elim (Le_prop a x) (mem-cons.0 m) (λ e. rw e h) (hs x)

  pub IsFirst-append : {a : A} {xs ys : List A} → IsFirst a xs → IsFirst a ys → IsFirst a (xs ++ ys)
  IsFirst-append {a} hx hy x m = Or.elim (Le_prop a x) (mem-append.0 m) (hx x) (hy x)

  pub IsFirst-perm : {a : A} {xs ys : List A} → Perm xs ys → IsFirst a ys → IsFirst a xs
  IsFirst-perm p h x m = h x ((Perm.mem_iff p).0 m)

  pub IsFirst-le : {a b : A} {xs : List A} → Le a b → IsFirst b xs → IsFirst a xs
  IsFirst-le {a} {b} h hs x m = o.le_trans _ _ _ h (hs x m)

  -- What goes before the head of a sorted list goes before all of it.
  pub IsFirst-head : {a b : A} {xs : List A} → Le a b → IsSorted (b ∷ xs) → IsFirst a (b ∷ xs)
  IsFirst-head h (Pairwise.cons first _) = IsFirst-cons h (IsFirst-le h first)

-- A predicate of the members, and of the places.
pub All-of_mem {ℓ κ} :
    {A : Type ℓ} (P : A → Type κ) (xs : List A) → ((x : A) → Mem x xs → P x) → All P xs
All-of_mem P [] h = tt
All-of_mem P (x ∷ xs) h = (h x mem-cons_self, All-of_mem P xs (λ y m. h y (mem-cons_of_mem x m)))

pub mem-All {ℓ κ} :
    {A : Type ℓ} {P : A → Type κ}
    → ((x : A) → IsProp (P x))
    → (xs : List A) → All P xs
    → (x : A) → Mem x xs
    → P x
mem-All prop [] h x m = absurd (not-mem-nil m)
mem-All prop (y ∷ xs) h x m =
    Or.elim (prop x) (mem-cons.0 m) (λ e. rw e h.0) (mem-All prop xs h.1 x)

pub mem_of_take {ℓ} : {A : Type ℓ} (n : ℕ) (xs : List A) {x : A} → Mem x (take n xs) → Mem x xs
mem_of_take n xs {x} m = subst (Mem x) (take-append-drop n xs) (mem-append_left _ m)

pub mem_of_drop {ℓ} : {A : Type ℓ} (n : ℕ) (xs : List A) {x : A} → Mem x (drop n xs) → Mem x xs
mem_of_drop n xs {x} m = subst (Mem x) (take-append-drop n xs) (mem-append_right (take n xs) m)

length-permᴰ {ℓ} : {A : Type ℓ} {xs ys : List A} → Permᴰ xs ys → length xs ≡ length ys
length-permᴰ Permᴰ.nil = refl
length-permᴰ (Permᴰ.cons e p) = omega (arith, length-permᴰ p)
length-permᴰ (Permᴰ.swap e f) = refl
length-permᴰ (Permᴰ.trans p q) = length-permᴰ p ∙ length-permᴰ q

pub length-perm {ℓ} : {A : Type ℓ} {xs ys : List A} → Perm xs ys → length xs ≡ length ys
length-perm {xs} {ys} p = ∥∥₁_elim p (ℕ_set _ _) length-permᴰ

module _ {κ} {K : Type κ} (o : TotalOrder K) where
  -- A sorted list of keys is the only one of its rearrangements.
  keys_unique :
      (ks ls : List K) → IsSorted o (λ k. k) ks → IsSorted o (λ k. k) ls → Perm ks ls → ks ≡ ls
  keys_unique [] ls sk sl p = Perm.nil-eq p
  keys_unique (k ∷ ks) [] sk sl p = Perm.eq-nil p
  keys_unique (k ∷ ks) (l ∷ ls) sk sl p =
      let k_first = IsFirst-head o (λ a. a) (o.le_refl k) sk in
      let l_first = IsFirst-head o (λ a. a) (o.le_refl l) sl in
      let same =
        o.le_antisymm k l (k_first l ((Perm.mem_iff p).1 mem-cons_self))
          (l_first k ((Perm.mem_iff p).0 mem-cons_self)) in
      let rest = Perm.cons_inv (Perm.trans p (Perm.cons' (sym same) Perm.rfl)) in
      ap₂ ◌∷◌ same (keys_unique ks ls (Pairwise-cons.0 sk).1 (Pairwise-cons.0 sl).1 rest)

  -- Two sorted lists that hold the same elements have the same keys in the same places.
  pub sorted_unique {ℓ} :
      {A : Type ℓ} (key : A → K) {xs ys : List A}
      → IsSorted o key xs
      → IsSorted o key ys
      → Perm xs ys
      → map key xs ≡ map key ys
  sorted_unique key sx sy p =
      let le_prop = λ (a b : K). Bool-set (o.le a b) true in
      keys_unique _ _ ((Pairwise-map le_prop key).1 sx) ((Pairwise-map le_prop key).1 sy)
        (Perm.map key p)
