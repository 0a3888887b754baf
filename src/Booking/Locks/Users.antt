-- ===== src/Booking/Locks/Users.antt =====
-- How the number of a record's clients follows a change of one client's id.
use sp.Base.{
  ℕ, zero, suc, ◌+◌, ◌≤◌, ◌<◌, ◌≡◌, refl, sym, ap, ◌∙◌, inl, inr, ◌==◌, arith, if◌then◌else◌,
  eq_cases, not_eq,
}
use sp.Booking.Server.{put}
use sp.Booking.Locks.{users}

-- Whether an id is that of record `k`.
abbrev pub has : ℕ → ℕ → ℕ
has k x = if x == k + 902001 then 1 else 0

users-suc : (n k : ℕ) (ids : ℕ → ℕ) → users (suc n) k ids ≡ users n k ids + has k (ids n)
unfolding users
users-suc n k ids = ground arith

pub users_same :
    (n k : ℕ) (ids others : ℕ → ℕ) → ((j : ℕ) → others j ≡ ids j) → users n k others ≡ users n k ids
unfolding users
users_same zero k ids others h = refl
users_same (suc n) k ids others h = rw (h n, users_same n k ids others h)

-- Nobody has an id yet.
pub users_none : (n k : ℕ) (ids : ℕ → ℕ) → ((j : ℕ) → ids j ≡ 0) → users n k ids ≡ 0
unfolding users
users_none zero k ids h = refl
users_none (suc n) k ids h = ground (arith, h n, users_none n k ids h)

users-put_out : (n k i x : ℕ) (ids : ℕ → ℕ) → n ≤ i → users n k (put i x ids) ≡ users n k ids
unfolding users
users-put_out zero k i x ids h = refl
users-put_out (suc n) k i x ids h =
    rw (not_eq n i (omega arith), users-put_out n k i x ids (omega arith))

pub put_self : {A : Type 0} (i j : ℕ) (x : A) (f : ℕ → A) → j ≡ i → put i x f j ≡ x
put_self i j x f h = ground arith

pub put_other : {A : Type 0} (i j : ℕ) (x : A) (f : ℕ → A) → ¬ (j ≡ i) → put i x f j ≡ f j
put_other i j x f h = rw (not_eq j i h)

has-put_self : (k n i x : ℕ) (ids : ℕ → ℕ) → n ≡ i → has k (put i x ids n) ≡ has k x
has-put_self k n i x ids h = ap (has k) (put_self i n x ids h)

has-put_other : (k n i x : ℕ) (ids : ℕ → ℕ) → ¬ (n ≡ i) → has k (put i x ids n) ≡ has k (ids n)
has-put_other k n i x ids h = ap (has k) (put_other i n x ids h)

-- One client changes from an old id to a new one.
pub users-put :
    (n k i x : ℕ) (ids : ℕ → ℕ)
    → i < n
    → users n k (put i x ids) + has k (ids i) ≡ users n k ids + has k x
users-put zero k i x ids h = absurd (omega arith)
users-put (suc n) k i x ids h =
    let after = users-suc n k (put i x ids) in
    let before = users-suc n k ids in
    elim (eq_cases n i) [
      | inl same ↦
          let new = has-put_self k n i x ids same in
          let old = ap (λ m. has k (ids m)) same in
          let rest = users-put_out n k i x ids (omega arith) in
          omega (arith, after, before, new, old, rest)
      | inr other ↦
          let kept = has-put_other k n i x ids other in
          let rest = users-put n k i x ids (omega arith) in omega (arith, after, before, kept, rest)
    ]

pub has_own : (k x : ℕ) → x ≡ k + 902001 → has k x ≡ 1
has_own k x h = ground arith

pub has_zero : (k : ℕ) → has k 0 ≡ 0
has_zero k = ground arith

pub has_other : (k l x : ℕ) → x ≡ l + 902001 → ¬ (k ≡ l) → has k x ≡ 0
has_other k l x e h = ground arith

pub users_pos : (n k i : ℕ) (ids : ℕ → ℕ) → i < n → ids i ≡ k + 902001 → 0 < users n k ids
users_pos n k i ids h e = omega (arith, users-put n k i 0 ids h, has_own k (ids i) e, has_zero k)

-- Two clients are counted as two.
pub users_one :
    (n k i j : ℕ) (ids : ℕ → ℕ)
    → i < n
    → j < n
    → ids i ≡ k + 902001
    → ids j ≡ k + 902001
    → users n k ids ≤ 1
    → i ≡ j
users_one n k i j ids hi hj ei ej few = elim (eq_cases j i) [
  | inl same ↦ sym same
  | inr other ↦
      let left = users-put n k i 0 ids hi in
      let still = users_pos n k j (put i 0 ids) hj (put_other i j 0 ids other ∙ ej) in
      absurd (omega (arith, left, still, has_own k (ids i) ei, has_zero k))
]
