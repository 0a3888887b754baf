-- ===== src/Booking/Locks/Change.antt =====
-- What a client that joins a record, leaves it, or does neither means for the locks.
use sp.Base.{
  ℕ, ◌+◌, ◌-◌, ◌<◌, ◌≡◌, refl, sym, ap, ◌∙◌, inl, inr, Bool, true, false, ◌==◌, arith,
  if◌then◌else◌, eq_cases, ltb, lt→ltb,
}
use sp.Booking.Server.{Mode, write_server, State, put}
use sp.Booking.Locks.{ids_of, held, Locks}
use sp.Booking.Locks.Users.{
  has, has_own, has_zero, has_other, users-put, users_same, put_self, put_other,
}

-- Nothing has changed that the locks are about.
pub record Same (mode : Mode) (s t : State) : Type 0 where
  pub ids : (j : ℕ) → ids_of t j ≡ ids_of s j
  pub arr : (k : ℕ) → t.server.arr k ≡ s.server.arr k
  pub locks : (k : ℕ) → held mode t.world k ≡ held mode s.world k

pub Locks-Same :
    {n : ℕ} {mode : Mode} {s t : State} → Same mode s t → Locks n mode s → Locks n mode t
Locks-Same {n} {mode} {s} {t} e h = record {
  valid = λ j. rw (e.ids j) (h.valid j);
  counted = λ k. rw (e.arr k, users_same n k (ids_of s) (ids_of t) e.ids) (h.counted k);
  locked = λ k. rw (e.locks k, e.arr k) (h.locked k);
  single = λ w k. rw (e.arr k) (h.single w k);
}

-- Client `i` takes record `k`.
pub record Joins (mode : Mode) (i k : ℕ) (s t : State) : Type 0 where
  pub small : k < 20
  pub idle : ids_of s i ≡ 0
  pub free : mode ≡ write_server → ¬ (s.server.arr k ≡ 1)
  pub ids : (j : ℕ) → ids_of t j ≡ put i (k + 902001) (ids_of s) j
  pub arr : (j : ℕ) → t.server.arr j ≡ put k (s.server.arr k + 1) s.server.arr j
  pub locks : (j : ℕ) → held mode t.world j ≡ put k true (held mode s.world) j

pub Locks-Joins :
    {n : ℕ} {mode : Mode} {i k : ℕ} {s t : State}
    → i < n
    → Joins mode i k s t
    → Locks n mode s
    → Locks n mode t
Locks-Joins {n} {mode} {i} {k} {s} {t} below e h = record {
  valid = λ j. elim (eq_cases j i) [
    | inl same ↦
        rw (e.ids j ∙ put_self i j (k + 902001) (ids_of s) same)
          (inr (omega arith, omega (arith, e.small)))
    | inr other ↦ rw (e.ids j ∙ put_other i j (k + 902001) (ids_of s) other) (h.valid j)
  ];
  counted = λ j.
      let now = users_same n j (put i (k + 902001) (ids_of s)) (ids_of t) e.ids in
      let change = users-put n j i (k + 902001) (ids_of s) below in
      let idle = ap (has j) e.idle ∙ has_zero j in
      elim (eq_cases j k) [
        | inl same ↦
            let one = has_own j (k + 902001) (ap (λ m. m + 902001) (sym same)) in
            let cell = e.arr j ∙ put_self k j (s.server.arr k + 1) s.server.arr same in
            let was = ap s.server.arr same in
            omega (arith, now, change, idle, one, cell, was, h.counted j)
        | inr other ↦
            let apart = has_other j k (k + 902001) refl other in
            let cell = e.arr j ∙ put_other k j (s.server.arr k + 1) s.server.arr other in
            omega (arith, now, change, idle, apart, cell, h.counted j)
      ];
  locked = λ j. elim (eq_cases j k) [
    | inl same ↦
        let cell = e.arr j ∙ put_self k j (s.server.arr k + 1) s.server.arr same in
        e.locks j
        ∙ put_self k j true (held mode s.world) same
        ∙ sym (lt→ltb 0 (t.server.arr j) (omega (arith, cell)))
    | inr other ↦
        let cell = e.arr j ∙ put_other k j (s.server.arr k + 1) s.server.arr other in
        e.locks j
        ∙ put_other k j true (held mode s.world) other
        ∙ h.locked j
        ∙ ap (ltb 0) (sym cell)
  ];
  single = λ w j. elim (eq_cases j k) [
    | inl same ↦
        let cell = e.arr j ∙ put_self k j (s.server.arr k + 1) s.server.arr same in
        omega (arith, cell, h.single w k, e.free w)
    | inr other ↦
        let cell = e.arr j ∙ put_other k j (s.server.arr k + 1) s.server.arr other in
        omega (arith, cell, h.single w j)
  ];
}

if_same : (b : Bool) {x y : Bool} → x ≡ y → (if b then x else y) ≡ y
if_same true h = h
if_same false h = refl

-- The lock that the last of `users` takes away.
lock_left :
    (count : ℕ) (was off : Bool)
    → was ≡ ltb 0 count
    → off ≡ false
    → (if count - 1 == 0 then off else was) ≡ ltb 0 (count - 1)
lock_left count was off h e = ground arith

-- Client `i` gives record `k` up.
pub record Leaves (mode : Mode) (i k : ℕ) (s t : State) : Type 0 where
  pub known : ids_of s i ≡ k + 902001
  pub ids : (j : ℕ) → ids_of t j ≡ put i 0 (ids_of s) j
  pub arr : (j : ℕ) → t.server.arr j ≡ put k (s.server.arr k - 1) s.server.arr j
  pub locks :
      (j : ℕ)
      → held mode t.world j ≡ (
          if s.server.arr k - 1 == 0
          then put k false (held mode s.world) j
          else held mode s.world j)

pub Locks-Leaves :
    {n : ℕ} {mode : Mode} {i k : ℕ} {s t : State}
    → i < n
    → Leaves mode i k s t
    → Locks n mode s
    → Locks n mode t
Locks-Leaves {n} {mode} {i} {k} {s} {t} below e h = record {
  valid = λ j. elim (eq_cases j i) [
    | inl same ↦ rw (e.ids j ∙ put_self i j 0 (ids_of s) same) (inl refl)
    | inr other ↦ rw (e.ids j ∙ put_other i j 0 (ids_of s) other) (h.valid j)
  ];
  counted = λ j.
      let now = users_same n j (put i 0 (ids_of s)) (ids_of t) e.ids in
      let change = users-put n j i 0 (ids_of s) below in
      let zero_id = has_zero j in
      elim (eq_cases j k) [
        | inl same ↦
            let one = has_own j (ids_of s i) (e.known ∙ ap (λ m. m + 902001) (sym same)) in
            let cell = e.arr j ∙ put_self k j (s.server.arr k - 1) s.server.arr same in
            let was = ap s.server.arr same in
            omega (arith, now, change, zero_id, one, cell, was, h.counted j)
        | inr other ↦
            let apart = has_other j k (ids_of s i) e.known other in
            let cell = e.arr j ∙ put_other k j (s.server.arr k - 1) s.server.arr other in
            omega (arith, now, change, zero_id, apart, cell, h.counted j)
      ];
  locked = λ j. elim (eq_cases j k) [
    | inl same ↦
        let cell = e.arr j ∙ put_self k j (s.server.arr k - 1) s.server.arr same in
        let was = h.locked j ∙ ap (λ m. ltb 0 (s.server.arr m)) same in
        e.locks j
        ∙ lock_left (s.server.arr k) (held mode s.world j) (put k false (held mode s.world) j) was
            (put_self k j false (held mode s.world) same)
        ∙ ap (ltb 0) (sym cell)
    | inr other ↦
        let cell = e.arr j ∙ put_other k j (s.server.arr k - 1) s.server.arr other in
        e.locks j
        ∙ if_same (s.server.arr k - 1 == 0) (put_other k j false (held mode s.world) other)
        ∙ h.locked j
        ∙ ap (ltb 0) (sym cell)
  ];
  single = λ w j. elim (eq_cases j k) [
    | inl same ↦
        let cell = e.arr j ∙ put_self k j (s.server.arr k - 1) s.server.arr same in
        omega (arith, cell, h.single w k)
    | inr other ↦
        let cell = e.arr j ∙ put_other k j (s.server.arr k - 1) s.server.arr other in
        omega (arith, cell, h.single w j)
  ];
}
