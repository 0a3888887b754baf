-- ===== src/Recommender/Workers/Invariant.antt =====
-- Who holds the mutex, and who has drawn which request.
use native.Mathlib.Decide.{dec_lt, ℕ_discrete}
use sp.Base.{
  ℕ, ◌-◌, ◌<◌, ◌≤◌, ◌≡◌, refl, Bool, true, false, ◌||◌, ◌⊎◌, inl, inr, List, [], ◌∷◌, Option, some,
  none, ◌==◌, arith, Bool-cases,
}
use sp.Recommender.Workers.{
  Pc, popping, reading, exited, unlocking, testing, serving, System, start, Step, lock, pop,
  read_front, unlock, enter_loop, leave_loop, serve, Reach, here, next,
}

abbrev pub holds : Pc → Bool
holds popping = true
holds reading = true
holds (unlocking cur) = true
holds _ = false

-- The request that a worker has drawn: while it reads `front`, that is the one last popped.
abbrev pub claim : ℕ → Pc → Option ℕ
claim popped reading = some (popped - 1)
claim popped (unlocking cur) = some cur
claim popped (testing cur) = some cur
claim popped (serving cur) = some cur
claim popped _ = none

abbrev pub contains : List ℕ → ℕ → Bool
contains [] c = false
contains (x ∷ xs) c = x == c || contains xs c

abbrev pub NoRepeat : List ℕ → Type 0
NoRepeat [] = Unit
NoRepeat (x ∷ xs) = (contains xs x ≡ false) × NoRepeat xs

pub record Inv (num : ℕ) (s : System) : Type 0 where
  pub exclusive : (i j : ℕ) → holds (s.pc i) ≡ true → holds (s.pc j) ≡ true → i ≡ j
  pub guarded : (i : ℕ) → holds (s.pc i) ≡ true → s.locked ≡ true
  pub held : s.locked ≡ true → (i : ℕ) × (holds (s.pc i) ≡ true)
  pub below : (i c : ℕ) → claim s.popped (s.pc i) ≡ some c → c < s.popped
  pub distinct :
      (i j c : ℕ) → claim s.popped (s.pc i) ≡ some c → claim s.popped (s.pc j) ≡ some c → i ≡ j
  pub pending : (i c : ℕ) → claim s.popped (s.pc i) ≡ some c → contains s.served c ≡ false
  pub no_repeat : NoRepeat s.served
  pub known : (c : ℕ) → contains s.served c ≡ true → (c < num) × (c < s.popped)
  pub within : (i c : ℕ) → s.pc i ≡ serving c → c < num
  pub drained : (i : ℕ) → s.pc i ≡ exited → num < s.popped
  pub covered :
      (c : ℕ)
      → c < s.popped
      → c < num
      → (contains s.served c ≡ true) ⊎ ((i : ℕ) × (claim s.popped (s.pc i) ≡ some c))

module _ {num : ℕ} {s : System} (inv : Inv num s) where
  exclusive-Step :
      {t : System}
      → Step num s t
      → (i j : ℕ) → holds (t.pc i) ≡ true
      → holds (t.pc j) ≡ true
      → i ≡ j
  exclusive-Step (lock k e f) i j hi hj =
      ground (arith, inv.exclusive i j, inv.guarded i, inv.guarded j)
  exclusive-Step (pop k e) i j hi hj =
      ground (arith, inv.exclusive i j, inv.exclusive k j, inv.exclusive i k)
  exclusive-Step (read_front k e) i j hi hj =
      ground (arith, inv.exclusive i j, inv.exclusive k j, inv.exclusive i k)
  exclusive-Step (unlock k c e) i j hi hj = ground (arith, inv.exclusive i j)
  exclusive-Step (enter_loop k c e f) i j hi hj = ground (arith, inv.exclusive i j)
  exclusive-Step (leave_loop k c e f) i j hi hj = ground (arith, inv.exclusive i j)
  exclusive-Step (serve k c e) i j hi hj = ground (arith, inv.exclusive i j)

  guarded-Step : {t : System} → Step num s t → (i : ℕ) → holds (t.pc i) ≡ true → t.locked ≡ true
  guarded-Step (lock k e f) i h = refl
  guarded-Step (pop k e) i h = ground (arith, inv.guarded i, inv.guarded k)
  guarded-Step (read_front k e) i h = ground (arith, inv.guarded i, inv.guarded k)
  guarded-Step (unlock k c e) i h = ground (arith, inv.exclusive i k)
  guarded-Step (enter_loop k c e f) i h = ground (arith, inv.guarded i)
  guarded-Step (leave_loop k c e f) i h = ground (arith, inv.guarded i)
  guarded-Step (serve k c e) i h = ground (arith, inv.guarded i)

  held-Step : {t : System} → Step num s t → t.locked ≡ true → (i : ℕ) × (holds (t.pc i) ≡ true)
  held-Step (lock k e f) h = (k, ground arith)
  held-Step (pop k e) h = (k, ground arith)
  held-Step (read_front k e) h = (k, ground arith)
  held-Step (unlock k x e) h = absurd (ground arith)
  held-Step (enter_loop k x e f) h = let (i, p) = inv.held h in (i, ground arith)
  held-Step (leave_loop k x e f) h = let (i, p) = inv.held h in (i, ground arith)
  held-Step (serve k x e) h = let (i, p) = inv.held h in (i, ground arith)

  below-Step :
      {t : System} → Step num s t → (i c : ℕ) → claim t.popped (t.pc i) ≡ some c → c < t.popped
  below-Step (lock k e f) i c h = ground (arith, inv.below i c)
  below-Step (pop k e) i c h = ground (arith, inv.below i c, inv.exclusive i k)
  below-Step (read_front k e) i c h = ground (arith, inv.below i c)
  below-Step (unlock k x e) i c h = ground (arith, inv.below i c)
  below-Step (enter_loop k x e f) i c h = ground (arith, inv.below i c)
  below-Step (leave_loop k x e f) i c h = ground (arith, inv.below i c)
  below-Step (serve k x e) i c h = ground (arith, inv.below i c)

  distinct-Step :
      {t : System}
      → Step num s t
      → (i j c : ℕ) → claim t.popped (t.pc i) ≡ some c
      → claim t.popped (t.pc j) ≡ some c
      → i ≡ j
  distinct-Step (lock k e f) i j c hi hj = ground (arith, inv.distinct i j c)
  distinct-Step (pop k e) i j c hi hj = ground (
    arith,
    inv.distinct i j c,
    inv.below i c,
    inv.below j c,
    inv.exclusive i k,
    inv.exclusive j k,
  )
  distinct-Step (read_front k e) i j c hi hj =
      ground (arith, inv.distinct i j c, inv.distinct k j c, inv.distinct i k c)
  distinct-Step (unlock k x e) i j c hi hj =
      ground (arith, inv.distinct i j c, inv.distinct k j c, inv.distinct i k c)
  distinct-Step (enter_loop k x e f) i j c hi hj =
      ground (arith, inv.distinct i j c, inv.distinct k j c, inv.distinct i k c)
  distinct-Step (leave_loop k x e f) i j c hi hj = ground (arith, inv.distinct i j c)
  distinct-Step (serve k x e) i j c hi hj = ground (arith, inv.distinct i j c)

  -- A number that is not below `popped` is not in `served`.
  not_served : (c : ℕ) → s.popped ≤ c → contains s.served c ≡ false
  not_served c h = elim (Bool-cases (contains s.served c)) [
    | inl p ↦ absurd (omega (arith, (inv.known c p).1))
    | inr n ↦ n
  ]

  pending-Step :
      {t : System}
      → Step num s t
      → (i c : ℕ) → claim t.popped (t.pc i) ≡ some c
      → contains t.served c ≡ false
  pending-Step (lock k e f) i c h = ground (arith, inv.pending i c)
  pending-Step (pop k e) i c h = ground (arith, inv.pending i c, inv.exclusive i k, not_served c)
  pending-Step (read_front k e) i c h = ground (arith, inv.pending i c)
  pending-Step (unlock k x e) i c h = ground (arith, inv.pending i c)
  pending-Step (enter_loop k x e f) i c h = ground (arith, inv.pending i c)
  pending-Step (leave_loop k x e f) i c h = ground (arith, inv.pending i c)
  pending-Step (serve k x e) i c h = ground (arith, inv.pending i c, inv.distinct i k c)

  NoRepeat-Step : {t : System} → Step num s t → NoRepeat t.served
  NoRepeat-Step (lock k e f) = inv.no_repeat
  NoRepeat-Step (pop k e) = inv.no_repeat
  NoRepeat-Step (read_front k e) = inv.no_repeat
  NoRepeat-Step (unlock k x e) = inv.no_repeat
  NoRepeat-Step (enter_loop k x e f) = inv.no_repeat
  NoRepeat-Step (leave_loop k x e f) = inv.no_repeat
  NoRepeat-Step (serve k x e) = (ground (arith, inv.pending k x), inv.no_repeat)

  known-Step :
      {t : System}
      → Step num s t
      → (c : ℕ) → contains t.served c ≡ true
      → (c < num) × (c < t.popped)
  known-Step (lock k e f) c h = inv.known c h
  known-Step (pop k e) c h = (omega (arith, inv.known c h), omega (arith, inv.known c h))
  known-Step (read_front k e) c h = inv.known c h
  known-Step (unlock k x e) c h = inv.known c h
  known-Step (enter_loop k x e f) c h = inv.known c h
  known-Step (leave_loop k x e f) c h = inv.known c h
  known-Step (serve k x e) c h = ground (arith, inv.known c, inv.within k x, inv.below k x)

  within-Step : {t : System} → Step num s t → (i c : ℕ) → t.pc i ≡ serving c → c < num
  within-Step (lock k e f) i c h = ground (arith, inv.within i c)
  within-Step (pop k e) i c h = ground (arith, inv.within i c)
  within-Step (read_front k e) i c h = ground (arith, inv.within i c)
  within-Step (unlock k x e) i c h = ground (arith, inv.within i c)
  within-Step (enter_loop k x e f) i c h = ground (arith, inv.within i c)
  within-Step (leave_loop k x e f) i c h = ground (arith, inv.within i c)
  within-Step (serve k x e) i c h = ground (arith, inv.within i c)

  drained-Step : {t : System} → Step num s t → (i : ℕ) → t.pc i ≡ exited → num < t.popped
  drained-Step (lock k e f) i h = ground (arith, inv.drained i)
  drained-Step (pop k e) i h = ground (arith, inv.drained i)
  drained-Step (read_front k e) i h = ground (arith, inv.drained i)
  drained-Step (unlock k x e) i h = ground (arith, inv.drained i)
  drained-Step (enter_loop k x e f) i h = ground (arith, inv.drained i)
  drained-Step (leave_loop k x e f) i h = ground (arith, inv.drained i, inv.below k x)
  drained-Step (serve k x e) i h = ground (arith, inv.drained i)

  abbrev Covered : System → ℕ → Type 0
  Covered t c = (contains t.served c ≡ true) ⊎ ((i : ℕ) × (claim t.popped (t.pc i) ≡ some c))

  -- A worker that keeps its claim keeps the cover; worker `k`, that moves, has its own.
  Covered-Step : {t : System} → Step num s t → (c : ℕ) → c < t.popped → c < num → Covered t c
  Covered-Step (lock k e f) c h l = elim (inv.covered c h l) [
    | inl p ↦ inl p
    | inr (i, p) ↦ inr (i, ground arith)
  ]
  Covered-Step (pop k e) c h l = elim (dec_lt c s.popped) [
    | yes old ↦ elim (inv.covered c old l) [
      | inl p ↦ inl p
      | inr (i, p) ↦ inr (i, ground (arith, inv.exclusive i k))
    ]
    | no new ↦ inr (k, ground arith)
  ]
  Covered-Step (read_front k e) c h l = elim (inv.covered c h l) [
    | inl p ↦ inl p
    | inr (i, p) ↦ inr (i, ground arith)
  ]
  Covered-Step (unlock k x e) c h l = elim (inv.covered c h l) [
    | inl p ↦ inl p
    | inr (i, p) ↦ inr (i, ground arith)
  ]
  Covered-Step (enter_loop k x e f) c h l = elim (inv.covered c h l) [
    | inl p ↦ inl p
    | inr (i, p) ↦ inr (i, ground arith)
  ]
  Covered-Step (leave_loop k x e f) c h l = elim (inv.covered c h l) [
    | inl p ↦ inl p
    | inr (i, p) ↦ inr (i, ground arith)
  ]
  Covered-Step (serve k x e) c h l = elim (inv.covered c h l) [
    | inl p ↦ inl (ground arith)
    | inr (i, p) ↦ elim (ℕ_discrete i k) [
      | yes same ↦ inl (ground arith)
      | no other ↦ inr (i, ground arith)
    ]
  ]

  -- Every move of every worker keeps the invariant.
  pub Step-Inv : {t : System} → Step num s t → Inv num t
  Step-Inv st = record {
    exclusive = exclusive-Step st;
    guarded = guarded-Step st;
    held = held-Step st;
    below = below-Step st;
    distinct = distinct-Step st;
    pending = pending-Step st;
    no_repeat = NoRepeat-Step st;
    known = known-Step st;
    within = within-Step st;
    drained = drained-Step st;
    covered = Covered-Step st;
  }

start-Inv : (num : ℕ) → Inv num start
start-Inv num = record {
  exclusive = λ i j p. cc;
  guarded = λ i p. cc;
  held = λ p. cc;
  below = λ i c p. cc;
  distinct = λ i j c p. cc;
  pending = λ i c p. refl;
  no_repeat = tt;
  known = λ c p. cc;
  within = λ i c p. cc;
  drained = λ i p. cc;
  covered = λ c h. absurd (omega arith);
}

pub Reach-Inv : {num : ℕ} {s : System} → Reach num s → Inv num s
Reach-Inv {num} here = start-Inv num
Reach-Inv (next r st) = Step-Inv (Reach-Inv r) st
