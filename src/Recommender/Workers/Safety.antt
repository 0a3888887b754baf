-- ===== src/Recommender/Workers/Safety.antt =====
-- What the mutex of `Group` is for: each request is answered once, and none is left out.
use native.Mathlib.Decide.{dec_lt}
use sp.Base.{ℕ, ◌<◌, ◌≡◌, refl, ◌≢◌, true, false, ◌⊎◌, inl, inr, arith, Bool-cases}
use sp.Recommender.Workers.{
  Pc, entering, popping, reading, exited, unlocking, testing, serving, System, Step, lock, pop,
  read_front, unlock, enter_loop, leave_loop, serve, Reach, mover,
}
use sp.Recommender.Workers.Invariant.{holds, contains, NoRepeat, Reach-Inv}

-- No two workers are between `pthread_mutex_lock` and `pthread_mutex_unlock` together.
pub mutual_exclusion :
    {num : ℕ} {s : System}
    → Reach num s
    → (i j : ℕ) → holds (s.pc i) ≡ true
    → holds (s.pc j) ≡ true
    → i ≡ j
mutual_exclusion r = (Reach-Inv r).exclusive

-- `Recommend` is never called twice for a request, nor for two workers at once, nor for a number
-- that is no request.
pub served_once :
    {num : ℕ} {s : System}
    → Reach num s
    → NoRepeat s.served
      × ((c : ℕ) → contains s.served c ≡ true → c < num)
      × ((i c : ℕ) → s.pc i ≡ serving c → (c < num) × (contains s.served c ≡ false))
      × ((i j c : ℕ) → s.pc i ≡ serving c → s.pc j ≡ serving c → i ≡ j)
served_once r = (
  (Reach-Inv r).no_repeat,
  (λ c h. ((Reach-Inv r).known c h).0),
  (λ i c e. ((Reach-Inv r).within i c e, (Reach-Inv r).pending i c (rw e))),
  λ i j c e f. (Reach-Inv r).distinct i j c (rw e) (rw f),
)

-- When all of the workers have left `Group`, and there was one, every request has been answered.
pub served_all :
    {num : ℕ} {s : System}
    → Reach num s
    → ((i : ℕ) → s.pc i ≡ exited ⊎ s.pc i ≡ entering)
    → (k : ℕ) → s.pc k ≡ exited
    → (c : ℕ) → c < num
    → contains s.served c ≡ true
served_all {s} r quiet k e c h =
    elim ((Reach-Inv r).covered c (omega (arith, (Reach-Inv r).drained k e)) h) [
      | inl p ↦ p
      | inr (i, p) ↦ absurd (ground (arith, quiet i))
    ]

-- A worker inside the mutex, and one outside that has not left, can move.
pub moves_inside :
    {num : ℕ} (s : System) (i : ℕ) (p : Pc)
    → s.pc i ≡ p
    → holds p ≡ true
    → (t : System) × (m : Step num s t) × (mover m ≡ i)
moves_inside s i popping e h = (_, pop i e, refl)
moves_inside s i reading e h = (_, read_front i e, refl)
moves_inside s i (unlocking cur) e h = (_, unlock i cur e, refl)
moves_inside s i entering e h = cc
moves_inside s i exited e h = cc
moves_inside s i (testing cur) e h = cc
moves_inside s i (serving cur) e h = cc

pub moves_outside :
    {num : ℕ} (s : System) (i : ℕ) (p : Pc)
    → s.pc i ≡ p
    → p ≢ exited
    → s.locked ≡ false
    → (t : System) × (m : Step num s t) × (mover m ≡ i)
moves_outside s i entering e h f = (_, lock i e f, refl)
moves_outside s i popping e h f = (_, pop i e, refl)
moves_outside s i reading e h f = (_, read_front i e, refl)
moves_outside s i (unlocking cur) e h f = (_, unlock i cur e, refl)
moves_outside s i exited e h f = absurd (h refl)
moves_outside {num} s i (testing cur) e h f = elim (dec_lt cur num) [
  | yes more ↦ (_, enter_loop i cur e more, refl)
  | no done ↦ (_, leave_loop i cur e done, refl)
]
moves_outside s i (serving cur) e h f = (_, serve i cur e, refl)

-- The workers never wait for one another for ever: while one has not left, some worker can move.
pub no_deadlock :
    {num : ℕ} {s : System} → Reach num s → (i : ℕ) → s.pc i ≢ exited → (t : System) × Step num s t
no_deadlock {s} r i h = elim (Bool-cases s.locked) [
  | inl busy ↦
      let (k, inside) = (Reach-Inv r).held busy in
      let (t, m, _) = moves_inside s k (s.pc k) refl inside in (t, m)
  | inr free ↦ let (t, m, _) = moves_outside s i (s.pc i) refl h free in (t, m)
]
