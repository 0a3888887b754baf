-- ===== src/Recommender/Workers/Ends.antt =====
-- The workers come to an end, and none waits for ever.
use native.Mathlib.Decide.{dec_lt}
use sp.Base.{
  ◌⊎◌, ℕ, zero, suc, ◌+◌, ◌*◌, ◌<◌, ◌≤◌, ◌≡◌, ◌≢◌, refl, ap, ◌∙◌, true, inl, inr, arith, Bool-cases,
  eq_cases,
}
use sp.Recommender.Workers.{
  Pc, entering, popping, reading, exited, unlocking, testing, serving, System, start, Step, Reach,
  here, next, mover, Run, ready, after,
}
use sp.Recommender.Workers.Invariant.{holds, Reach-Inv}
use sp.Recommender.Workers.Weight.{weight, total_start, potential, pc-Step, potential-Step}
use sp.Recommender.Workers.Safety.{moves_inside, moves_outside}

exited_cases : (p : Pc) → (p ≡ exited) ⊎ (p ≢ exited)
exited_cases exited = inl refl
exited_cases entering = inr (λ e. cc)
exited_cases popping = inr (λ e. cc)
exited_cases reading = inr (λ e. cc)
exited_cases (unlocking cur) = inr (λ e. cc)
exited_cases (testing cur) = inr (λ e. cc)
exited_cases (serving cur) = inr (λ e. cc)

-- Some worker of the first `v` has not left, or all have.
live_cases :
    (s : System) (v : ℕ)
    → ((i : ℕ) × (i < v) × (s.pc i ≢ exited)) ⊎ ((i : ℕ) → i < v → s.pc i ≡ exited)
live_cases s zero = inr (λ i h. absurd (omega (arith, h)))
live_cases s (suc v) = elim (exited_cases (s.pc v)) [
  | inr e ↦ inl (v, omega arith, e)
  | inl e ↦ elim (live_cases s v) [
    | inl (i, h, n) ↦ inl (i, omega (arith, h), n)
    | inr all ↦
        inr (λ i h. elim (eq_cases i v) [
          | inl q ↦ ap s.pc q ∙ e
          | inr n ↦ all i (omega (arith, h, n))
        ])
  ]
]

module _ {num w : ℕ} where
  pub Run-Reach : {k : ℕ} {s : System} → Run num w k s → Reach num s
  Run-Reach ready = here
  Run-Reach (after r m h) = next (Run-Reach r) m

  Run-potential : {k : ℕ} {s : System} → Run num w k s → k + potential num w s ≤ 5 * w + 6 * num
  unfolding potential weight
  Run-potential ready = omega (arith, total_start w)
  Run-potential (after r m h) =
      omega (arith, Run-potential r, potential-Step (Reach-Inv (Run-Reach r)) m h)

  -- A worker that was not created stands at its start.
  pub Run-entering : {k : ℕ} {s : System} → Run num w k s → (i : ℕ) → ¬ (i < w) → s.pc i ≡ entering
  Run-entering ready i h = refl
  Run-entering (after r m k) i h =
      pc-Step (Reach-Inv (Run-Reach r)) m i (λ e. h (rw e k)) ∙ Run-entering r i h

  -- A worker that has the mutex is one of those that were created.
  holds-created : {k : ℕ} {s : System} → Run num w k s → (i : ℕ) → holds (s.pc i) ≡ true → i < w
  holds-created {s = s} r i h = elim (dec_lt i w) [
    | yes created ↦ created
    | no other ↦ let e = ap holds (Run-entering r i other) in cc
  ]

  can_move :
      {k : ℕ} {s : System}
      → Run num w k s
      → (i : ℕ) → i < w
      → s.pc i ≢ exited
      → (t : System) × (m : Step num s t) × (mover m < w)
  can_move {s = s} r i h e = elim (Bool-cases s.locked) [
    | inl busy ↦
        let (k, inside) = (Reach-Inv (Run-Reach r)).held busy in
        let (t, m, same) = moves_inside s k (s.pc k) refl inside in
        (t, m, rw same (holds-created r k inside))
    | inr free ↦ let (t, m, same) = moves_outside s i (s.pc i) refl e free in (t, m, rw same h)
  ]

  -- In a run of the first `w` workers over `num` requests there are at most 5 * w + 6 * num moves,
  -- and while one of these workers has not left `Group`, one of them can move.
  pub workers_end :
      {k : ℕ} {s : System}
      → Run num w k s
      → (k ≤ 5 * w + 6 * num)
        × ((i : ℕ) → i < w → s.pc i ≢ exited → (t : System) × (m : Step num s t) × (mover m < w))
  workers_end {s = s} r = (omega (arith, Run-potential r), can_move r)

  run_out :
      (fuel : ℕ) {k : ℕ} {s : System}
      → Run num w k s
      → potential num w s ≤ fuel
      → (j : ℕ) × (t : System) × Run num w j t × ((i : ℕ) → i < w → t.pc i ≡ exited)
  run_out zero {s = s} r h = elim (live_cases s w) [
    | inl (i, l, e) ↦
        let (t, m, k) = can_move r i l e in
        absurd (omega (arith, h, potential-Step (Reach-Inv (Run-Reach r)) m k))
    | inr all ↦ (_, s, r, all)
  ]
  run_out (suc fuel) {s = s} r h = elim (live_cases s w) [
    | inl (i, l, e) ↦
        let (t, m, k) = can_move r i l e in
        run_out fuel (after r m k) (omega (arith, h, potential-Step (Reach-Inv (Run-Reach r)) m k))
    | inr all ↦ (_, s, r, all)
  ]

-- There is a run in which all of the workers leave.
pub workers_finish :
    (num w : ℕ) → (j : ℕ) × (t : System) × Run num w j t × ((i : ℕ) → i < w → t.pc i ≡ exited)
workers_finish num w = run_out (potential num w start) ready (omega arith)
