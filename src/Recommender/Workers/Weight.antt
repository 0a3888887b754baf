-- ===== src/Recommender/Workers/Weight.antt =====
-- Each move of a worker uses up a part of what is left to do.
use sp.Base.{
  ℕ, zero, suc, ◌+◌, ◌-◌, ◌*◌, ◌<◌, ◌≡◌, ◌≢◌, refl, sym, ap, inl, inr, ltb, if◌then◌else◌, arith,
  eq_cases, not_eq,
}
use sp.Recommender.Workers.{
  Pc, entering, popping, reading, exited, unlocking, testing, serving, System, Step, lock, pop,
  read_front, unlock, enter_loop, leave_loop, serve, mover,
}
use sp.Recommender.Workers.Invariant.{holds, Inv}

-- The moves that a worker can make until it draws a number again, or leaves.
unfoldable pub weight : (num popped : ℕ) → Pc → ℕ
weight num popped entering = 5
weight num popped popping = 4
weight num popped reading = if ltb (popped - 1) num then 9 else 3
weight num popped (unlocking cur) = if ltb cur num then 8 else 2
weight num popped (testing cur) = if ltb cur num then 7 else 1
weight num popped (serving cur) = 6
weight num popped exited = 0

unfoldable pub total : ℕ → (ℕ → ℕ) → ℕ
total zero f = 0
total (suc w) f = total w f + f w

total_same : (w : ℕ) (f g : ℕ → ℕ) → ((j : ℕ) → j < w → g j ≡ f j) → total w g ≡ total w f
unfolding total
total_same zero f g h = refl
total_same (suc w) f g h =
    omega (arith, total_same w f g (λ j k. h j (omega arith)), h w (omega arith))

total-change :
    (w i : ℕ) (f g : ℕ → ℕ)
    → i < w
    → ((j : ℕ) → j ≢ i → g j ≡ f j)
    → total w g + f i ≡ total w f + g i
unfolding total
total-change zero i f g k h = absurd (omega (arith, k))
total-change (suc w) i f g k h = elim (eq_cases i w) [
  | inl e ↦
      let rest = total_same w f g (λ j l. h j (omega (arith, e, l))) in
      let fi : f i ≡ f w = ap f e in let gi : g i ≡ g w = ap g e in omega (arith, rest, fi, gi)
  | inr e ↦
      let front = total-change w i f g (omega (arith, e, k)) h in
      omega (arith, front, h w (λ q. e (sym q)))
]

-- What is left to do, where each request that is not drawn takes a worker once around.
unfoldable pub potential : (num w : ℕ) → System → ℕ
potential num w s = total w (λ i. weight num s.popped (s.pc i)) + 6 * (num - s.popped)

-- Every worker at its start.
pub total_start : (v : ℕ) → total v (λ i. 5) ≡ 5 * v
unfolding total
total_start zero = omega arith
total_start (suc v) = omega (arith, total_start v)

-- Only to a reader of `front` it matters how far that is.
weight_later :
    (num popped : ℕ) (p : Pc) → p ≢ reading → weight num (popped + 1) p ≡ weight num popped p
unfolding weight
weight_later num popped entering h = refl
weight_later num popped popping h = refl
weight_later num popped reading h = absurd (h refl)
weight_later num popped (unlocking cur) h = refl
weight_later num popped (testing cur) h = refl
weight_later num popped (serving cur) h = refl
weight_later num popped exited h = refl

module _ {num : ℕ} {s : System} (inv : Inv num s) where
  pub pc-Step : {t : System} (m : Step num s t) (j : ℕ) → j ≢ mover m → t.pc j ≡ s.pc j
  pc-Step (lock i e f) j h = ground arith
  pc-Step (pop i e) j h = ground arith
  pc-Step (read_front i e) j h = ground arith
  pc-Step (unlock i cur e) j h = ground arith
  pc-Step (enter_loop i cur e k) j h = ground arith
  pc-Step (leave_loop i cur e k) j h = ground arith
  pc-Step (serve i cur e) j h = ground arith

  others-Step :
      {t : System} (m : Step num s t) (j : ℕ)
      → j ≢ mover m
      → weight num t.popped (t.pc j) ≡ weight num s.popped (s.pc j)
  unfolding weight
  others-Step (lock i e f) j h = ground arith
  others-Step (pop i e) j h =
      rw (not_eq j i h)
        (weight_later num s.popped (s.pc j) (λ r. h (inv.exclusive j i (ap holds r) (ap holds e))))
  others-Step (read_front i e) j h = ground arith
  others-Step (unlock i cur e) j h = ground arith
  others-Step (enter_loop i cur e k) j h = ground arith
  others-Step (leave_loop i cur e k) j h = ground arith
  others-Step (serve i cur e) j h = ground arith

  mover-Step :
      {t : System} (m : Step num s t)
      → weight num t.popped (t.pc (mover m)) + 6 * (num - t.popped)
        < weight num s.popped (s.pc (mover m)) + 6 * (num - s.popped)
  unfolding weight
  mover-Step (lock i e f) = ground (arith, e)
  mover-Step (pop i e) = ground (arith, e)
  mover-Step (read_front i e) = ground (arith, e)
  mover-Step (unlock i cur e) = ground (arith, e)
  mover-Step (enter_loop i cur e k) = ground (arith, e)
  mover-Step (leave_loop i cur e k) = ground (arith, e)
  mover-Step (serve i cur e) = ground (arith, e)

  pub potential-Step :
      {w : ℕ} {t : System} (m : Step num s t) → mover m < w → potential num w t < potential num w s
  unfolding potential
  potential-Step {w} {t} m h =
      let others =
        total-change w (mover m) (λ i. weight num s.popped (s.pc i))
          (λ i. weight num t.popped (t.pc i)) h (others-Step m) in
      omega (arith, others, mover-Step m)
