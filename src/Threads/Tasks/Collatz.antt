-- ===== src/Threads/Tasks/Collatz.antt =====
-- Where `collatz` comes to an end, and where it does not.
use sp.Base.{
  ℕ, zero, suc, ◌*◌, ◌^◌, ◌≤◌, ◌≡◌, refl, ap, ◌∙◌, ◌==◌, if◌then◌else◌, List, [], ◌∷◌, some, none,
  arith, ok, ◌>>=◌, not_eq,
}
use sp.Threads.Tasks.{collatz_round, collatz, add_line}

-- With 0 the thread prints 0 again and again: no number of rounds ends it.
pub collatz-zero : (rounds : ℕ) → collatz rounds 0 ≡ ok none
unfolding collatz collatz_round
collatz-zero zero = refl
collatz-zero (suc rounds) = ap (λ r. r >>= λ rest. ok (add_line 0 rest)) (collatz-zero rounds)

-- The powers of two below the `k`th, down to 1.
abbrev pub powers : ℕ → List ℕ
powers zero = []
powers (suc k) = 2 ^ k ∷ powers k

power_pos : (k : ℕ) → 1 ≤ 2 ^ k
power_pos zero = omega arith
power_pos (suc k) = omega (arith, power_pos k)

collatz_round_half : (n : ℕ) → collatz_round (2 * n) ≡ ok n
unfolding collatz_round
collatz_round_half n = ground arith

double : (k : ℕ) → 2 ^ suc k ≡ 2 * 2 ^ k
double k = omega arith

collatz-half :
    (rounds n : ℕ)
    → ¬ (n ≡ 1)
    → collatz (suc rounds) (2 * n) ≡ (collatz rounds n >>= λ rest. ok (add_line n rest))
unfolding collatz
collatz-half rounds n h =
    ap
      (λ r. r >>= λ now.
        (if now == 1 then ok (some []) else collatz rounds now) >>= λ rest. ok (add_line now rest))
      (collatz_round_half n)
    ∙ ap (λ b. (if b then ok (some []) else collatz rounds n) >>= λ rest. ok (add_line n rest))
        (not_eq n 1 h)

-- For a power of two from 2 on collatz exits after as many rounds as its exponent, and has printed
-- the smaller powers down to 1.
pub collatz-power : (k : ℕ) → collatz (suc k) (2 ^ suc k) ≡ ok (some (powers (suc k)))
unfolding collatz collatz_round
collatz-power zero = refl
collatz-power (suc k) =
    ap (collatz (suc (suc k))) (double (suc k))
    ∙ collatz-half (suc k) (2 ^ suc k) (omega (arith, power_pos k))
    ∙ ap (λ r. r >>= λ rest. ok (add_line (2 ^ suc k) rest)) (collatz-power k)
