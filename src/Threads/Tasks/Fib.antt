-- ===== src/Threads/Tasks/Fib.antt =====
-- What `fibonacci` prints, and where its numbers leave the range of `int`.
use sp.Base.{
  ℕ, zero, suc, ◌+◌, ◌-◌, ◌<◌, ◌≤◌, ◌≡◌, refl, ap, sym, ◌∙◌, subst, ◌==◌, if◌then◌else◌, List, [],
  ◌∷◌, some, none, arith, ok, err, overflow, ◌>>=◌, ==_iff, not_eq, ◌⊎◌,
}
use sp.Base.Int.{int_max}
use sp.Threads.Tasks.{FibVars, fib_round, fib_loop, fibonacci, add_line}

-- The Fibonacci number and the one after it.
abbrev pub fib_pair : ℕ → ℕ × ℕ
fib_pair zero = (0, 1)
fib_pair (suc n) = let p = fib_pair n in (p.1, p.0 + p.1)

abbrev pub fib : ℕ → ℕ
fib n = (fib_pair n).0

-- `left` of them from `i` on.
abbrev pub fibs : (left i : ℕ) → List ℕ
fibs zero i = []
fibs (suc left) i = fib i ∷ fibs left (suc i)

fib_pair_mono : (n : ℕ) → fib n ≤ fib (suc n)
fib_pair_mono zero = omega arith
fib_pair_mono (suc n) = omega arith

fib_refl : (n : ℕ) → fib n ≤ fib n
fib_refl n = omega arith

le_both : (a b c : ℕ) → a ≤ b → b ≤ c → a ≤ c
le_both a b c h k = omega arith

fib_cast : (n a b : ℕ) → a ≡ b → fib n ≤ fib a → fib n ≤ fib b
fib_cast n a b e h = subst (λ k. fib n ≤ fib k) e h

fib_mono : (m n : ℕ) → fib n ≤ fib (m + n)
fib_mono zero n = fib_cast n n (0 + n) (omega arith) (fib_refl n)
fib_mono (suc m) n =
    fib_cast n (suc (m + n)) (suc m + n) (omega arith)
      (le_both (fib n) (fib (m + n)) (fib (suc (m + n))) (fib_mono m n) (fib_pair_mono (m + n)))

fib_46 : fib 46 ≤ int_max
fib_46 = omega arith

fib_47 : int_max < fib 47
fib_47 = omega arith

fib-is_int : (n : ℕ) → n ≤ 46 → fib n ≤ int_max
fib-is_int n h =
    le_both (fib n) (fib 46) int_max
      (fib_cast n ((46 - n) + n) 46 (omega (arith, h)) (fib_mono (46 - n) n)) fib_46

-- The variables at the start of round `i`, which is `m + 3`.
abbrev pub at_round : (m i : ℕ) → FibVars
at_round m i = record { i = i; x = fib (suc m); y = fib (suc (suc m)) }

fib_round-ok :
    (m i : ℕ)
    → 3 ≤ i
    → fib (suc (suc (suc m))) ≤ int_max
    → fib_round (at_round m i)
      ≡ ok (record { i = i; x = fib (suc (suc m)); y = fib (suc (suc (suc m))) })
unfolding fib_round
fib_round-ok m i h l = ground arith

fib_round_over :
    (m i : ℕ) → 3 ≤ i → int_max < fib (suc (suc (suc m))) → fib_round (at_round m i) ≡ err overflow
unfolding fib_round
fib_round_over m i h l = ground arith

-- The rest of a loop behind a round.
loop_round :
    (rounds arg : ℕ) (v now : FibVars)
    → fib_round v ≡ ok now
    → fib_loop (suc rounds) arg v ≡ (
        (if now.i == arg then ok (some []) else fib_loop rounds arg (record now { i = now.i + 1 }))
        >>= λ rest. ok (add_line now.y rest))
unfolding fib_loop
loop_round rounds arg v now h =
    ap
      (λ r. r >>= λ w.
        (if w.i == arg then ok (some []) else fib_loop rounds arg (record w { i = w.i + 1 }))
        >>= λ rest. ok (add_line w.y rest))
      h

last_round :
    (rounds arg : ℕ) (v now : FibVars)
    → fib_round v ≡ ok now
    → now.i ≡ arg
    → fib_loop (suc rounds) arg v ≡ ok (some (now.y ∷ []))
last_round rounds arg v now h e =
    loop_round rounds arg v now h
    ∙ ap
        (λ b.
          (if b then ok (some []) else fib_loop rounds arg (record now { i = now.i + 1 }))
          >>= λ rest. ok (add_line now.y rest))
        ((==_iff now.i arg).1 e)

next_round :
    (rounds arg : ℕ) (v now : FibVars)
    → fib_round v ≡ ok now
    → ¬ (now.i ≡ arg)
    → fib_loop (suc rounds) arg v
      ≡ (fib_loop rounds arg (record now { i = now.i + 1 }) >>= λ rest. ok (add_line now.y rest))
next_round rounds arg v now h ne =
    loop_round rounds arg v now h
    ∙ ap
        (λ b.
          (if b then ok (some []) else fib_loop rounds arg (record now { i = now.i + 1 }))
          >>= λ rest. ok (add_line now.y rest))
        (not_eq now.i arg ne)

later_rounds :
    (left m i arg : ℕ)
    → i ≡ m + 3
    → i + left ≡ arg
    → arg ≤ 46
    → fib_loop (suc left) arg (at_round m i) ≡ ok (some (fibs (suc left) (suc (suc (suc m)))))
later_rounds zero m i arg e f l =
    last_round 0 arg (at_round m i)
      (record { i = i; x = fib (suc (suc m)); y = fib (suc (suc (suc m))) })
      (fib_round-ok m i (omega (arith, e))
        (fib-is_int (suc (suc (suc m))) (omega (arith, e, f, l))))
      (omega (arith, f))
later_rounds (suc left) m i arg e f l =
    next_round (suc left) arg (at_round m i)
      (record { i = i; x = fib (suc (suc m)); y = fib (suc (suc (suc m))) })
      (fib_round-ok m i (omega (arith, e))
        (fib-is_int (suc (suc (suc m))) (omega (arith, e, f, l))))
      (omega (arith, f))
    ∙ ap (λ r. r >>= λ rest. ok (add_line (fib (suc (suc (suc m)))) rest))
        (later_rounds left (suc m) (i + 1) arg (omega (arith, e)) (omega (arith, f)) l)

last_index : (m : ℕ) → m ≡ 44 → 47 ≡ suc (suc (suc m))
last_index m h = omega arith

overflow_rounds :
    (left m i arg : ℕ)
    → i ≡ m + 3
    → i + left ≡ 47
    → (arg ≡ 0) ⊎ (46 < arg)
    → fib_loop (suc left) arg (at_round m i) ≡ err overflow
unfolding fib_loop
overflow_rounds zero m i arg e f h =
    ap
      (λ r. r >>= λ w.
        (if w.i == arg then ok (some []) else fib_loop 0 arg (record w { i = w.i + 1 })) >>= λ rest.
        ok (add_line w.y rest))
      (fib_round_over m i (omega (arith, e))
        (subst (λ k. int_max < fib k) (last_index m (omega (arith, e, f))) fib_47))
overflow_rounds (suc left) m i arg e f h =
    next_round (suc left) arg (at_round m i)
      (record { i = i; x = fib (suc (suc m)); y = fib (suc (suc (suc m))) })
      (fib_round-ok m i (omega (arith, e)) (fib-is_int (suc (suc (suc m))) (omega (arith, e, f))))
      (omega (arith, f, h))
    ∙ ap (λ r. r >>= λ rest. ok (add_line (fib (suc (suc (suc m)))) rest))
        (overflow_rounds left (suc m) (i + 1) arg (omega (arith, e)) (omega (arith, f)) h)

-- Before round 47 nothing overflows, and without a match in sight the loop goes on.
unended_rounds :
    (left m i arg : ℕ)
    → i ≡ m + 3
    → i + left ≡ 47
    → (arg ≡ 0) ⊎ (46 < arg)
    → fib_loop left arg (at_round m i) ≡ ok none
unfolding fib_loop
unended_rounds zero m i arg e f h = refl
unended_rounds (suc left) m i arg e f h =
    next_round left arg (at_round m i)
      (record { i = i; x = fib (suc (suc m)); y = fib (suc (suc (suc m))) })
      (fib_round-ok m i (omega (arith, e)) (fib-is_int (suc (suc (suc m))) (omega (arith, e, f))))
      (omega (arith, f, h))
    ∙ ap (λ r. r >>= λ rest. ok (add_line (fib (suc (suc (suc m)))) rest))
        (unended_rounds left (suc m) (i + 1) arg (omega (arith, e)) (omega (arith, f)) h)

two_rounds :
    (rounds arg : ℕ)
    → ¬ (arg ≡ 1)
    → ¬ (arg ≡ 2)
    → fibonacci (suc (suc rounds)) arg ≡ (
        (fib_loop rounds arg (at_round 0 3) >>= λ rest. ok (add_line 1 rest)) >>= λ rest.
        ok (add_line 1 rest))
unfolding fibonacci fib_round
two_rounds rounds arg h k =
    next_round (suc rounds) arg (record { i = 1; x = 0; y = 0 }) (record { i = 1; x = 1; y = 1 })
      refl (λ e. h (sym e))
    ∙ ap (λ r. r >>= λ rest. ok (add_line 1 rest))
        (next_round rounds arg (record { i = 2; x = 1; y = 1 }) (record { i = 2; x = 1; y = 1 })
          refl (λ e. k (sym e)))

-- For an argument of 1 to 46, fibonacci exits after as many rounds, without an overflow, and has
-- printed the Fibonacci numbers from the first on.
pub fibonacci_lem : (arg : ℕ) → 1 ≤ arg → arg ≤ 46 → fibonacci arg arg ≡ ok (some (fibs arg 1))
unfolding fibonacci fib_loop fib_round
fibonacci_lem zero h l = absurd (omega (arith, h))
fibonacci_lem (suc zero) h l = refl
fibonacci_lem (suc (suc zero)) h l = refl
fibonacci_lem (suc (suc (suc left))) h l =
    two_rounds (suc left) (suc (suc (suc left))) (omega arith) (omega arith)
    ∙ ap (λ r. (r >>= λ rest. ok (add_line 1 rest)) >>= λ rest. ok (add_line 1 rest))
        (later_rounds left 0 3 (suc (suc (suc left))) (omega arith) (omega arith) l)

-- For an argument of 0, which asks for no number, and for one above 46 fibonacci goes through 46
-- rounds without an overflow and without an exit, and adds beyond INT_MAX in round 47.
pub fibonacci-overflow :
    (arg : ℕ)
    → (arg ≡ 0) ⊎ (46 < arg)
    → (fibonacci 46 arg ≡ ok none) × (fibonacci 47 arg ≡ err overflow)
fibonacci-overflow arg h = (
  two_rounds 44 arg (omega (arith, h)) (omega (arith, h))
      ∙ ap (λ r. (r >>= λ rest. ok (add_line 1 rest)) >>= λ rest. ok (add_line 1 rest))
          (unended_rounds 44 0 3 arg (omega arith) (omega arith) h),
  two_rounds 45 arg (omega (arith, h)) (omega (arith, h))
      ∙ ap (λ r. (r >>= λ rest. ok (add_line 1 rest)) >>= λ rest. ok (add_line 1 rest))
          (overflow_rounds 44 0 3 arg (omega arith) (omega arith) h),
)
