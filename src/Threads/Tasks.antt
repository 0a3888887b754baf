-- ===== src/Threads/Tasks.antt =====
-- threads.c: what the threads compute between two switches. The variables are those of `struct tcb`.
pub mod Collatz
pub mod Fib
pub mod Kadane
use sp.Base.{
  ◌/◌, ◌%◌, ◌*◌, leb, ltb, Option, some, none, guard, overflow, ◌>>◌, ◌+◌, ℕ, zero, suc, ◌==◌,
  if◌then◌else◌, List, [], ◌∷◌, Result, ok, ◌>>=◌,
}
use sp.Base.Int.{int_max, ℤ, pos, ltb_ℤ, add_int}

pub record Vars : Type 0 where
  pub x : ℤ
  pub y : ℤ

-- As `thread_setup` leaves them.
abbrev pub setup : Vars
setup = record { x = pos 0; y = pos 0 }

-- One round of `max_subarray`, where `atoi` returns `num`.
unfoldable pub max_round : ℤ → Vars → Result Vars
max_round num v = do
  sum ← add_int v.y num
  let y = if ltb_ℤ sum num then num else sum
  ok (record { x = if ltb_ℤ y v.x then v.x else y; y = y })

-- The loop of `max_subarray` on the numbers that are there to be read, to what it prints. It stops
-- at the exit of the thread or where it waits for a number.
unfoldable pub max_loop : (i arg : ℕ) → List ℤ → Vars → Result (List ℤ)
unfolding max_round
max_loop i arg [] v = ok []
max_loop i arg (num ∷ nums) v = do
  now ← max_round num v
  rest ← (if i == arg then ok [] else max_loop (suc i) arg nums now)
  ok (now.x ∷ rest)

unfoldable pub max_subarray : (arg : ℕ) → List ℤ → Result (List ℤ)
unfolding max_loop
max_subarray arg nums = max_loop 1 arg nums setup

-- The variables of `fibonacci`, which are never below zero.
pub record FibVars : Type 0 where
  pub i : ℕ
  pub x : ℕ
  pub y : ℕ

abbrev pub add_nat : ℕ → ℕ → Result ℕ
add_nat a b = do guard (leb (a + b) int_max) overflow; ok (a + b)

-- The body of the loop of `fibonacci` up to `printf`.
unfoldable pub fib_round : FibVars → Result FibVars
fib_round v =
    if leb v.i 2
    then ok (record v { x = 1; y = 1 })
    else (do sum ← add_nat v.x v.y; ok (record v { x = v.y; y = sum }))

abbrev pub add_line : ℕ → Option (List ℕ) → Option (List ℕ)
add_line n none = none
add_line n (some out) = some (n ∷ out)

-- The loop of `fibonacci` for at most `rounds` rounds, to what it prints up to the exit of the thread;
-- `none` if it has not come to that.
unfoldable pub fib_loop : (rounds : ℕ) → (arg : ℕ) → FibVars → Result (Option (List ℕ))
unfolding fib_round
fib_loop zero arg v = ok none
fib_loop (suc rounds) arg v = do
  now ← fib_round v
  rest ← (if now.i == arg then ok (some []) else fib_loop rounds arg (record now { i = now.i + 1 }))
  ok (add_line now.y rest)

unfoldable pub fibonacci : (rounds : ℕ) → (arg : ℕ) → Result (Option (List ℕ))
unfolding fib_loop
fibonacci rounds arg = fib_loop rounds arg (record { i = 1; x = 0; y = 0 })

-- The body of the loop of `collatz` up to `printf`; `i` is never below zero.
unfoldable pub collatz_round : ℕ → Result ℕ
collatz_round i =
    if i % 2 == 0 then ok (i / 2) else (do guard (leb (3 * i + 1) int_max) overflow; ok (3 * i + 1))

-- The loop of `collatz`, as that of `fibonacci`.
unfoldable pub collatz : (rounds : ℕ) → (i : ℕ) → Result (Option (List ℕ))
unfolding collatz_round
collatz zero i = ok none
collatz (suc rounds) i = do
  now ← collatz_round i
  rest ← (if now == 1 then ok (some []) else collatz rounds now)
  ok (add_line now rest)
