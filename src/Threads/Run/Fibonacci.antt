-- ===== src/Threads/Run/Fibonacci.antt =====
-- The numbers of the thread of `fibonacci` among the lines of the whole program.
use mathlib.Core.Logic.{∥∥₁_elim}
use mathlib.Core.HLevel.{hedberg, ×_prop}
use mathlib.Core.List.{is_set}
use native.Mathlib.Decide.{ℕ_discrete}
use native.Mathlib.Bridge.{le_prop}
use sp.Base.{
  ℕ, zero, suc, ◌+◌, ◌≤◌, ◌≡◌, ◌≢◌, refl, sym, ap, ◌∙◌, Bool, true, false, List, [], ◌∷◌, some,
  ◌==◌, length, arith, ok,
}
use sp.Base.Int.{ℤ, pos}
use sp.Threads.Tasks.Fib.{fib}
use sp.Threads.Scheduler.{fibonacci_task, started, yielded, Tcb, Queues}
use sp.Threads.Run.{
  Stop, exits, Turn, turn, turn_of, finish, fibonacci_turn, Machine, start_threading, Runs,
}
use sp.Threads.Run.Alone.{printed, add_number, Alone, begins, turns}
use sp.Threads.Run.Isolation.{IsFresh, isolation}

-- The first Fibonacci numbers, latest first.
abbrev pub last_fibs : ℕ → List ℤ
last_fibs zero = []
last_fibs (suc k) = pos (fib (suc k)) ∷ last_fibs k

-- The thread behind its round `suc j`.
record Behind (first : Tcb) (j : ℕ) (t : Tcb) (s : Stop) : Type 0 where
  pub task : t.task ≡ fibonacci_task
  pub arg : t.arg ≡ first.arg
  pub i : t.i ≡ suc j
  pub y : t.y ≡ pos (fib (suc j))
  pub x : 1 ≤ j → t.x ≡ pos (fib j)
  pub place : s ≢ exits → t.environment ≡ yielded
  pub more : s ≢ exits → suc j ≢ first.arg

abbrev At : Tcb → ℕ → Tcb → Stop → Type 0
At first zero t s = t ≡ first
At first (suc j) t s = Behind first j t s

-- How a round ends.
finish-Behind :
    (first t : Tcb) (j : ℕ)
    → t.task ≡ fibonacci_task
    → t.arg ≡ first.arg
    → t.i ≡ suc j
    → t.y ≡ pos (fib (suc j))
    → (1 ≤ j → t.x ≡ pos (fib j))
    → (last : Bool) → last ≡ (suc j == first.arg)
    → Behind first j
        (finish last (pos (fib (suc j))) t).tcb
        (finish last (pos (fib (suc j))) t).stop
finish-Behind first t j task arg i y x true e = record {
  task = task;
  arg = arg;
  i = i;
  y = y;
  x = x;
  place = λ h. absurd (h refl);
  more = λ h. absurd (h refl);
}
finish-Behind first t j task arg i y x false e = record {
  task = task;
  arg = arg;
  i = i;
  y = y;
  x = x;
  place = λ h. refl;
  more = λ h k. absurd (ground (arith, e, k));
}

first_round :
    (t : Tcb) (r : Turn)
    → t.environment ≡ started
    → fibonacci_turn t ≡ ok r
    → r ≡ finish (1 == t.arg) (pos 1) (record t { i = 1; x = pos 1; y = pos 1 })
unfolding fibonacci_turn
first_round t r e h = ground (arith, e, h)

second_round :
    (t : Tcb) (r : Turn)
    → t.environment ≡ yielded
    → t.i ≡ 1
    → fibonacci_turn t ≡ ok r
    → r ≡ finish (2 == t.arg) (pos 1) (record t { i = 2; x = pos 1; y = pos 1 })
unfolding fibonacci_turn
second_round t r e i h = ground (arith, e, i, h)

later_round :
    (t : Tcb) (r : Turn) (k a b : ℕ)
    → t.environment ≡ yielded
    → t.i ≡ suc (suc k)
    → t.x ≡ pos a
    → t.y ≡ pos b
    → fibonacci_turn t ≡ ok r
    → r
      ≡ finish
          (suc (suc (suc k)) == t.arg)
          (pos (a + b))
          (record t { i = suc (suc (suc k)); x = pos b; y = pos (a + b) })
unfolding fibonacci_turn
later_round t r k a b e i x y h = ground (arith, e, i, x, y, h)

turn-fibonacci : (num : ℤ) (t : Tcb) → t.task ≡ fibonacci_task → turn num t ≡ fibonacci_turn t
unfolding turn
turn-fibonacci num t h = ap (λ task. turn_of task num t) h

-- A round on the way: what the thread keeps, and what it prints.
Round : Tcb → ℕ → Turn → Type 0
Round first k r = Behind first k r.tcb r.stop × (r.line ≡ some (pos (fib (suc k))))

finish-Round :
    (first t : Tcb) (j : ℕ) (last : Bool) (r : Turn)
    → r ≡ finish last (pos (fib (suc j))) t
    → t.task ≡ fibonacci_task
    → t.arg ≡ first.arg
    → t.i ≡ suc j
    → t.y ≡ pos (fib (suc j))
    → (1 ≤ j → t.x ≡ pos (fib j))
    → last ≡ (suc j == first.arg)
    → Round first j r
unfolding Round
finish-Round first t j true r e task arg i y x h =
    rw e (finish-Behind first t j task arg i y x true h, refl)
finish-Round first t j false r e task arg i y x h =
    rw e (finish-Behind first t j task arg i y x false h, refl)

At-turn :
    (first t : Tcb) (k : ℕ) (s : Stop) (num : ℤ) (r : Turn)
    → first.task ≡ fibonacci_task
    → first.environment ≡ started
    → At first k t s
    → s ≢ exits
    → turn num t ≡ ok r
    → Round first k r
At-turn first t zero s num r task place h going e =
    let run = sym (turn-fibonacci num t (ap (λ u. u.task) h ∙ task)) ∙ e in
    let now = first_round t r (ap (λ u. u.environment) h ∙ place) run in
    finish-Round first (record t { i = 1; x = pos 1; y = pos 1 }) 0 (1 == t.arg) r now
      (ap (λ u. u.task) h ∙ task) (ap (λ u. u.arg) h) refl refl (λ l. absurd (omega (arith, l)))
      (ap (λ u. 1 == u.arg) h)
At-turn first t (suc zero) s num r task place h going e =
    let run = sym (turn-fibonacci num t h.task) ∙ e in
    let now = second_round t r (h.place going) h.i run in
    finish-Round first (record t { i = 2; x = pos 1; y = pos 1 }) 1 (2 == t.arg) r now h.task h.arg
      refl refl (λ l. refl) (ap (λ n. 2 == n) h.arg)
At-turn first t (suc (suc j)) s num r task place h going e =
    let run = sym (turn-fibonacci num t h.task) ∙ e in
    let a = fib (suc j) in
    let b = fib (suc (suc j)) in
    let now = later_round t r j a b (h.place going) h.i (h.x (omega arith)) h.y run in
    finish-Round first (record t { i = suc (suc (suc j)); x = pos b; y = pos (a + b) })
      (suc (suc j)) (suc (suc (suc j)) == t.arg) r now h.task h.arg refl refl (λ l. refl)
      (ap (λ n. suc (suc (suc j)) == n) h.arg)

-- How far the thread is, and that it does not pass its argument.
record Progress (first t : Tcb) (ls : List ℤ) (s : Stop) : Type 0 where
  pub passed : ℕ
  pub at : At first passed t s
  pub lines : ls ≡ last_fibs passed
  pub bound : 1 ≤ first.arg → passed ≤ first.arg

below :
    (first t : Tcb) (k : ℕ) (s : Stop)
    → At first k t s
    → s ≢ exits
    → 1 ≤ first.arg
    → k ≤ first.arg
    → suc k ≤ first.arg
below first t zero s h going some_round l = some_round
below first t (suc j) s h going some_round l = omega (arith, h.more going, l)

Alone-Progress :
    (first : Tcb) {t : Tcb} {ls : List ℤ} {s : Stop}
    → first.task ≡ fibonacci_task
    → first.environment ≡ started
    → Alone first t ls s
    → Progress first t ls s
unfolding Round
Alone-Progress first task place begins = record {
  passed = 0;
  at = refl;
  lines = refl;
  bound = λ h. omega arith;
}
Alone-Progress first task place (turns {t} {ls} {s} a going num r e) =
    let before = Alone-Progress first task place a in
    let k = before.passed in
    let now = At-turn first t k s num r task place before.at going e in
    record {
      passed = suc k;
      at = now.0;
      lines = ap (λ l. add_number l ls) now.1 ∙ ap (λ l. pos (fib (suc k)) ∷ l) before.lines;
      bound = λ h. below first t k s before.at going h (before.bound h);
    }

ℤ-discrete : Discrete ℤ
ℤ-discrete = hlevel ℕ_discrete

numbers_set : IsSet (List ℤ)
numbers_set = is_set (hedberg ℤ-discrete)

length-last_fibs : (k : ℕ) → length (last_fibs k) ≡ k
length-last_fibs zero = refl
length-last_fibs (suc k) = ap suc (length-last_fibs k)

-- The first Fibonacci numbers, and no more of them than this.
abbrev pub AreFibs : ℕ → List ℤ → Type 0
AreFibs arg ls = (ls ≡ last_fibs (length ls)) × (length ls ≤ arg)

AreFibs-prop : (arg : ℕ) (ls : List ℤ) → IsProp (AreFibs arg ls)
AreFibs-prop arg ls = ×_prop (numbers_set ls (last_fibs (length ls))) le_prop

Progress-AreFibs :
    (first t : Tcb) (ls : List ℤ) (s : Stop)
    → 1 ≤ first.arg
    → Progress first t ls s
    → AreFibs first.arg ls
Progress-AreFibs first t ls s h p =
    let count = ap length p.lines ∙ length-last_fibs p.passed in
    (p.lines ∙ ap last_fibs (sym count), omega (arith, count, p.bound h))

-- Whatever else runs, and however the threads are switched: what a thread of fibonacci with an
-- argument of 1 or more has printed are the first Fibonacci numbers, and no more than its argument.
pub fibonacci_prints :
    (origin : ℕ → Tcb) (q : Queues) (m : Machine)
    → IsFresh origin q
    → Runs (start_threading q) m
    → (id : ℕ) → (origin id).task ≡ fibonacci_task
    → (origin id).environment ≡ started
    → 1 ≤ (origin id).arg
    → AreFibs (origin id).arg (printed id m.out)
fibonacci_prints origin q m fresh r id task place some_round =
    ∥∥₁_elim (isolation origin q m fresh r id) (AreFibs-prop (origin id).arg (printed id m.out))
      λ (t, s, a).
        Progress-AreFibs (origin id) t (printed id m.out) s some_round
          (Alone-Progress (origin id) task place a)
