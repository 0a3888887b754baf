-- ===== src/Threads/Run/Main.antt =====
-- The program from `main` on, with a thread for fibonacci.
use mathlib.Core.List.{Pairwise, Pairwise-cons}
use sp.Base.{
  ℕ, ◌≤◌, ◌≡◌, refl, sym, ◌∙◌, subst, List, [], ◌∷◌, ◌==◌, if◌then◌else◌, All, arith, Result, ok,
  err, ok-injective,
}
use sp.Base.Sorted.{mem-All}
use sp.Base.Int.{ℤ, pos, negsuc}
use sp.Threads.Scheduler.{fibonacci_task, collatz_task, started, Tcb, Queues}
use sp.Threads.Start.{init_threads, no_threads}
use sp.Threads.Run.{Machine, start_threading, main, Runs}
use sp.Threads.Run.Alone.{printed, Differ}
use sp.Threads.Run.Isolation.{IsFresh}
use sp.Threads.Run.Fibonacci.{AreFibs, fibonacci_prints}

abbrev nobody : Tcb
nobody = record {
  id = 0;
  task = collatz_task;
  environment = started;
  arg = 0;
  fd = 0;
  i = 0;
  x = pos 0;
  y = pos 0;
  fd_index = 0;
}

-- The thread of this id among those that were created.
abbrev pub created : List Tcb → ℕ → Tcb
created [] id = nobody
created (t ∷ ts) id = let rest = created ts id in if t.id == id then t else rest

abbrev Apart : List Tcb → Type 0
Apart [] = Unit
Apart (t ∷ ts) = All (Differ t) ts × Apart ts

distinct : (ts : List Tcb) → Apart ts → Pairwise Differ ts
distinct [] h = Pairwise.nil
distinct (t ∷ ts) h = Pairwise-cons.1 (mem-All (λ u. hlevel) ts h.0, distinct ts h.1)

-- What `main` starts with, where the thread of fibonacci is number 0.
pub record HasFibonacci (arg : ℕ) (q : Queues) : Type 0 where
  pub fresh : IsFresh (created q.ready_queue) q
  pub task : (created q.ready_queue 0).task ≡ fibonacci_task
  pub place : (created q.ready_queue 0).environment ≡ started
  pub arg_is : (created q.ready_queue 0).arg ≡ arg

abbrev pub queues_of : Result Queues → Queues
queues_of (ok q) = q
queues_of (err why) = no_threads

abbrev pub made : ℕ → ℤ → ℤ → (ℕ → ℕ) → (ℕ → ℕ) → Queues
made fib_arg col_arg sub_arg fds memory =
    queues_of (init_threads (pos fib_arg) col_arg sub_arg fds memory no_threads)

pub main-made :
    (a : ℕ) (col_arg sub_arg : ℤ) (fds memory : ℕ → ℕ)
    → main (pos a) col_arg sub_arg fds memory
      ≡ ok (start_threading (made a col_arg sub_arg fds memory))
unfolding main
main-made a (pos b) (pos c) fds memory = refl
main-made a (pos b) (negsuc c) fds memory = refl
main-made a (negsuc b) (pos c) fds memory = refl
main-made a (negsuc b) (negsuc c) fds memory = refl

pub made-HasFibonacci :
    (a : ℕ) (col_arg sub_arg : ℤ) (fds memory : ℕ → ℕ)
    → HasFibonacci a (made a col_arg sub_arg fds memory)
unfolding init_threads
made-HasFibonacci a (pos b) (pos c) fds memory = record {
  fresh = record {
    own = (refl, (refl, (refl, tt)));
    distinct =
        distinct _ ((λ e. omega arith, (λ e. omega arith, tt)), ((λ e. omega arith, tt), (tt, tt)));
  };
  task = refl;
  place = refl;
  arg_is = refl;
}
made-HasFibonacci a (pos b) (negsuc c) fds memory = record {
  fresh = record {
    own = (refl, (refl, tt));
    distinct = distinct _ ((λ e. omega arith, tt), (tt, tt));
  };
  task = refl;
  place = refl;
  arg_is = refl;
}
made-HasFibonacci a (negsuc b) (pos c) fds memory = record {
  fresh = record {
    own = (refl, (refl, tt));
    distinct = distinct _ ((λ e. omega arith, tt), (tt, tt));
  };
  task = refl;
  place = refl;
  arg_is = refl;
}
made-HasFibonacci a (negsuc b) (negsuc c) fds memory = record {
  fresh = record { own = (refl, tt); distinct = distinct _ (tt, tt) };
  task = refl;
  place = refl;
  arg_is = refl;
}

-- Whatever the other threads are, and whatever signals, polls and inputs there are: with an
-- argument of 1 or more for fibonacci, the lines of thread 0 are the first Fibonacci numbers, and
-- no more than the argument.
pub main_fibonacci :
    (fib_arg : ℕ) (col_arg sub_arg : ℤ) (fds memory : ℕ → ℕ) (first m : Machine)
    → 1 ≤ fib_arg
    → main (pos fib_arg) col_arg sub_arg fds memory ≡ ok first
    → Runs first m
    → AreFibs fib_arg (printed 0 m.out)
main_fibonacci fib_arg col_arg sub_arg fds memory first m some_round begun r =
    let q = made fib_arg col_arg sub_arg fds memory in
    let has = made-HasFibonacci fib_arg col_arg sub_arg fds memory in
    let same = ok-injective (sym begun ∙ main-made fib_arg col_arg sub_arg fds memory) in
    subst (λ n. AreFibs n (printed 0 m.out)) has.arg_is
      (fibonacci_prints (created q.ready_queue) q m has.fresh (subst (λ f. Runs f m) same r) 0
        has.task has.place (omega (arith, some_round, has.arg_is)))
