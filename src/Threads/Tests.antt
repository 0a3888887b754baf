-- ===== src/Threads/Tests.antt =====
-- Runs of the scheduler and of the tasks, and their theorems at concrete input.
use sp.Base.{
  map, some, err, overflow, inl, List, length, ok, ℕ, ◌+◌, ◌<◌, ◌≡◌, refl, [], ◌∷◌, Option, none,
  arith, ◌==◌, if◌then◌else◌,
}
use sp.Base.Int.{ℤ, ◌+ℤ◌, pos, negsuc}
use sp.Threads.Tasks.{max_subarray, fibonacci, collatz}
use sp.Threads.Tasks.Fib.{fibs, fibonacci_lem, fibonacci-overflow}
use sp.Threads.Tasks.Kadane.{Prints, max_subarray_lem}
use sp.Threads.Scheduler.{
  Tcb, collatz_task, started, Queues, Revents, resume, stale, return, blocked, exited, schedule,
  alarms, begin,
}
use sp.Threads.Start.{no_threads, init_threads, wanted, count_up, first_next, init_threads_lem}
use sp.Threads.Scheduler.Steps.{Kept, schedule_lem}
use sp.Threads.Scheduler.Turns.{IsQuiet, run_at, round_robin}
use sp.Threads.Scheduler.Wakes.{Resumes, blocked-Resumes, schedule-hang_up}

abbrev thread : ℕ → Tcb
thread i = record {
  id = i;
  task = collatz_task;
  environment = started;
  arg = 7;
  fd = 4;
  i = 0;
  x = pos 0;
  y = pos 0;
  fd_index = i;
}

abbrev all_off : ℕ → Option ℕ
all_off i = none

abbrev three : Queues
three = record {
  ready_queue = thread 0 ∷ thread 1 ∷ thread 2 ∷ [];
  rq_current = 1;
  waiting_queue = [];
  fdarray = all_off;
  nfds = 3;
}

abbrev last_one : Queues
last_one = record {
  ready_queue = thread 0 ∷ [];
  rq_current = 0;
  waiting_queue = [];
  fdarray = all_off;
  nfds = 1;
}

abbrev nothing : Revents
nothing i = 0

abbrev first_readable : Revents
first_readable i = if i == 0 then 1 else 0

-- `POLLHUP`
abbrev hung_up : Revents
hung_up i = 16

-- The last thread takes the place of the one that exits.
exit_middle :
    schedule exited nothing nothing three
    ≡ resume (record three { ready_queue = thread 0 ∷ thread 2 ∷ [] })
unfolding schedule
exit_middle = refl

exit_last : schedule exited nothing nothing last_one ≡ return
unfolding schedule
exit_last = refl

schedule_lem_example : Kept exited (thread 1) three (schedule exited nothing nothing three)
schedule_lem_example = schedule_lem exited nothing nothing three (thread 1) refl

IsQuiet-zero : IsQuiet nothing
IsQuiet-zero i e = omega (arith, e)

IsQuiet-hung_up : IsQuiet hung_up
IsQuiet-hung_up i e = omega (arith, e)

round_robin_example :
    (k : ℕ) × ((k < 3) × (alarms k (λ i. nothing) (λ i. nothing) three ≡ resume (run_at 0 three)))
round_robin_example =
    round_robin (λ i. nothing) (λ i. nothing) three 0 (λ i. IsQuiet-zero) (omega arith)
      (omega arith)

blocked-Resumes_example : Resumes (schedule blocked nothing first_readable last_one)
blocked-Resumes_example =
    blocked-Resumes nothing first_readable last_one (thread 0) refl (omega arith) refl

schedule-hang_up_example : schedule blocked nothing hung_up last_one ≡ stale
schedule-hang_up_example =
    schedule-hang_up nothing hung_up last_one (thread 0) refl refl IsQuiet-zero IsQuiet-hung_up

-- 3, -5, 4
abbrev numbers : List ℤ
numbers = pos 3 ∷ negsuc 4 ∷ pos 4 ∷ []

printed : max_subarray 3 numbers ≡ ok (pos 3 ∷ pos 3 ∷ pos 4 ∷ [])
unfolding max_subarray ◌+ℤ◌
printed = refl

max_subarray_lem_example :
    (out : List ℤ) × ((max_subarray 3 numbers ≡ ok out)
      × ((length out ≡ 3) × Prints [] numbers out))
max_subarray_lem_example =
    max_subarray_lem 3 numbers (omega arith) refl (omega arith)
      ((omega arith, omega arith), ((omega arith, omega arith), ((omega arith, omega arith), tt)))

six_rounds : fibonacci 6 6 ≡ ok (some (1 ∷ 1 ∷ 2 ∷ 3 ∷ 5 ∷ 8 ∷ []))
unfolding fibonacci
six_rounds = refl

fibonacci_lem_example : fibonacci 10 10 ≡ ok (some (fibs 10 1))
fibonacci_lem_example = fibonacci_lem 10 (omega arith) (omega arith)

fibonacci-overflow_example : (fibonacci 46 0 ≡ ok none) × (fibonacci 47 0 ≡ err overflow)
fibonacci-overflow_example = fibonacci-overflow 0 (inl refl)

three_rounds : collatz 3 1 ≡ ok (some (4 ∷ 2 ∷ 1 ∷ []))
unfolding collatz
three_rounds = refl

init_threads_lem_example :
    (q : Queues) × (init_threads (pos 5) (negsuc 0) (pos 3) (λ i. i + 3) (λ i. i) no_threads ≡ ok q)
    × (map (λ t. (t.id, t.arg)) q.ready_queue
        ≡ wanted ((0, pos 5) ∷ (1, negsuc 0) ∷ (2, pos 3) ∷ []))
    × (map (λ t. t.fd_index) q.ready_queue ≡ count_up 0 q.ready_queue)
    × (begin q ≡ first_next (wanted ((0, pos 5) ∷ (1, negsuc 0) ∷ (2, pos 3) ∷ [])) q)
init_threads_lem_example = init_threads_lem (pos 5) (negsuc 0) (pos 3) (λ i. i + 3) (λ i. i)
