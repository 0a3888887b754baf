-- ===== src/Threads/Run/Tests.antt =====
-- A run of the program: a turn of fibonacci, then the alarm, and a turn of collatz.
use sp.Base.{◌+◌, ◌≡◌, refl, subst, true, [], ◌∷◌, Result, ok, err, arith}
use sp.Base.Int.{pos, negsuc}
use sp.Threads.Scheduler.{Tcb, Queues, Revents}
use sp.Threads.Start.{no_threads}
use sp.Threads.Run.{
  Machine, number, caught_alarm, Stop, main, run, start_threading, alarm_rings, runs, Runs, here,
  goes_on,
}
use sp.Threads.Run.Alone.{printed, Alone}
use sp.Threads.Run.Isolation.{isolation}
use sp.Threads.Run.Fibonacci.{AreFibs}
use sp.Threads.Run.Main.{main_fibonacci, made, created, made-HasFibonacci}

abbrev nothing : Revents
nothing i = 0

abbrev value_or : Result Machine → Machine → Machine
value_or (ok m) n = m
value_or (err why) n = n

abbrev stopped : Machine
stopped = start_threading no_threads

-- Threads 0 and 1, with the arguments 5 and 6.
first : Machine
unfolding main
first = value_or (main (pos 5) (pos 6) (negsuc 0) (λ i. i + 3) (λ i. 99)) stopped

first_run : main (pos 5) (pos 6) (negsuc 0) (λ i. i + 3) (λ i. 99) ≡ ok first
unfolding first
first_run = refl

abbrev ringing : Machine
ringing = let p = first.pending in record first { pending = record p { alrm = true } }

second : Machine
unfolding run first
second = value_or (run (pos 0) nothing nothing ringing) ringing

second-run : run (pos 0) nothing nothing ringing ≡ ok second
unfolding second
second-run = refl

third : Machine
unfolding run second
third = value_or (run (pos 0) nothing nothing second) second

third-run : run (pos 0) nothing nothing second ≡ ok third
unfolding third
third-run = refl

third-out : third.out ≡ number 1 (pos 3) ∷ caught_alarm ∷ number 0 (pos 1) ∷ []
unfolding third
third-out = refl

third_reached : Runs first third
third_reached =
    goes_on (goes_on (goes_on here alarm_rings) (runs (pos 0) nothing nothing second second-run))
      (runs (pos 0) nothing nothing third third-run)

abbrev two : Queues
two = made 5 (pos 6) (negsuc 0) (λ i. i + 3) (λ i. 99)

first-two : first ≡ start_threading two
unfolding first
first-two = refl

isolation_example :
    ∥ ((t : Tcb) × (s : Stop) × Alone (created two.ready_queue 1) t (printed 1 third.out) s) ∥₁
isolation_example =
    isolation (created two.ready_queue) two third
      (made-HasFibonacci 5 (pos 6) (negsuc 0) (λ i. i + 3) (λ i. 99)).fresh
      (subst (λ m. Runs m third) first-two third_reached) 1

main_fibonacci_example : AreFibs 5 (printed 0 third.out)
main_fibonacci_example =
    main_fibonacci 5 (pos 6) (negsuc 0) (λ i. i + 3) (λ i. 99) first third (omega arith) first_run
      third_reached
