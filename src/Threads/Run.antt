-- ===== src/Threads/Run.antt =====
-- The threads under the scheduler: what the running thread does up to its next switch, the signals
-- that cut in, and main.
pub mod Alone
pub mod Isolation
pub mod Fibonacci
pub mod Main
mod Tests
use sp.Base.{
  ℕ, ◌+◌, ◌≡◌, Bool, true, false, List, [], ◌∷◌, Option, some, none, ◌==◌, if◌then◌else◌, set, leb,
  Result, ok, err, guard, bad_access, overflow, ◌>>=◌, ◌>>◌,
}
use sp.Base.Int.{ℤ, pos, pos_part, int_max}
use sp.Threads.Tasks.{Vars, FibVars, add_nat, fib_round, collatz_round, max_round}
use sp.Threads.Scheduler.{
  Task, fibonacci_task, collatz_task, max_subarray_task, Place, started, yielded, reading, Tcb,
  Queues, Revents, Source, signalled, blocked, exited, running, Next, resume, return, stale, begin,
  schedule,
}
use sp.Threads.Start.{init_threads, no_threads}

-- What a thread's turn ends with: `thread_yield`, `async_read` or `thread_exit`.
pub data Stop : Type 0 where
  yields reads exits : Stop

-- The thread behind its turn, what `printf` shows as its number, and how the turn ends.
pub record Turn : Type 0 where
  pub tcb : Tcb
  pub line : Option ℤ
  pub stop : Stop

-- The end of a round, after `printf`.
abbrev pub finish : (last : Bool) → ℤ → Tcb → Turn
finish true n t = record { tcb = t; line = some n; stop = exits }
finish false n t = record { tcb = record t { environment = yielded }; line = some n; stop = yields }

-- `i = 1` at the start of the loop, and `i++` behind a switch.
abbrev pub next_i : Tcb → Result ℕ
next_i t = elim t.environment [ started ↦ ok 1 | _ ↦ add_nat t.i 1 ]

-- `fibonacci`: `x` and `y` are never below zero.
unfoldable pub fibonacci_turn : Tcb → Result Turn
unfolding fib_round
fibonacci_turn t = do
  i ← next_i t
  now ← fib_round (record { i = i; x = pos_part t.x; y = pos_part t.y })
  ok (finish (now.i == t.arg) (pos now.y) (record t { i = now.i; x = pos now.x; y = pos now.y }))

abbrev pub collatz_start : Tcb → ℕ
collatz_start t = elim t.environment [ started ↦ t.arg | _ ↦ t.i ]

unfoldable pub collatz_turn : Tcb → Result Turn
unfolding collatz_round
collatz_turn t = do
  now ← collatz_round (collatz_start t)
  ok (finish (now == 1) (pos now) (record t { i = now }))

-- `max_subarray` up to `async_read`, and behind it, where `atoi` returns `num`.
unfoldable pub max_subarray_turn : (num : ℤ) → Tcb → Result Turn
unfolding max_round
max_subarray_turn num t = elim t.environment [
  | reading ↦ do
    now ← max_round num (record { x = t.x; y = t.y })
    ok (finish (t.i == t.arg) now.x (record t { x = now.x; y = now.y }))
  | _ ↦ do
    i ← next_i t
    ok (record { tcb = record t { i = i; environment = reading }; line = none; stop = reads })
]

abbrev pub turn_of : Task → (num : ℤ) → Tcb → Result Turn
turn_of fibonacci_task num t = fibonacci_turn t
turn_of collatz_task num t = collatz_turn t
turn_of max_subarray_task num t = max_subarray_turn num t

-- From `environment` to the next switch.
unfoldable pub turn : (num : ℤ) → Tcb → Result Turn
unfolding fibonacci_turn collatz_turn max_subarray_turn
turn num t = turn_of t.task num t

-- The lines of the program's output.
pub data Line : Type 0 where
  caught_alarm caught_tstp : Line
  number : (id : ℕ) → ℤ → Line

pub data Signal : Type 0 where
  sigalrm sigtstp : Signal

-- What `sighandler` prints before its jump to the scheduler; the alarm that it sets is an event to
-- come.
abbrev pub sighandler : Signal → Line
sighandler sigalrm = caught_alarm
sighandler sigtstp = caught_tstp

-- The signals that are blocked and pending.
pub record Pending : Type 0 where
  pub tstp : Bool
  pub alrm : Bool

-- Both signals are blocked but within `thread_yield`, which lets SIGTSTP through first and SIGALRM
-- after it. The handler of the first that is pending leads out of it, with the line that is printed.
unfoldable pub thread_yield : Pending → Option (Line × Pending)
thread_yield p =
    if p.tstp
    then some (sighandler sigtstp, record p { tstp = false })
    else if p.alrm
    then some (sighandler sigalrm, record p { alrm = false })
    else none

-- The program between two turns; `out` is what it has printed, latest first.
pub record Machine : Type 0 where
  pub next : Next
  pub pending : Pending
  pub out : List Line

abbrev pub put_line : ℕ → Option ℤ → List Line → List Line
put_line id none out = out
put_line id (some n) out = number id n ∷ out

-- What follows a turn: `polled` and `woken` are what the polls of the scheduler report.
abbrev pub switch : Stop → (polled woken : Revents) → Queues → Pending → List Line → Machine
switch exits polled woken q p out = record {
  next = schedule exited polled woken q;
  pending = p;
  out = out;
}
switch reads polled woken q p out = record {
  next = schedule blocked polled woken q;
  pending = p;
  out = out;
}
switch yields polled woken q p out = elim (thread_yield p) [
  | none ↦ record { next = resume q; pending = p; out = out }
  | some (line, rest) ↦ record {
    next = schedule signalled polled woken q;
    pending = rest;
    out = line ∷ out;
  }
]

-- `RUNNING` with what it keeps between switches changed.
abbrev pub set_running : Tcb → Queues → Queues
set_running t q = record q { ready_queue = set q.ready_queue q.rq_current t }

abbrev pub run_thread :
    Option Tcb → (num : ℤ) → (polled woken : Revents) → Queues → Machine → Result Machine
run_thread none num polled woken q m = err bad_access
run_thread (some t) num polled woken q m = do
  r ← turn num t
  ok (switch r.stop polled woken (set_running r.tcb q) m.pending (put_line t.id r.line m.out))

abbrev pub run_next : (num : ℤ) (polled woken : Revents) → Machine → Next → Result Machine
run_next num polled woken m (resume q) = run_thread (running q) num polled woken q m
run_next num polled woken m return = ok m
run_next num polled woken m stale = err bad_access

-- One turn of the program: nothing happens once it is back in `main`.
unfoldable pub run : (num : ℤ) → (polled woken : Revents) → Machine → Result Machine
unfolding turn thread_yield schedule
run num polled woken m = run_next num polled woken m m.next

-- `start_threading`: the first call of the scheduler.
unfoldable pub start_threading : Queues → Machine
unfolding begin
start_threading q = record {
  next = begin q;
  pending = record { tstp = false; alrm = false };
  out = [];
}

-- `main`, by its arguments.
unfoldable pub main : (fib_arg col_arg sub_arg : ℤ) (fds memory : ℕ → ℕ) → Result Machine
unfolding init_threads start_threading
main fib_arg col_arg sub_arg fds memory = do
  q ← init_threads fib_arg col_arg sub_arg fds memory no_threads
  ok (start_threading q)

-- A signal arrives, from the alarm or from the terminal, or the running thread has a turn.
pub data Event (m : Machine) : Machine → Type 0 where
  stop_key : Event m (let p = m.pending in record m { pending = record p { tstp = true } })
  alarm_rings : Event m (let p = m.pending in record m { pending = record p { alrm = true } })
  runs :
      (num : ℤ) (polled woken : Revents) (n : Machine) → run num polled woken m ≡ ok n → Event m n

pub data Runs (first : Machine) : Machine → Type 0 where
  here : Runs first first
  goes_on : {m n : Machine} → Runs first m → Event m n → Runs first n
