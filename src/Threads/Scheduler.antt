-- ===== src/Threads/Scheduler.antt =====
-- scheduler.c and the queues of threadtools.h. A queue is the list of the threads in the used part
-- of its array, so that its length is `rq_size` or `wq_size`.
pub mod Conserve
pub mod Steps
pub mod Turns
pub mod Wakes
use sp.Base.{
  ℕ, zero, suc, ◌+◌, ◌-◌, Bool, true, false, List, [], ◌∷◌, ◌++◌, Option, some, none, ◌==◌,
  if◌then◌else◌, length, get_elem?, get_or, set, take, Result, ok, err, bad_access, ◌>>=◌,
}
use sp.Base.Int.{ℤ}

abbrev pub thread_max : ℕ
thread_max = 16

-- The functions that the threads run.
pub data Task : Type 0 where
  fibonacci_task collatz_task max_subarray_task : Task

-- Where `environment` leads: to the start of the thread's loop, or behind a yield or a read.
pub data Place : Type 0 where
  started yielded reading : Place

-- `environment` leads into the function `task`; `i`, `x` and `y` are what the function keeps between
-- switches.
pub record Tcb : Type 0 where
  pub id : ℕ
  pub task : Task
  pub environment : Place
  pub arg : ℕ
  pub fd : ℕ
  pub i : ℕ
  pub x : ℤ
  pub y : ℤ
  pub fd_index : ℕ

-- `nfds` is the number of entries of `fdarray`; the `fd` of an entry is none for -1.
pub record Queues : Type 0 where
  pub ready_queue : List Tcb
  pub rq_current : ℕ
  pub waiting_queue : List Tcb
  pub fdarray : ℕ → Option ℕ
  pub nfds : ℕ

-- What `poll` reports in `revents`.
abbrev pub pollin : ℕ
pollin = 1

abbrev pub Revents : Type 0
Revents = ℕ → ℕ

-- `siglongjmp` to the scheduler: 1 from a signal handler, 2 from `async_read`, 3 from
-- `thread_exit`.
pub data Source : Type 0 where
  signalled blocked exited : Source

abbrev pub put : ℕ → Option ℕ → (ℕ → Option ℕ) → ℕ → Option ℕ
put i a f j = if j == i then a else f j

abbrev pub keep_front : Tcb → Option (Tcb × List Tcb) → Option (Tcb × List Tcb)
keep_front t none = none
keep_front t (some (found, rest)) = some (found, t ∷ rest)

-- The first waiting thread of entry `i`, and the queue without it.
unfoldable pub find_waiting : ℕ → List Tcb → Option (Tcb × List Tcb)
find_waiting i [] = none
find_waiting i (t ∷ ts) =
    let rest = find_waiting i ts in if t.fd_index == i then some (t, ts) else keep_front t rest

-- Entry `i` is readable: its thread, if one waits, is the last ready one, and the entry is off.
abbrev pub move_found : ℕ → Option (Tcb × List Tcb) → Queues → Queues
move_found i none q = record q { fdarray = put i none q.fdarray }
move_found i (some (t, rest)) q = record q {
  ready_queue = q.ready_queue ++ t ∷ [];
  waiting_queue = rest;
  fdarray = put i none q.fdarray;
}

-- One round of the loop of `move_queue`.
unfoldable pub move_one : Revents → ℕ → Queues → Queues
unfolding find_waiting
move_one revents i q =
    if revents i == pollin then move_found i (find_waiting i q.waiting_queue) q else q

-- The loop, for the `left` entries up to `nfds`.
unfoldable pub move_loop : Revents → (left i : ℕ) → Queues → Queues
unfolding move_one
move_loop revents zero i q = q
move_loop revents (suc left) i q = move_loop revents left (suc i) (move_one revents i q)

unfoldable pub move_queue : Revents → Queues → Queues
unfolding move_loop
move_queue revents q = move_loop revents q.nfds 0 q

-- `RUNNING`
abbrev pub running : Queues → Option Tcb
running q = get_elem? q.ready_queue q.rq_current

-- The last ready thread takes the place of the running one.
unfoldable pub fill : Tcb → Queues → Queues
fill t q =
    let size = length q.ready_queue - 1 in
    let last = get_or q.ready_queue size t in
    record q {
      ready_queue = take size (set q.ready_queue q.rq_current last);
      rq_current = if q.rq_current == size then 0 else q.rq_current;
    }

-- The part of `scheduler` that looks at `src`.
unfoldable pub settle : Source → Tcb → Queues → Queues
unfolding fill
settle signalled t q = record q {
  rq_current = if q.rq_current == length q.ready_queue - 1 then 0 else q.rq_current + 1;
}
settle blocked t q = fill t (record q {
  fdarray = put t.fd_index (some t.fd) q.fdarray;
  waiting_queue = q.waiting_queue ++ t ∷ [];
})
settle exited t q = fill t q

-- How the scheduler goes on: in a thread, back in its caller, or in a `RUNNING` that is a stale entry
-- of the array, no thread that is ready.
pub data Next : Type 0 where
  resume : Queues → Next
  return stale : Next

-- A jump to `RUNNING`, by the ready queue.
abbrev pub jump : List Tcb → Queues → Next
jump [] q = stale
jump (t ∷ ts) q = resume q

-- The first call of `scheduler`.
unfoldable pub begin : Queues → Next
begin q = jump q.ready_queue (record q { rq_current = 0 })

-- With no ready thread, by the waiting queue; `woken` is what the poll without a time limit reports.
unfoldable pub sleep : List Tcb → (woken : Revents) → Queues → Next
unfolding move_queue
sleep [] woken q = return
sleep (t ∷ ts) woken q =
    let r = move_queue woken q in jump r.ready_queue (record r { rq_current = 0 })

-- The end of `scheduler`, by the ready queue.
unfoldable pub dispatch : List Tcb → (woken : Revents) → Queues → Next
unfolding sleep
dispatch [] woken q = sleep q.waiting_queue woken q
dispatch (t ∷ ts) woken q = resume q

-- `scheduler` behind its first `move_queue`, by the running thread.
unfoldable pub go_on : Option Tcb → Source → (woken : Revents) → Queues → Next
unfolding settle dispatch
go_on none src woken q = stale
go_on (some t) src woken q = let r = settle src t q in dispatch r.ready_queue woken r

-- `scheduler` after a jump from the running thread. `polled` is what the first poll reports; a poll
-- that reports nothing leaves all `revents` at 0, so that `move_queue` has no effect.
unfoldable pub schedule : Source → (polled woken : Revents) → Queues → Next
unfolding move_queue go_on
schedule src polled woken q = let r = move_queue polled q in go_on (running r) src woken r

abbrev pub and_then : Next → (Queues → Next) → Next
and_then (resume q) f = f q
and_then return f = return
and_then stale f = stale

-- `k` calls that come from signal handlers, and what their polls report.
unfoldable pub alarms : ℕ → (polled woken : ℕ → Revents) → Queues → Next
unfolding schedule
alarms zero polled woken q = resume q
alarms (suc k) polled woken q =
    and_then (alarms k polled woken q) (λ r. schedule signalled (polled k) (woken k) r)
