-- ===== src/Threads/Start.antt =====
-- main.c: `init_threads`, with `thread_create` and `thread_setup` of threadtools.h, and the first
-- call of the scheduler.
use sp.Base.{
  ℕ, suc, ◌+◌, ◌≡◌, refl, Bool, true, false, List, [], ◌∷◌, ◌++◌, none, ltb, if◌then◌else◌, length,
  map, Result, ok, guard, bad_access, ◌>>=◌, ◌>>◌,
}
use sp.Base.Int.{ℤ, pos, negsuc, pos_part}
use sp.Threads.Scheduler.{
  Task, fibonacci_task, collatz_task, max_subarray_task, thread_max, started, Tcb, Queues, Next,
  resume, stale, put, begin,
}

-- The variables before `main`.
abbrev pub no_threads : Queues
no_threads = record {
  ready_queue = [];
  rq_current = 0;
  waiting_queue = [];
  fdarray = λ i. none;
  nfds = 0;
}

-- `fd` is what `open` returns for the thread's fifo, and `i` what `malloc` left there. Nothing tests
-- whether the arrays have room.
unfoldable pub thread_setup : Task → (id arg fd i : ℕ) → Queues → Result Queues
thread_setup task id arg fd i q = do
  guard (ltb (length q.ready_queue) thread_max) bad_access
  guard (ltb q.nfds thread_max) bad_access
  let t : Tcb = record {
    id = id;
    task = task;
    environment = started;
    arg = arg;
    fd = fd;
    i = i;
    x = pos 0;
    y = pos 0;
    fd_index = q.nfds;
  }
  ok (record q {
    ready_queue = q.ready_queue ++ (t ∷ []);
    fdarray = put q.nfds none q.fdarray;
    nfds = q.nfds + 1;
  })

abbrev pub is_negative : ℤ → Bool
is_negative (pos n) = false
is_negative (negsuc n) = true

-- `thread_create` if the argument is not negative.
abbrev pub create : Task → (id : ℕ) → (arg : ℤ) → (fd i : ℕ) → Queues → Result Queues
create task id arg fd i q =
    let made = thread_setup task id (pos_part arg) fd i q in if is_negative arg then ok q else made

-- `fds` and `memory` are what `open` returns and `malloc` leaves in `i`, for each id.
unfoldable pub init_threads :
    (fib_arg col_arg sub_arg : ℤ) (fds memory : ℕ → ℕ) → Queues → Result Queues
unfolding thread_setup
init_threads fib_arg col_arg sub_arg fds memory q = do
  q1 ← create fibonacci_task 0 fib_arg (fds 0) (memory 0) q
  q2 ← create collatz_task 1 col_arg (fds 1) (memory 1) q1
  create max_subarray_task 2 sub_arg (fds 2) (memory 2) q2

-- The ids and arguments of the threads that are wanted.
abbrev pub wanted : List (ℕ × ℤ) → List (ℕ × ℕ)
wanted [] = []
wanted ((id, pos n) ∷ rest) = (id, n) ∷ wanted rest
wanted ((id, negsuc n) ∷ rest) = wanted rest

-- `0, 1, ...`, one for each element.
abbrev pub count_up : {A : Type 0} → ℕ → List A → List ℕ
count_up i [] = []
count_up i (x ∷ xs) = i ∷ count_up (suc i) xs

-- How the first call of the scheduler goes on.
abbrev pub first_next : List (ℕ × ℕ) → Queues → Next
first_next [] q = stale
first_next (t ∷ ts) q = resume q

-- Where the program starts, `init_threads` returns: the ready queue holds a thread for each argument
-- that is not negative, in their order, and each has an entry of its own; the scheduler goes on in
-- the first of them, or, if there is none, at an entry of the array that is no thread.
pub init_threads_lem :
    (fib_arg col_arg sub_arg : ℤ) (fds memory : ℕ → ℕ)
    → (q : Queues) × (init_threads fib_arg col_arg sub_arg fds memory no_threads ≡ ok q)
      × (map (λ t. (t.id, t.arg)) q.ready_queue
          ≡ wanted ((0, fib_arg) ∷ (1, col_arg) ∷ (2, sub_arg) ∷ []))
      × (map (λ t. t.fd_index) q.ready_queue ≡ count_up 0 q.ready_queue)
      × (begin q ≡ first_next (wanted ((0, fib_arg) ∷ (1, col_arg) ∷ (2, sub_arg) ∷ [])) q)
unfolding init_threads begin
init_threads_lem (pos a) (pos b) (pos c) fds memory = (_, refl, refl, refl, refl)
init_threads_lem (pos a) (pos b) (negsuc c) fds memory = (_, refl, refl, refl, refl)
init_threads_lem (pos a) (negsuc b) (pos c) fds memory = (_, refl, refl, refl, refl)
init_threads_lem (pos a) (negsuc b) (negsuc c) fds memory = (_, refl, refl, refl, refl)
init_threads_lem (negsuc a) (pos b) (pos c) fds memory = (_, refl, refl, refl, refl)
init_threads_lem (negsuc a) (pos b) (negsuc c) fds memory = (_, refl, refl, refl, refl)
init_threads_lem (negsuc a) (negsuc b) (pos c) fds memory = (_, refl, refl, refl, refl)
init_threads_lem (negsuc a) (negsuc b) (negsuc c) fds memory = (_, refl, refl, refl, refl)
