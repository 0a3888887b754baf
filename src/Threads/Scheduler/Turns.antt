-- ===== src/Threads/Scheduler/Turns.antt =====
-- Which thread the scheduler goes on in.
use sp.Base.{
  ℕ, zero, suc, ◌+◌, ◌-◌, ◌<◌, ◌≡◌, refl, ap, ◌∙◌, List, [], ◌∷◌, ◌==◌, ltb, if◌then◌else◌, length,
  get_elem?_lt, arith, ◌≢◌,
}
use sp.Threads.Scheduler.{
  Tcb, Queues, Revents, pollin, signalled, move_one, move_loop, move_queue, running, settle, resume,
  dispatch, go_on, schedule, alarms, and_then,
}

-- A poll that reports no entry as readable and nothing else.
abbrev pub IsQuiet : Revents → Type 0
IsQuiet revents = (i : ℕ) → revents i ≢ pollin

move_one-quiet :
    (revents : Revents) (i : ℕ) (q : Queues) → IsQuiet revents → move_one revents i q ≡ q
unfolding move_one
move_one-quiet revents i q h = let n = h i in ground arith

move_loop-quiet :
    (revents : Revents) (left i : ℕ) (q : Queues) → IsQuiet revents → move_loop revents left i q ≡ q
unfolding move_loop
move_loop-quiet revents zero i q h = refl
move_loop-quiet revents (suc left) i q h =
    ap (move_loop revents left (suc i)) (move_one-quiet revents i q h)
    ∙ move_loop-quiet revents left (suc i) q h

pub move_queue-quiet : (revents : Revents) (q : Queues) → IsQuiet revents → move_queue revents q ≡ q
unfolding move_queue
move_queue-quiet revents q h = move_loop-quiet revents q.nfds 0 q h

-- Another thread runs.
abbrev pub run_at : ℕ → Queues → Queues
run_at i q = record q { rq_current = i }

dispatch_ready :
    (xs : List Tcb) (woken : Revents) (q : Queues) → 0 < length xs → dispatch xs woken q ≡ resume q
unfolding dispatch
dispatch_ready [] woken q h = absurd (omega (arith, h))
dispatch_ready (x ∷ xs) woken q h = refl

schedule-alarm :
    (polled woken : Revents) (q : Queues)
    → q.rq_current < length q.ready_queue
    → IsQuiet polled
    → schedule signalled polled woken q
      ≡ resume (run_at (if q.rq_current == length q.ready_queue - 1 then 0 else q.rq_current + 1) q)
unfolding schedule go_on settle
schedule-alarm polled woken q b quiet =
    let (t, h) = get_elem?_lt q.ready_queue q.rq_current b in
    ap (λ m. go_on (running m) signalled woken m) (move_queue-quiet polled q quiet)
    ∙ ap (λ o. go_on o signalled woken q) h
    ∙ dispatch_ready q.ready_queue woken (settle signalled t q) (omega (arith, b))

turn_lem :
    (c k n : ℕ)
    → c < n
    → suc k < n
    → let v = if ltb (c + k) n then c + k else (c + k) - n in
      (if v == n - 1 then 0 else v + 1) ≡ (if ltb (c + suc k) n then c + suc k else (c + suc k) - n)
turn_lem c k n h l = ground arith

turn_bound : (c k n : ℕ) → c < n → k < n → (if ltb (c + k) n then c + k else (c + k) - n) < n
turn_bound c k n h l = ground arith

alarms_lem :
    (polled woken : ℕ → Revents) (q : Queues) (k : ℕ)
    → ((i : ℕ) → IsQuiet (polled i))
    → q.rq_current < length q.ready_queue
    → k < length q.ready_queue
    → alarms k polled woken q
      ≡ resume (
          run_at
            (if ltb (q.rq_current + k) (length q.ready_queue)
              then q.rq_current + k
              else (q.rq_current + k) - length q.ready_queue)
            q)
unfolding alarms
alarms_lem polled woken q zero quiet b l = ap (λ i. resume (run_at i q)) (ground arith)
alarms_lem polled woken q (suc k) quiet b l =
    let c = q.rq_current in
    let n = length q.ready_queue in
    let before = run_at (if ltb (c + k) n then c + k else (c + k) - n) q in
    ap (λ o. and_then o (λ r. schedule signalled (polled k) (woken k) r))
      (alarms_lem polled woken q k quiet b (omega (arith, l)))
    ∙ schedule-alarm (polled k) (woken k) before (turn_bound c k n b (omega (arith, l))) (quiet k)
    ∙ ap (λ i. resume (run_at i q)) (turn_lem c k n b l)

turn_back :
    (c j n : ℕ)
    → c < n
    → j < n
    → (k : ℕ) × ((k < n) × ((if ltb (c + k) n then c + k else (c + k) - n) ≡ j))
turn_back c j n h l = (if ltb j c then (j + n) - c else j - c, (ground arith, ground arith))

-- From a running thread, each ready thread runs after fewer alarms than there are ready threads, if
-- no poll in between reports a readable entry; the queues stay as they are.
pub round_robin :
    (polled woken : ℕ → Revents) (q : Queues) (j : ℕ)
    → ((i : ℕ) → IsQuiet (polled i))
    → q.rq_current < length q.ready_queue
    → j < length q.ready_queue
    → (k : ℕ) × ((k < length q.ready_queue) × (alarms k polled woken q ≡ resume (run_at j q)))
round_robin polled woken q j quiet b l =
    let (k, (less, e)) = turn_back q.rq_current j (length q.ready_queue) b l in
    (k, (less, alarms_lem polled woken q k quiet b less ∙ ap (λ i. resume (run_at i q)) e))
