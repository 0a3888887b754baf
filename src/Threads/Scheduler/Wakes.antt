-- ===== src/Threads/Scheduler/Wakes.antt =====
-- When the scheduler, with no thread ready, finds one that its poll woke.
use sp.Base.{
  ℕ, zero, suc, ◌+◌, ◌-◌, ◌<◌, ◌≤◌, ◌≡◌, refl, ap, sym, ◌∙◌, subst, List, [], ◌∷◌, ◌++◌, Option,
  some, none, ◌==◌, if◌then◌else◌, length, length-append, arith, if_lem, ◌⊎◌, inl, inr, eq_cases,
  ==_iff,
}
use sp.Threads.Scheduler.{
  Tcb, Queues, Revents, pollin, blocked, find_waiting, keep_front, move_found, move_one, move_loop,
  move_queue, running, fill, settle, Next, resume, stale, jump, sleep, dispatch, go_on, schedule,
}
use sp.Threads.Scheduler.Conserve.{Extends, move_one-Extends, move_loop-Extends, move_queue-Extends}
use sp.Threads.Scheduler.Steps.{length-fill, length_zero, running-Extends}
use sp.Threads.Scheduler.Turns.{run_at, IsQuiet, move_queue-quiet}

-- A thread waits for entry `i`.
abbrev pub Waits : ℕ → List Tcb → Type 0
Waits i [] = ⊥
Waits i (t ∷ ts) = (t.fd_index ≡ i) ⊎ Waits i ts

-- Some thread is ready, or one waits for entry `i`.
abbrev pub Expects : ℕ → Queues → Type 0
Expects i q = (0 < length q.ready_queue) ⊎ Waits i q.waiting_queue

abbrev pub IsFound : Option (Tcb × List Tcb) → Type 0
IsFound none = ⊥
IsFound (some p) = Unit

keep_front-IsFound : (x : Tcb) (o : Option (Tcb × List Tcb)) → IsFound o → IsFound (keep_front x o)
keep_front-IsFound x none h = h
keep_front-IsFound x (some (t, rest)) h = tt

find_waiting-IsFound : (i : ℕ) (ts : List Tcb) → Waits i ts → IsFound (find_waiting i ts)
unfolding find_waiting
find_waiting-IsFound i [] h = h
find_waiting-IsFound i (t ∷ ts) (inl e) =
    subst (λ b. IsFound (if b then some (t, ts) else keep_front t (find_waiting i ts)))
      (sym ((==_iff t.fd_index i).1 e)) tt
find_waiting-IsFound i (t ∷ ts) (inr h) =
    if_lem IsFound (t.fd_index == i) tt
      (keep_front-IsFound t (find_waiting i ts) (find_waiting-IsFound i ts h))

move_found_ready :
    (i : ℕ) (o : Option (Tcb × List Tcb)) (q : Queues)
    → IsFound o
    → 0 < length (move_found i o q).ready_queue
move_found_ready i none q h = absurd h
move_found_ready i (some (t, rest)) q h = omega (arith, length-append q.ready_queue (t ∷ []))

move_found-Expects :
    (i k : ℕ) (o : Option (Tcb × List Tcb)) (q : Queues)
    → Expects i q
    → Expects i (move_found k o q)
move_found-Expects i k none q h = h
move_found-Expects i k (some (t, rest)) q h = inl (move_found_ready k (some (t, rest)) q tt)

move_one-Expects :
    (revents : Revents) (i k : ℕ) (q : Queues) → Expects i q → Expects i (move_one revents k q)
unfolding move_one
move_one-Expects revents i k q h =
    if_lem (Expects i) (revents k == pollin)
      (move_found-Expects i k (find_waiting k q.waiting_queue) q h) h

-- A thread that is ready stays so.
ready-Extends : (q r : Queues) → Extends q r → 0 < length q.ready_queue → 0 < length r.ready_queue
ready-Extends q r (l, (e, c)) h = omega (arith, h, ap length e, length-append q.ready_queue l)

-- The entry is readable, and its round comes.
move_one_ready :
    (revents : Revents) (i : ℕ) (q : Queues)
    → Expects i q
    → revents i ≡ pollin
    → 0 < length (move_one revents i q).ready_queue
unfolding move_one
move_one_ready revents i q (inl l) h =
    ready-Extends q (move_one revents i q) (move_one-Extends revents i q) l
move_one_ready revents i q (inr w) h =
    subst
      (λ b.
        0 < length (if b then move_found i (find_waiting i q.waiting_queue) q else q).ready_queue)
      (sym ((==_iff (revents i) pollin).1 h))
      (move_found_ready i (find_waiting i q.waiting_queue) q
        (find_waiting-IsFound i q.waiting_queue w))

move_loop_ready :
    (revents : Revents) (left k i : ℕ) (q : Queues)
    → Expects i q
    → revents i ≡ pollin
    → k ≤ i
    → i < k + left
    → 0 < length (move_loop revents left k q).ready_queue
unfolding move_loop
move_loop_ready revents zero k i q h e a b = absurd (omega (arith, a, b))
move_loop_ready revents (suc left) k i q h e a b =
    let r = move_one revents k q in
    elim (eq_cases k i) [
      | inl same ↦
          ready-Extends r (move_loop revents left (suc k) r)
            (move_loop-Extends revents left (suc k) r)
            (subst (λ j. 0 < length (move_one revents j q).ready_queue) (sym same)
              (move_one_ready revents i q h e))
      | inr other ↦
          move_loop_ready revents left (suc k) i r (move_one-Expects revents i k q h) e
            (omega (arith, a, other)) (omega (arith, b))
    ]

-- If a thread waits for an entry that is readable, some thread is ready after `move_queue`.
move_queue_ready :
    (revents : Revents) (i : ℕ) (q : Queues)
    → Waits i q.waiting_queue
    → i < q.nfds
    → revents i ≡ pollin
    → 0 < length (move_queue revents q).ready_queue
unfolding move_queue
move_queue_ready revents i q w l h =
    move_loop_ready revents q.nfds 0 i q (inr w) h (omega arith) (omega (arith, l))

abbrev pub Resumes : Next → Type 0
Resumes n = (r : Queues) × (n ≡ resume r)

jump-Resumes : (xs : List Tcb) (r : Queues) → 0 < length xs → Resumes (jump xs r)
jump-Resumes [] r h = absurd (omega (arith, h))
jump-Resumes (x ∷ xs) r h = (r, refl)

sleep-Resumes :
    (woken : Revents) (i : ℕ) (ws : List Tcb) (r : Queues)
    → r.waiting_queue ≡ ws
    → Waits i ws
    → i < r.nfds
    → woken i ≡ pollin
    → Resumes (sleep ws woken r)
unfolding sleep
sleep-Resumes woken i [] r e w l h = absurd w
sleep-Resumes woken i (x ∷ ws) r e w l h =
    let m = move_queue woken r in
    jump-Resumes m.ready_queue (run_at 0 m)
      (move_queue_ready woken i r (subst (Waits i) (sym e) w) l h)

dispatch-Resumes :
    (woken : Revents) (i : ℕ) (xs : List Tcb) (r : Queues)
    → Waits i r.waiting_queue
    → i < r.nfds
    → woken i ≡ pollin
    → Resumes (dispatch xs woken r)
unfolding dispatch
dispatch-Resumes woken i [] r w l h = sleep-Resumes woken i r.waiting_queue r refl w l h
dispatch-Resumes woken i (x ∷ xs) r w l h = (r, refl)

Waits-last : (ts : List Tcb) (t : Tcb) → Waits t.fd_index (ts ++ t ∷ [])
Waits-last [] t = inl refl
Waits-last (x ∷ ts) t = inr (Waits-last ts t)

move_found_nfds :
    (i : ℕ) (o : Option (Tcb × List Tcb)) (q : Queues) → (move_found i o q).nfds ≡ q.nfds
move_found_nfds i none q = refl
move_found_nfds i (some (t, rest)) q = refl

move_loop_nfds :
    (revents : Revents) (left i : ℕ) (q : Queues) → (move_loop revents left i q).nfds ≡ q.nfds
unfolding move_loop move_one
move_loop_nfds revents zero i q = refl
move_loop_nfds revents (suc left) i q =
    move_loop_nfds revents left (suc i) (move_one revents i q)
    ∙ if_lem (λ (r : Queues). r.nfds ≡ q.nfds) (revents i == pollin)
        (move_found_nfds i (find_waiting i q.waiting_queue) q) refl

-- A thread that blocks in `async_read`, and whose entry the poll without a time limit reports as
-- readable, is no dead end: the scheduler goes on in a thread, whatever the first poll reported.
pub blocked-Resumes :
    (polled woken : Revents) (q : Queues) (t : Tcb)
    → running q ≡ some t
    → t.fd_index < q.nfds
    → woken t.fd_index ≡ pollin
    → Resumes (schedule blocked polled woken q)
unfolding schedule go_on settle fill move_queue
blocked-Resumes polled woken q t h l e =
    let m = move_queue polled q in
    let r = settle blocked t m in
    subst (λ o. Resumes (go_on o blocked woken m))
      (sym (running-Extends q m t (move_queue-Extends polled q) h))
      (dispatch-Resumes woken t.fd_index r.ready_queue r (Waits-last m.waiting_queue t)
        (subst (λ n. t.fd_index < n) (sym (move_loop_nfds polled q.nfds 0 q)) l) e)

sleep_stale :
    (woken : Revents) (ws : List Tcb) (r : Queues)
    → 0 < length ws
    → r.ready_queue ≡ []
    → IsQuiet woken
    → sleep ws woken r ≡ stale
unfolding sleep
sleep_stale woken [] r h e quiet = absurd (omega (arith, h))
sleep_stale woken (x ∷ ws) r h e quiet =
    ap (λ m. jump m.ready_queue (run_at 0 m)) (move_queue-quiet woken r quiet)
    ∙ ap (λ xs. jump xs (run_at 0 r)) e

-- If the only ready thread blocks in `async_read`, and no poll reports an entry as readable and
-- nothing else, as when the writer has closed its end and POLLHUP is set, the scheduler jumps to an
-- entry of the array that is no ready thread.
pub schedule-hang_up :
    (polled woken : Revents) (q : Queues) (t : Tcb)
    → q.ready_queue ≡ t ∷ []
    → running q ≡ some t
    → IsQuiet polled
    → IsQuiet woken
    → schedule blocked polled woken q ≡ stale
unfolding schedule go_on settle dispatch fill
schedule-hang_up polled woken q t one h quiet no_wake =
    let r = settle blocked t q in
    let empty = length_zero r.ready_queue (length-fill t q ∙ ap (λ xs. length xs - 1) one) in
    ap (λ m. go_on (running m) blocked woken m) (move_queue-quiet polled q quiet)
    ∙ ap (λ o. go_on o blocked woken q) h
    ∙ ap (λ xs. dispatch xs woken r) empty
    ∙ sleep_stale woken r.waiting_queue r (omega (arith, length-append q.waiting_queue (t ∷ [])))
        empty no_wake
