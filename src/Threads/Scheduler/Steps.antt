-- ===== src/Threads/Scheduler/Steps.antt =====
-- What one call of the scheduler does: threads stay, and the running one is a ready one.
use mathlib.Core.List.{Perm, cons-ne-nil, perm_middle, append-nil, append_assoc}
use mathlib.Core.List.Perm
use sp.Base.{
  get_elem?-append, eq_cases, ℕ, zero, suc, ◌+◌, ◌-◌, ◌<◌, ◌≤◌, ◌≡◌, refl, ap, sym, ◌∙◌, subst,
  List, [], ◌∷◌, ◌++◌, Option, some, none, ◌==◌, if◌then◌else◌, length, length-append, length-set,
  length-take, get_elem?, get_or, set, arith, ◌≢◌, ◌⊎◌, inl, inr,
}
use sp.Threads.Scheduler.{
  Tcb, Queues, Revents, Source, signalled, blocked, exited, move_queue, running, fill, settle, Next,
  resume, return, stale, jump, sleep, dispatch, go_on, schedule,
}
use sp.Threads.Scheduler.Conserve.{
  threads, Extends, move_queue-perm, move_queue-Extends, fill-perm, running_length, some_eq,
}

-- The thread that a call removes.
abbrev pub ended : Source → Tcb → List Tcb
ended signalled t = []
ended blocked t = []
ended exited t = t ∷ []

-- What a call that finds `t` running may lead to from `q`.
abbrev pub Kept : Source → Tcb → Queues → Next → Type 0
Kept src t q (resume r) =
    (r.rq_current < length r.ready_queue) × Perm (ended src t ++ threads r) (threads q)
Kept src t q return = (src ≡ exited) × (threads q ≡ t ∷ [])
Kept src t q stale = (src ≢ signalled) × (q.ready_queue ≡ t ∷ [])

snoc_perm : (xs : List Tcb) (t : Tcb) → Perm (xs ++ t ∷ []) (t ∷ xs)
snoc_perm xs t = subst (λ l. Perm (xs ++ t ∷ []) (t ∷ l)) (append-nil xs) (perm_middle xs [])

-- The index that follows, and the one that `fill` leaves.
pub next_lem : (c n : ℕ) → c < n → (if c == n - 1 then 0 else c + 1) < n
next_lem c n h = ground arith

stay_lem : (c n : ℕ) → c < n → n ≢ 1 → (if c == n - 1 then 0 else c) < n - 1
stay_lem c n h e = ground arith

settle-perm :
    (src : Source) (t : Tcb) (q : Queues)
    → running q ≡ some t
    → Perm (ended src t ++ threads (settle src t q)) (threads q)
unfolding settle fill
settle-perm signalled t q h = Perm.rfl
settle-perm blocked t q h =
    let f = (fill t q).ready_queue in
    subst (λ l. Perm l (threads q)) (append_assoc f q.waiting_queue (t ∷ []))
      (Perm.trans (snoc_perm (f ++ q.waiting_queue) t)
        (Perm.append_right q.waiting_queue (fill-perm t q h)))
settle-perm exited t q h = Perm.append_right q.waiting_queue (fill-perm t q h)

one_ready :
    (xs : List Tcb) (i : ℕ) (t : Tcb) → length xs ≡ 1 → get_elem? xs i ≡ some t → xs ≡ t ∷ []
one_ready [] i t h e = absurd (omega (arith, h))
one_ready (x ∷ []) zero t h e = cc
one_ready (x ∷ []) (suc i) t h e = cc
one_ready (x ∷ y ∷ xs) i t h e = absurd (omega (arith, h))

-- The running thread is a ready one again, or none is ready and the only one has left.
abbrev pub Runs : Source → Tcb → Queues → Queues → Type 0
Runs src t q r =
    (r.rq_current < length r.ready_queue)
    ⊎ ((r.ready_queue ≡ []) × ((src ≢ signalled) × (q.ready_queue ≡ t ∷ [])))

pub length-fill : (t : Tcb) (q : Queues) → length (fill t q).ready_queue ≡ length q.ready_queue - 1
unfolding fill
length-fill t q =
    let n = length q.ready_queue - 1 in
    let s = set q.ready_queue q.rq_current (get_or q.ready_queue n t) in
    omega (arith, length-take n s, length-set q.ready_queue q.rq_current (get_or q.ready_queue n t))

pub length_zero : (xs : List Tcb) → length xs ≡ 0 → xs ≡ []
length_zero [] h = refl
length_zero (x ∷ xs) h = absurd (omega (arith, h))

fill-Runs :
    (src : Source) (t : Tcb) (q : Queues)
    → running q ≡ some t
    → src ≢ signalled
    → Runs src t q (fill t q)
unfolding fill
fill-Runs src t q h ne =
    let b = running_length t q.ready_queue q.rq_current h in
    let l = length-fill t q in
    elim (eq_cases (length q.ready_queue) 1) [
      | inl e ↦ inr (
        length_zero (fill t q).ready_queue (omega (arith, l, e)),
        (ne, one_ready q.ready_queue q.rq_current t e h),
      )
      | inr e ↦ inl (
          subst (λ n. (fill t q).rq_current < n) (sym l)
            (stay_lem q.rq_current (length q.ready_queue) b e))
    ]

settle-Runs :
    (src : Source) (t : Tcb) (q : Queues) → running q ≡ some t → Runs src t q (settle src t q)
unfolding settle
settle-Runs signalled t q h =
    let b = running_length t q.ready_queue q.rq_current h in
    inl (next_lem q.rq_current (length q.ready_queue) b)
settle-Runs blocked t q h = elim (fill-Runs blocked t q h (λ e. cc)) [
  | inl l ↦ inl l
  | inr e ↦ inr e
]
settle-Runs exited t q h = fill-Runs exited t q h (λ e. cc)

last_thread :
    (t : Tcb) (q : Queues) → q.ready_queue ≡ t ∷ [] → Perm (t ∷ []) (threads q) → threads q ≡ t ∷ []
last_thread t q one p =
    let all = ap (λ r. r ++ q.waiting_queue) one in
    let gone = Perm.nil-eq (Perm.cons_inv (subst (λ l. Perm (t ∷ []) l) all p)) in
    all ∙ ap (λ w. t ∷ w) (sym gone)

-- The last thread that leaves ends the scheduler.
return_lem :
    (src : Source) (t : Tcb) (q : Queues)
    → src ≢ signalled
    → q.ready_queue ≡ t ∷ []
    → Perm (ended src t ++ []) (threads q)
    → Kept src t q return
return_lem signalled t q ne one p = absurd (ne refl)
return_lem blocked t q ne one p =
    let gone = Perm.nil-eq p in
    absurd (cons-ne-nil t q.waiting_queue (ap (λ r. r ++ q.waiting_queue) (sym one) ∙ sym gone))
return_lem exited t q ne one p = (refl, last_thread t q one p)

jump_lem :
    (src : Source) (t : Tcb) (q : Queues) (xs : List Tcb) (r : Queues)
    → r.ready_queue ≡ xs
    → r.rq_current ≡ 0
    → src ≢ signalled
    → q.ready_queue ≡ t ∷ []
    → Perm (ended src t ++ threads r) (threads q)
    → Kept src t q (jump xs r)
jump_lem src t q [] r e z ne one p = (ne, one)
jump_lem src t q (x ∷ xs) r e z ne one p = let l = ap length e in (omega (arith, z, l), p)

sleep_lem :
    (src : Source) (t : Tcb) (woken : Revents) (q : Queues) (ws : List Tcb) (r : Queues)
    → r.ready_queue ≡ []
    → r.waiting_queue ≡ ws
    → src ≢ signalled
    → q.ready_queue ≡ t ∷ []
    → Perm (ended src t ++ threads r) (threads q)
    → Kept src t q (sleep ws woken r)
unfolding sleep
sleep_lem src t woken q [] r er ew ne one p =
    return_lem src t q ne one
      (subst (λ l. Perm (ended src t ++ l) (threads q)) (ap (λ l. l ++ r.waiting_queue) er ∙ ew) p)
sleep_lem src t woken q (w ∷ ws) r er ew ne one p =
    let m = move_queue woken r in
    jump_lem src t q m.ready_queue (record m { rq_current = 0 }) refl refl ne one
      (Perm.trans (Perm.append_left (ended src t) (move_queue-perm woken r)) p)

dispatch_lem :
    (src : Source) (t : Tcb) (woken : Revents) (q : Queues) (xs : List Tcb) (r : Queues)
    → r.ready_queue ≡ xs
    → Runs src t q r
    → Perm (ended src t ++ threads r) (threads q)
    → Kept src t q (dispatch xs woken r)
unfolding dispatch
dispatch_lem src t woken q [] r e (inl l) p = absurd (omega (arith, l, ap length e))
dispatch_lem src t woken q [] r e (inr (none_ready, (ne, one))) p =
    sleep_lem src t woken q r.waiting_queue r e refl ne one p
dispatch_lem src t woken q (x ∷ xs) r e (inl l) p = (l, p)
dispatch_lem src t woken q (x ∷ xs) r e (inr (none_ready, rest)) p =
    absurd (cons-ne-nil x xs (sym e ∙ none_ready))

-- The moves before the call neither lose a thread nor change the running one.
pub running-Extends :
    (q m : Queues) (t : Tcb) → Extends q m → running q ≡ some t → running m ≡ some t
running-Extends q m t (l, (e, c)) h =
    ap (λ xs. get_elem? xs m.rq_current) e
    ∙ ap (get_elem? (q.ready_queue ++ l)) c
    ∙ get_elem?-append q.ready_queue l q.rq_current h

only_ready :
    (q m : Queues) (t : Tcb)
    → Extends q m
    → running q ≡ some t
    → length m.ready_queue ≤ 1
    → q.ready_queue ≡ t ∷ []
only_ready q m t (l, (e, c)) h one =
    one_ready q.ready_queue q.rq_current t
      (omega (
        arith,
        one,
        ap length e,
        length-append q.ready_queue l,
        running_length t q.ready_queue q.rq_current h,
      ))
      h

Kept-Extends :
    (src : Source) (t : Tcb) (q m : Queues) (n : Next)
    → Extends q m
    → Perm (threads m) (threads q)
    → running q ≡ some t
    → Kept src t m n
    → Kept src t q n
Kept-Extends src t q m (resume r) ext p h (b, k) = (b, Perm.trans k p)
Kept-Extends src t q m return ext p h (e, k) =
    let l = length-append m.ready_queue m.waiting_queue in
    (
      e,
      last_thread t q (only_ready q m t ext h (omega (arith, l, ap length k)))
          (subst (λ l. Perm l (threads q)) k p),
    )
Kept-Extends src t q m stale ext p h (ne, k) =
    (ne, only_ready q m t ext h (omega (arith, ap length k)))

go_on_lem :
    (src : Source) (t : Tcb) (woken : Revents) (m : Queues) (o : Option Tcb)
    → running m ≡ some t
    → o ≡ some t
    → Kept src t m (go_on o src woken m)
unfolding go_on
go_on_lem src t woken m none h e = cc
go_on_lem src t woken m (some u) h e =
    let same = some_eq e in
    subst (λ v. Kept src t m (dispatch (settle src v m).ready_queue woken (settle src v m))) same
      (dispatch_lem src t woken m (settle src t m).ready_queue (settle src t m) refl
        (settle-Runs src t m h) (settle-perm src t m h))

-- If a thread is running, a call of the scheduler goes on in a thread of the ready queue, and no
-- thread is lost or added but the one that exited; or it returns, if the last thread of all exited;
-- or it is at a stale entry, if the only ready thread blocked or exited.
pub schedule_lem :
    (src : Source) (polled woken : Revents) (q : Queues) (t : Tcb)
    → running q ≡ some t
    → Kept src t q (schedule src polled woken q)
unfolding schedule
schedule_lem src polled woken q t h =
    let m = move_queue polled q in
    let ext = move_queue-Extends polled q in
    let now = running-Extends q m t ext h in
    Kept-Extends src t q m (go_on (running m) src woken m) ext (move_queue-perm polled q) h
      (go_on_lem src t woken m (running m) now now)
