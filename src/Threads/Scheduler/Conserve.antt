-- ===== src/Threads/Scheduler/Conserve.antt =====
-- No thread is lost between the queues.
use mathlib.Core.List.{Perm, append-nil, append_assoc}
use mathlib.Core.List.Perm
use sp.Base.{
  ℕ, zero, suc, ◌-◌, ◌<◌, ◌≡◌, refl, ap, sym, ◌∙◌, subst, List, [], ◌∷◌, ◌++◌, Option, some, none,
  ◌==◌, length, get_elem?, get_or, set, take, arith, if_lem,
}
use sp.Threads.Scheduler.{
  Tcb, Queues, Revents, pollin, find_waiting, keep_front, move_found, move_one, move_loop,
  move_queue, running, fill,
}

-- All threads that are not at an end.
abbrev pub threads : Queues → List Tcb
threads q = q.ready_queue ++ q.waiting_queue

-- What `find_waiting` returns splits the queue.
abbrev pub Splits : List Tcb → Option (Tcb × List Tcb) → Type 0
Splits ts none = Unit
Splits ts (some (t, rest)) = Perm (t ∷ rest) ts

keep_front-Splits :
    (x : Tcb) (ts : List Tcb) (o : Option (Tcb × List Tcb))
    → Splits ts o
    → Splits (x ∷ ts) (keep_front x o)
keep_front-Splits x ts none h = tt
keep_front-Splits x ts (some (t, rest)) h = Perm.trans (Perm.swap x t rest) (Perm.cons x h)

find_waiting-Splits : (i : ℕ) (ts : List Tcb) → Splits ts (find_waiting i ts)
unfolding find_waiting
find_waiting-Splits i [] = tt
find_waiting-Splits i (x ∷ ts) =
    if_lem (Splits (x ∷ ts)) (x.fd_index == i) Perm.rfl
      (keep_front-Splits x ts (find_waiting i ts) (find_waiting-Splits i ts))

move_found-perm :
    (i : ℕ) (q : Queues) (o : Option (Tcb × List Tcb))
    → Splits q.waiting_queue o
    → Perm (threads (move_found i o q)) (threads q)
move_found-perm i q none h = Perm.rfl
move_found-perm i q (some (t, rest)) h =
    subst (λ l. Perm l (threads q)) (sym (append_assoc q.ready_queue (t ∷ []) rest))
      (Perm.append_left q.ready_queue h)

move_one-perm :
    (revents : Revents) (i : ℕ) (q : Queues) → Perm (threads (move_one revents i q)) (threads q)
unfolding move_one
move_one-perm revents i q =
    if_lem (λ r. Perm (threads r) (threads q)) (revents i == pollin)
      (move_found-perm i q (find_waiting i q.waiting_queue) (find_waiting-Splits i q.waiting_queue))
      Perm.rfl

move_loop-perm :
    (revents : Revents) (left i : ℕ) (q : Queues)
    → Perm (threads (move_loop revents left i q)) (threads q)
unfolding move_loop
move_loop-perm revents zero i q = Perm.rfl
move_loop-perm revents (suc left) i q =
    Perm.trans (move_loop-perm revents left (suc i) (move_one revents i q))
      (move_one-perm revents i q)

pub move_queue-perm :
    (revents : Revents) (q : Queues) → Perm (threads (move_queue revents q)) (threads q)
unfolding move_queue
move_queue-perm revents q = move_loop-perm revents q.nfds 0 q

-- Threads are added behind the ready ones, and `rq_current` stays.
abbrev pub Extends : Queues → Queues → Type 0
Extends q r =
    (l : List Tcb) × ((r.ready_queue ≡ q.ready_queue ++ l) × (r.rq_current ≡ q.rq_current))

move_found-Extends :
    (i : ℕ) (o : Option (Tcb × List Tcb)) (q : Queues) → Extends q (move_found i o q)
move_found-Extends i none q = ([], (sym (append-nil q.ready_queue), refl))
move_found-Extends i (some (t, rest)) q = (t ∷ [], (refl, refl))

pub move_one-Extends : (revents : Revents) (i : ℕ) (q : Queues) → Extends q (move_one revents i q)
unfolding move_one
move_one-Extends revents i q =
    if_lem (Extends q) (revents i == pollin)
      (move_found-Extends i (find_waiting i q.waiting_queue) q)
      ([], (sym (append-nil q.ready_queue), refl))

pub move_loop-Extends :
    (revents : Revents) (left i : ℕ) (q : Queues) → Extends q (move_loop revents left i q)
unfolding move_loop
move_loop-Extends revents zero i q = ([], (sym (append-nil q.ready_queue), refl))
move_loop-Extends revents (suc left) i q =
    let (l, (e, c)) = move_one-Extends revents i q in
    let (m, (f, d)) = move_loop-Extends revents left (suc i) (move_one revents i q) in
    (l ++ m, (f ∙ ap (λ r. r ++ m) e ∙ append_assoc q.ready_queue l m, d ∙ c))

pub move_queue-Extends : (revents : Revents) (q : Queues) → Extends q (move_queue revents q)
unfolding move_queue
move_queue-Extends revents q = move_loop-Extends revents q.nfds 0 q

last_perm :
    (xs : List Tcb) (n : ℕ) (t : Tcb) → length xs ≡ suc n → Perm (get_or xs n t ∷ take n xs) xs
last_perm [] n t h = absurd (omega (arith, h))
last_perm (x ∷ []) zero t h = Perm.rfl
last_perm (x ∷ []) (suc n) t h = absurd (omega (arith, h))
last_perm (x ∷ y ∷ xs) zero t h = absurd (omega (arith, h))
last_perm (x ∷ y ∷ xs) (suc n) t h =
    Perm.trans (Perm.swap x (get_or (y ∷ xs) n t) (take n (y ∷ xs)))
      (Perm.cons x (last_perm (y ∷ xs) n t (omega (arith, h))))

pub some_eq : {x t : Tcb} → some x ≡ some t → t ≡ x
some_eq h = cc

-- The running thread leaves, and the others stay.
fill_list :
    (t : Tcb) (xs : List Tcb) (i n : ℕ)
    → get_elem? xs i ≡ some t
    → length xs ≡ suc n
    → Perm (t ∷ take n (set xs i (get_or xs n t))) xs
fill_list t [] i n h e = cc
fill_list t (x ∷ []) (suc i) n h e = cc
fill_list t (x ∷ []) zero (suc n) h e = absurd (omega (arith, e))
fill_list t (x ∷ []) zero zero h e = Perm.cons' (some_eq h) Perm.rfl
fill_list t (x ∷ y ∷ xs) i zero h e = absurd (omega (arith, e))
fill_list t (x ∷ y ∷ xs) zero (suc n) h e =
    Perm.cons' (some_eq h) (last_perm (y ∷ xs) n t (omega (arith, e)))
fill_list t (x ∷ y ∷ xs) (suc i) (suc n) h e =
    Perm.trans (Perm.swap x t (take n (set (y ∷ xs) i (get_or (y ∷ xs) n t))))
      (Perm.cons x (fill_list t (y ∷ xs) i n h (omega (arith, e))))

pub running_length : (t : Tcb) (xs : List Tcb) (i : ℕ) → get_elem? xs i ≡ some t → i < length xs
running_length t [] i h = cc
running_length t (x ∷ xs) zero h = omega arith
running_length t (x ∷ xs) (suc i) h = omega (arith, running_length t xs i h)

pub fill-perm :
    (t : Tcb) (q : Queues) → running q ≡ some t → Perm (t ∷ (fill t q).ready_queue) q.ready_queue
unfolding fill
fill-perm t q h =
    let b = running_length t q.ready_queue q.rq_current h in
    fill_list t q.ready_queue q.rq_current (length q.ready_queue - 1) h (omega (arith, b))
