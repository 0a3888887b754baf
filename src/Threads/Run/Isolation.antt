-- ===== src/Threads/Run/Isolation.antt =====
-- Whatever the order of turns, signals and polls, each thread goes its own way.
use mathlib.Core.List.{Perm, Pairwise, Pairwise-cons}
use mathlib.Core.List.Perm
use mathlib.Core.Logic.{∥∥₁_map, ∥∥₁_prop}
use sp.Base.{
  ℕ, ◌≡◌, ◌≢◌, refl, sym, ◌∙◌, subst, eq_cases, inl, inr, Bool-cases, List, [], ◌∷◌, ◌++◌, Option,
  some, none, bind-inversion, ok-injective, ok, All,
}
use sp.Base.Sorted.{mem-All, All-of_mem}
use sp.Base.Int.{ℤ}
use sp.Threads.Scheduler.{
  Tcb, Queues, Revents, signalled, blocked, exited, running, Next, resume, return, stale, schedule,
  begin, jump,
}
use sp.Threads.Scheduler.Conserve.{threads}
use sp.Threads.Scheduler.Steps.{schedule_lem}
use sp.Threads.Run.{
  Stop, yields, reads, exits, Turn, turn, Line, caught_tstp, caught_alarm, Pending, thread_yield,
  Machine, put_line, switch, set_running, run_thread, run_next, run, start_threading, Event,
  stop_key, alarm_rings, runs, Runs, here, goes_on,
}
use sp.Threads.Run.Alone.{
  printed, printed_own, printed_other, Alone, begins, turns, Lives, others, others-perm, others-set,
  running-set, Differ, Live, Live-perm, LiveNext, Settled, Inv, stays_next, exits_next, turn-id,
}

-- The threads around the running one.
abbrev rest_of : Queues → List Tcb
rest_of q = others q.ready_queue q.rq_current ++ q.waiting_queue

rest_of-perm : (q : Queues) (t : Tcb) → running q ≡ some t → Perm (t ∷ rest_of q) (threads q)
rest_of-perm q t h = Perm.append_right q.waiting_queue (others-perm q.ready_queue q.rq_current t h)

rest_of-set :
    (q : Queues) (t u : Tcb) → running q ≡ some t → Perm (u ∷ rest_of q) (threads (set_running u q))
rest_of-set q t u h =
    Perm.append_right q.waiting_queue (others-set q.ready_queue q.rq_current t u h)

module _ (origin : ℕ → Tcb) (out : List Line) (num : ℤ) (t : Tcb) (r : Turn)
    (run_t : turn num t ≡ ok r) where
  turn-Alone :
      Lives (origin t.id) t (printed t.id out)
      → ∥ Alone (origin t.id) r.tcb (printed t.id (put_line t.id r.line out)) r.stop ∥₁
  turn-Alone h = ∥∥₁_map h λ (s, a, going).
      subst (λ ls. Alone (origin t.id) r.tcb ls r.stop) (sym (printed_own t.id r.line out))
        (turns a going num r run_t)

  -- The other threads have printed nothing.
  Live-others :
      {ts : List Tcb} → Live origin out (t ∷ ts) → Live origin (put_line t.id r.line out) ts
  Live-others {ts} h =
      let (apart, distinct) = Pairwise-cons.0 h.distinct in
      record {
        lives =
            All-of_mem (λ u. Lives (origin u.id) u (printed u.id (put_line t.id r.line out))) ts
              λ u m.
                subst (Lives (origin u.id) u) (sym (printed_other u.id t.id r.line out (apart u m)))
                  (mem-All (λ v. ∥∥₁_prop) ts h.lives.1 u m);
        distinct = distinct;
      }

  Live-turn :
      {ts : List Tcb}
      → Live origin out (t ∷ ts)
      → r.stop ≢ exits
      → Live origin (put_line t.id r.line out) (r.tcb ∷ ts)
  Live-turn {ts} h going =
      let (apart, distinct) = Pairwise-cons.0 h.distinct in
      let rest = Live-others h in
      let same = turn-id num t r run_t in
      record {
        lives = (
          subst (λ k. Lives (origin k) r.tcb (printed k (put_line t.id r.line out))) (sym same)
              (∥∥₁_map (turn-Alone h.lives.0) λ a. (r.stop, a, going)),
          rest.lives,
        );
        distinct = Pairwise-cons.1 (λ u m e. apart u m (sym same ∙ e), distinct);
      }

  Settled-turn :
      Lives (origin t.id) t (printed t.id out)
      → Settled origin out
      → Settled origin (put_line t.id r.line out)
  Settled-turn h settled id = elim (eq_cases t.id id) [
    | inl own ↦
        subst
          (λ k. ∥ (
            (u : Tcb) × (s : Stop) × Alone (origin k) u (printed k (put_line t.id r.line out))
              s) ∥₁)
          own (∥∥₁_map (turn-Alone h) λ a. (r.tcb, r.stop, a))
    | inr other ↦
        subst (λ ls. ∥ ((u : Tcb) × (s : Stop) × Alone (origin id) u ls s) ∥₁)
          (sym (printed_other id t.id r.line out other)) (settled id)
  ]

-- The line of a signal handler is nobody's.
LiveNext-tstp :
    (origin : ℕ → Tcb) (out : List Line) (n : Next)
    → LiveNext origin out n
    → LiveNext origin (caught_tstp ∷ out) n
unfolding printed
LiveNext-tstp origin out (resume q) h = record { lives = h.lives; distinct = h.distinct }
LiveNext-tstp origin out return h = tt
LiveNext-tstp origin out stale h = tt

LiveNext-alarm :
    (origin : ℕ → Tcb) (out : List Line) (n : Next)
    → LiveNext origin out n
    → LiveNext origin (caught_alarm ∷ out) n
unfolding printed
LiveNext-alarm origin out (resume q) h = record { lives = h.lives; distinct = h.distinct }
LiveNext-alarm origin out return h = tt
LiveNext-alarm origin out stale h = tt

-- The scheduler, called with the turn's thread at the place of the old one.
module _ (origin : ℕ → Tcb) (out : List Line) (q : Queues) (u : Tcb) (runs_u : running q ≡ some u)
    (polled woken : Revents) where
  after_signal :
      Live origin out (threads q) → LiveNext origin out (schedule signalled polled woken q)
  after_signal h =
      stays_next signalled u q (schedule signalled polled woken q) refl
        (schedule_lem signalled polled woken q u runs_u) h

  after_read : Live origin out (threads q) → LiveNext origin out (schedule blocked polled woken q)
  after_read h =
      stays_next blocked u q (schedule blocked polled woken q) refl
        (schedule_lem blocked polled woken q u runs_u) h

  after_exit :
      (rest : List Tcb)
      → Perm (u ∷ rest) (threads q)
      → Live origin out rest
      → LiveNext origin out (schedule exited polled woken q)
  after_exit rest p h =
      exits_next u q rest (schedule exited polled woken q) p
        (schedule_lem exited polled woken q u runs_u) h

  after_yield :
      (p : Pending)
      → Settled origin out
      → Live origin out (threads q)
      → Inv origin (switch yields polled woken q p out)
  unfolding thread_yield printed
  after_yield p settled h = elim (Bool-cases p.tstp) [
    | inl key ↦ rw key (record {
      settled = settled;
      live = LiveNext-tstp origin out (schedule signalled polled woken q) (after_signal h);
    })
    | inr no_key ↦ elim (Bool-cases p.alrm) [
      | inl rings ↦
          rw (no_key, rings)
            (record {
              settled = settled;
              live = LiveNext-alarm origin out (schedule signalled polled woken q) (after_signal h);
            })
      | inr calm ↦ rw (no_key, calm) (record { settled = settled; live = h })
    ]
  ]

  after_switch :
      (s : Stop) (p : Pending) (rest : List Tcb)
      → Perm (u ∷ rest) (threads q)
      → Settled origin out
      → (s ≢ exits → Live origin out (u ∷ rest))
      → Live origin out rest
      → Inv origin (switch s polled woken q p out)
  after_switch yields p rest perm settled more h =
      after_yield p settled (Live-perm perm (more (λ e. cc)))
  after_switch reads p rest perm settled more h = record {
    settled = settled;
    live = after_read (Live-perm perm (more (λ e. cc)));
  }
  after_switch exits p rest perm settled more h = record {
    settled = settled;
    live = after_exit rest perm h;
  }

run_thread-Inv :
    {origin : ℕ → Tcb} (num : ℤ) (polled woken : Revents) (q : Queues) (m n : Machine)
    (o : Option Tcb)
    → running q ≡ o
    → Settled origin m.out
    → Live origin m.out (threads q)
    → run_thread o num polled woken q m ≡ ok n
    → Inv origin n
run_thread-Inv num polled woken q m n none h settled live e = cc
run_thread-Inv {origin} num polled woken q m n (some t) h settled live e =
    let (r, run_t, out) =
      bind-inversion (turn num t)
        (λ r.
          ok (
            switch r.stop polled woken (set_running r.tcb q) m.pending
              (put_line t.id r.line m.out)))
        e in
    let around = Live-perm (Perm.symm (rest_of-perm q t h)) live in
    subst (Inv origin) (ok-injective out) (
      after_switch origin (put_line t.id r.line m.out) (set_running r.tcb q) r.tcb
        (running-set q.ready_queue q.rq_current t r.tcb h) polled woken r.stop m.pending (rest_of q)
        (rest_of-set q t r.tcb h) (Settled-turn origin m.out num t r run_t around.lives.0 settled)
        (Live-turn origin m.out num t r run_t around)
        (Live-others origin m.out num t r run_t around))

run_next-Inv :
    {origin : ℕ → Tcb} (num : ℤ) (polled woken : Revents) (m n : Machine) (next : Next)
    → Inv origin m
    → LiveNext origin m.out next
    → run_next num polled woken m next ≡ ok n
    → Inv origin n
run_next-Inv num polled woken m n (resume q) inv live e =
    run_thread-Inv num polled woken q m n (running q) refl inv.settled live e
run_next-Inv {origin} num polled woken m n return inv live e =
    subst (Inv origin) (ok-injective e) inv
run_next-Inv num polled woken m n stale inv live e = cc

Event-Inv : {origin : ℕ → Tcb} {m n : Machine} → Inv origin m → Event m n → Inv origin n
unfolding run
Event-Inv inv stop_key = record { settled = inv.settled; live = inv.live }
Event-Inv inv alarm_rings = record { settled = inv.settled; live = inv.live }
Event-Inv {m} inv (runs num polled woken n e) =
    run_next-Inv num polled woken m n m.next inv inv.live e

Runs-Inv : {origin : ℕ → Tcb} {first m : Machine} → Inv origin first → Runs first m → Inv origin m
Runs-Inv inv here = inv
Runs-Inv inv (goes_on r step) = Event-Inv (Runs-Inv inv r) step

-- The threads with which the program starts: each is the one of its id, and no two share an id.
pub record IsFresh (origin : ℕ → Tcb) (q : Queues) : Type 0 where
  pub own : All (λ t. t ≡ origin t.id) (threads q)
  pub distinct : Pairwise Differ (threads q)

All-imp : {P Q : Tcb → Type 0} (ts : List Tcb) → ((t : Tcb) → P t → Q t) → All P ts → All Q ts
All-imp [] f h = tt
All-imp (t ∷ ts) f h = (f t h.0, All-imp ts f h.1)

jump-LiveNext :
    (origin : ℕ → Tcb) (out : List Line) (ts : List Tcb) (q : Queues)
    → Live origin out (threads q)
    → LiveNext origin out (jump ts q)
jump-LiveNext origin out [] q h = tt
jump-LiveNext origin out (t ∷ ts) q h = h

fresh-Alone : (origin : ℕ → Tcb) (t : Tcb) → t ≡ origin t.id → Alone (origin t.id) t [] yields
fresh-Alone origin t e = subst (λ u. Alone (origin t.id) u [] yields) (sym e) begins

start-Inv : (origin : ℕ → Tcb) (q : Queues) → IsFresh origin q → Inv origin (start_threading q)
unfolding start_threading begin printed
start-Inv origin q h = record {
  settled = λ id. ∣ (origin id, yields, begins) ∣₁;
  live =
      jump-LiveNext origin [] q.ready_queue (record q { rq_current = 0 })
        (record {
          lives = All-imp (threads q) (λ t e. ∣ (yields, fresh-Alone origin t e, λ x. cc) ∣₁) h.own;
          distinct = h.distinct;
        });
}

-- However signals arrive, and whatever the polls report and the inputs are: what the threads of an
-- id have printed, and how far they are, is what the thread of that id that the program started with
-- prints and comes to when it runs alone.
pub isolation :
    (origin : ℕ → Tcb) (q : Queues) (m : Machine)
    → IsFresh origin q
    → Runs (start_threading q) m
    → (id : ℕ) → ∥ ((t : Tcb) × (s : Stop) × Alone (origin id) t (printed id m.out) s) ∥₁
isolation origin q m h r = (Runs-Inv (start-Inv origin q h) r).settled
