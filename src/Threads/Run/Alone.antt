-- ===== src/Threads/Run/Alone.antt =====
-- The threads do not disturb each other: each computes and prints what it would alone.
use mathlib.Core.List.{Perm, Pairwise}
use mathlib.Core.List.Perm
use mathlib.Core.Logic.{∥∥₁_prop}
use sp.Base.{
  ℕ, zero, suc, ◌≡◌, ◌≢◌, refl, sym, subst, arith, Bool, true, false, List, [], ◌∷◌, ◌++◌, Option,
  some, none, ◌==◌, if◌then◌else◌, set, get_elem?, All, ok, not_eq, ==_iff,
}
use sp.Base.Sorted.{mem-All, All-of_mem}
use sp.Base.Int.{ℤ}
use sp.Threads.Scheduler.{
  Task, fibonacci_task, collatz_task, max_subarray_task, Tcb, Queues, Source, exited, Next, resume,
  return, stale,
}
use sp.Threads.Scheduler.Conserve.{threads, some_eq}
use sp.Threads.Scheduler.Steps.{ended, Kept}
use sp.Threads.Run.{
  Stop, yields, exits, Turn, turn, turn_of, finish, fibonacci_turn, collatz_turn, max_subarray_turn,
  Line, caught_alarm, caught_tstp, number, Machine, put_line,
}

-- The numbers that the thread with this id has printed, latest first.
unfoldable pub printed : ℕ → List Line → List ℤ
printed k [] = []
printed k (number id n ∷ out) = let rest = printed k out in if id == k then n ∷ rest else rest
printed k (caught_alarm ∷ out) = printed k out
printed k (caught_tstp ∷ out) = printed k out

abbrev pub add_number : Option ℤ → List ℤ → List ℤ
add_number none ls = ls
add_number (some n) ls = n ∷ ls

-- A thread that is all by itself: from `first` it comes to `t`, with these numbers printed, latest
-- first, and its last turn ended so.
pub data Alone (first : Tcb) : Tcb → List ℤ → Stop → Type 0 where
  begins : Alone first first [] yields
  turns :
      {t : Tcb} {ls : List ℤ} {s : Stop}
      → Alone first t ls s
      → s ≢ exits
      → (num : ℤ) (r : Turn) → turn num t ≡ ok r
      → Alone first r.tcb (add_number r.line ls) r.stop

-- A thread that has not left yet.
abbrev pub Lives : Tcb → Tcb → List ℤ → Type 0
Lives first t ls = ∥ ((s : Stop) × Alone first t ls s × (s ≢ exits)) ∥₁

pub printed_own :
    (k : ℕ) (line : Option ℤ) (out : List Line)
    → printed k (put_line k line out) ≡ add_number line (printed k out)
unfolding printed
printed_own k none out = refl
printed_own k (some n) out = rw ((==_iff k k).1 refl) refl

pub printed_other :
    (k id : ℕ) (line : Option ℤ) (out : List Line)
    → ¬ (id ≡ k)
    → printed k (put_line id line out) ≡ printed k out
unfolding printed
printed_other k id none out h = refl
printed_other k id (some n) out h = rw (not_eq id k h) refl

-- The list without the element at a place.
abbrev pub others : List Tcb → ℕ → List Tcb
others [] i = []
others (x ∷ xs) zero = xs
others (x ∷ xs) (suc i) = x ∷ others xs i

pub others-perm :
    (xs : List Tcb) (i : ℕ) (t : Tcb) → get_elem? xs i ≡ some t → Perm (t ∷ others xs i) xs
others-perm [] i t h = cc
others-perm (x ∷ xs) zero t h = Perm.cons' (some_eq h) Perm.rfl
others-perm (x ∷ xs) (suc i) t h =
    Perm.trans (Perm.swap x t (others xs i)) (Perm.cons x (others-perm xs i t h))

pub others-set :
    (xs : List Tcb) (i : ℕ) (t u : Tcb)
    → get_elem? xs i ≡ some t
    → Perm (u ∷ others xs i) (set xs i u)
others-set [] i t u h = cc
others-set (x ∷ xs) zero t u h = Perm.rfl
others-set (x ∷ xs) (suc i) t u h =
    Perm.trans (Perm.swap x u (others xs i)) (Perm.cons x (others-set xs i t u h))

pub running-set :
    (xs : List Tcb) (i : ℕ) (t u : Tcb)
    → get_elem? xs i ≡ some t
    → get_elem? (set xs i u) i ≡ some u
running-set [] i t u h = cc
running-set (x ∷ xs) zero t u h = refl
running-set (x ∷ xs) (suc i) t u h = running-set xs i t u h

All-perm :
    {P : Tcb → Type 0} {xs ys : List Tcb}
    → ((t : Tcb) → IsProp (P t))
    → Perm xs ys
    → All P xs
    → All P ys
All-perm {P} {xs} {ys} prop p h =
    All-of_mem P ys (λ t m. mem-All prop xs h t ((Perm.mem_iff p).1 m))

abbrev pub Differ : Tcb → Tcb → Type 0
Differ a b = a.id ≢ b.id

Differ-perm : {xs ys : List Tcb} → Perm xs ys → Pairwise Differ xs → Pairwise Differ ys
Differ-perm p h = Perm.pairwise (λ a b. hlevel) (λ a b n e. n (sym e)) p h

-- All threads live, and no two have the same id.
pub record Live (origin : ℕ → Tcb) (out : List Line) (ts : List Tcb) : Type 0 where
  pub lives : All (λ t. Lives (origin t.id) t (printed t.id out)) ts
  pub distinct : Pairwise Differ ts

pub Live-perm :
    {origin : ℕ → Tcb} {out : List Line} {ts us : List Tcb}
    → Perm ts us
    → Live origin out ts
    → Live origin out us
Live-perm p h = record {
  lives = All-perm (λ t. ∥∥₁_prop) p h.lives;
  distinct = Differ-perm p h.distinct;
}

-- The threads that the scheduler has to choose from.
abbrev pub LiveNext : (ℕ → Tcb) → List Line → Next → Type 0
LiveNext origin out (resume q) = Live origin out (threads q)
LiveNext origin out _ = Unit

-- What each id has printed is what its thread prints alone.
abbrev pub Settled : (ℕ → Tcb) → List Line → Type 0
Settled origin out =
    (id : ℕ) → ∥ ((t : Tcb) × (s : Stop) × Alone (origin id) t (printed id out) s) ∥₁

pub record Inv (origin : ℕ → Tcb) (m : Machine) : Type 0 where
  pub settled : Settled origin m.out
  pub live : LiveNext origin m.out m.next

pub stays_next :
    {origin : ℕ → Tcb} {out : List Line} (src : Source) (t : Tcb) (q : Queues) (n : Next)
    → ended src t ≡ []
    → Kept src t q n
    → Live origin out (threads q)
    → LiveNext origin out n
stays_next {origin} {out} src t q (resume r) none_left (_, p) h =
    Live-perm (Perm.symm (subst (λ l. Perm (l ++ threads r) (threads q)) none_left p)) h
stays_next src t q return none_left k h = tt
stays_next src t q stale none_left k h = tt

pub exits_next :
    {origin : ℕ → Tcb} {out : List Line} (t : Tcb) (q : Queues) (rest : List Tcb) (n : Next)
    → Perm (t ∷ rest) (threads q)
    → Kept exited t q n
    → Live origin out rest
    → LiveNext origin out n
exits_next t q rest (resume r) p (_, k) h =
    Live-perm (Perm.symm (Perm.cons_inv (Perm.trans k (Perm.symm p)))) h
exits_next t q rest return p k h = tt
exits_next t q rest stale p k h = tt

finish-id : (last : Bool) (n : ℤ) (t : Tcb) → (finish last n t).tcb.id ≡ t.id
finish-id true n t = refl
finish-id false n t = refl

fibonacci_turn-id : (t : Tcb) (r : Turn) → fibonacci_turn t ≡ ok r → r.tcb.id ≡ t.id
unfolding fibonacci_turn
fibonacci_turn-id t r h = ground arith

collatz_turn-id : (t : Tcb) (r : Turn) → collatz_turn t ≡ ok r → r.tcb.id ≡ t.id
unfolding collatz_turn
collatz_turn-id t r h = ground arith

max_subarray_turn-id :
    (num : ℤ) (t : Tcb) (r : Turn) → max_subarray_turn num t ≡ ok r → r.tcb.id ≡ t.id
unfolding max_subarray_turn
max_subarray_turn-id num t r h = ground arith

turn_of-id :
    (task : Task) (num : ℤ) (t : Tcb) (r : Turn) → turn_of task num t ≡ ok r → r.tcb.id ≡ t.id
turn_of-id fibonacci_task num t r h = fibonacci_turn-id t r h
turn_of-id collatz_task num t r h = collatz_turn-id t r h
turn_of-id max_subarray_task num t r h = max_subarray_turn-id num t r h

-- A turn leaves the id as it is.
pub turn-id : (num : ℤ) (t : Tcb) (r : Turn) → turn num t ≡ ok r → r.tcb.id ≡ t.id
unfolding turn
turn-id num t r h = turn_of-id t.task num t r h
