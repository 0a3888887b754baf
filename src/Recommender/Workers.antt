-- ===== src/Recommender/Workers.antt =====
-- server.c, `Group`: worker threads that draw requests from the queue under the mutex. The state is
-- that of the program between two accesses to shared memory, and any worker may move next.
pub mod Invariant
pub mod Safety
pub mod Weight
pub mod Ends
pub mod Members
use sp.Base.{
  ℕ, suc, ◌/◌, ◌+◌, ◌-◌, ◌<◌, ◌≡◌, Bool, true, false, List, [], ◌∷◌, Option, some, none, ◌==◌,
  if◌then◌else◌,
}
use sp.Recommender.Merge.{merge_thread}

-- Where a worker is. `unlocking`, `testing` and `serving` hold its `cur`.
pub data Pc : Type 0 where
  entering popping reading exited : Pc
  unlocking testing serving : ℕ → Pc

-- `popped` is `front + 1`, which starts at 0; `served` lists the calls of `Recommend`, latest first.
pub record System : Type 0 where
  pub popped : ℕ
  pub locked : Bool
  pub pc : ℕ → Pc
  pub served : List ℕ

-- Worker `i` is at `p` now.
abbrev pub put : ℕ → Pc → (ℕ → Pc) → ℕ → Pc
put i p pcs j = if j == i then p else pcs j

-- `front` before any `pop`, and every worker at the start of `Group`.
abbrev pub start : System
start = record { popped = 0; locked = false; pc = λ i. entering; served = [] }

-- One move of worker `i`, with `num` requests.
pub data Step (num : ℕ) (s : System) : System → Type 0 where
  lock :
      (i : ℕ)
      → s.pc i ≡ entering
      → s.locked ≡ false
      → Step num s (record s { locked = true; pc = put i popping s.pc })
  pop :
      (i : ℕ)
      → s.pc i ≡ popping
      → Step num s (record s { popped = s.popped + 1; pc = put i reading s.pc })
  read_front :
      (i : ℕ)
      → s.pc i ≡ reading
      → Step num s (record s { pc = put i (unlocking (s.popped - 1)) s.pc })
  unlock :
      (i cur : ℕ)
      → s.pc i ≡ unlocking cur
      → Step num s (record s { locked = false; pc = put i (testing cur) s.pc })
  enter_loop :
      (i cur : ℕ)
      → s.pc i ≡ testing cur
      → cur < num
      → Step num s (record s { pc = put i (serving cur) s.pc })
  leave_loop :
      (i cur : ℕ)
      → s.pc i ≡ testing cur
      → ¬ (cur < num)
      → Step num s (record s { pc = put i exited s.pc })
  serve :
      (i cur : ℕ)
      → s.pc i ≡ serving cur
      → Step num s (record s { pc = put i entering s.pc; served = cur ∷ s.served })

pub data Reach (num : ℕ) : System → Type 0 where
  here : Reach num start
  next : {s t : System} → Reach num s → Step num s t → Reach num t

-- The worker that moves.
abbrev pub mover : {num : ℕ} {s t : System} → Step num s t → ℕ
mover (lock i _ _) = i
mover (pop i _) = i
mover (read_front i _) = i
mover (unlock i _ _) = i
mover (enter_loop i _ _ _) = i
mover (leave_loop i _ _ _) = i
mover (serve i _ _) = i

-- The worker threads that `main` creates and joins: `256 / mergeThread`.
abbrev pub num_of_workers : ℕ
num_of_workers = 256 / merge_thread

-- That many moves of the first `workers` workers.
pub data Run (num workers : ℕ) : (moves : ℕ) → System → Type 0 where
  ready : Run num workers 0 start
  after :
      {moves : ℕ} {s t : System}
      → Run num workers moves s
      → (m : Step num s t) → mover m < workers
      → Run num workers (suc moves) t
