-- ===== src/Booking/Locks.antt =====
-- hw1_csiebooking/server.c: who has which record. The ids of the clients, the lock control array
-- and the kernel's locks have to agree at all times.
pub mod Users
pub mod Change
pub mod Attempt
pub mod Frame
pub mod Answer
pub mod Turn
pub mod Apart
pub mod Exclusion
mod Tests
use sp.Base.{ℕ, zero, suc, ◌+◌, ◌≤◌, ◌<◌, ◌≡◌, ◌⊎◌, Bool, true, false, ◌==◌, ltb, if◌then◌else◌}
use sp.Booking.Server.{Mode, read_server, write_server, State, World}

-- The clients below `n` that have record `k`, by the ids that they gave.
unfoldable pub users : ℕ → ℕ → (ℕ → ℕ) → ℕ
users zero k ids = 0
users (suc n) k ids = let rest = users n k ids in if ids n == k + 902001 then rest + 1 else rest

abbrev pub ids_of : State → ℕ → ℕ
ids_of s i = (s.server.requests i).id

-- The records that a server has locked, and those that the other one has.
abbrev pub held : Mode → World → ℕ → Bool
held read_server w = w.read_locked
held write_server w = w.write_locked

abbrev pub barred : Mode → World → ℕ → Bool
barred read_server w = w.write_locked
barred write_server w = w.read_locked

-- No id, or one of the twenty.
abbrev pub IsId : ℕ → Type 0
IsId x = (x ≡ 0) ⊎ ((902001 ≤ x) × (x ≤ 902020))

-- `arr` counts the clients of each record, the server has the lock of a record exactly while it
-- has clients of it, and the write server has at most one.
pub record Locks (n : ℕ) (mode : Mode) (s : State) : Type 0 where
  pub valid : (j : ℕ) → IsId (ids_of s j)
  pub counted : (k : ℕ) → s.server.arr k ≡ users n k (ids_of s)
  pub locked : (k : ℕ) → held mode s.world k ≡ ltb 0 (s.server.arr k)
  pub single : mode ≡ write_server → (k : ℕ) → s.server.arr k ≤ 1
