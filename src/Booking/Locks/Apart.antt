-- ===== src/Booking/Locks/Apart.antt =====
-- Both servers at work on one file: their turns in any order.
use sp.Base.{
  ℕ, zero, suc, ltb, ◌<◌, ◌≡◌, refl, sym, ap, ◌∙◌, inl, inr, Bool, true, false, List, [], ◌==◌,
  arith, Bool-cases, ok,
}
use sp.Base.Int.{ℤ}
use sp.Booking.Line.{Input}
use sp.Booking.Server.{
  Mode, read_server, write_server, Request, Server, World, State, init_server, set_up, clear_arr,
  put, init_request,
}
use sp.Booking.Loop.{open_client, on_input}
use sp.Booking.Locks.{ids_of, held, barred, Locks}
use sp.Booking.Locks.Change.{Same, Locks-Same}
use sp.Booking.Locks.Frame.{Kept, Kept-Same, id-put, put_again}
use sp.Booking.Locks.Users.{users_none}
use sp.Booking.Locks.Turn.{on_input-Kept}

-- The process of each server, and what they share.
pub record Servers : Type 0 where
  pub reader : Server
  pub writer : Server
  pub world : World

-- What one of the servers sees, and the system after a turn of it.
abbrev pub view : Mode → Servers → State
view read_server s = record { server = s.reader; world = s.world }
view write_server s = record { server = s.writer; world = s.world }

abbrev pub after : Mode → Servers → State → Servers
after read_server s t = record { reader = t.server; writer = s.writer; world = t.world }
after write_server s t = record { reader = s.reader; writer = t.server; world = t.world }

-- A turn for one descriptor below `maxfd`. In a turn a server calls `fcntl` at most once, so that
-- the order of the turns is that of the calls.
pub data Move (maxfd : ℕ) (s : Servers) : Servers → Type 0 where
  accepts : (mode : Mode) (fd : ℕ) → Move maxfd s (after mode s (open_client fd (view mode s)))
  answers :
      (mode : Mode) (i : ℕ) (input : Input) (t : State)
      → i < maxfd
      → on_input mode i input (view mode s) ≡ ok t
      → Move maxfd s (after mode s t)

-- Both servers have started, and nobody has locked anything.
unfoldable pub both_start :
    (read_fd write_fd : ℕ) (read_memory write_memory : ℕ → Request) (file : ℕ → List ℤ) → Servers
unfolding init_server set_up
both_start read_fd write_fd read_memory write_memory file = record {
  reader = set_up read_fd (init_server read_fd read_memory);
  writer = set_up write_fd (init_server write_fd write_memory);
  world = record { file = file; read_locked = λ k. false; write_locked = λ k. false; sent = [] };
}

pub data Reachable (maxfd : ℕ) : Servers → Type 0 where
  started :
      (read_fd write_fd : ℕ) (read_memory write_memory : ℕ → Request) (file : ℕ → List ℤ)
      → Reachable maxfd (both_start read_fd write_fd read_memory write_memory file)
  goes_on : {s t : Servers} → Reachable maxfd s → Move maxfd s t → Reachable maxfd t

-- Both servers' locks are right, and no record is locked by both.
pub record Inv (maxfd : ℕ) (s : Servers) : Type 0 where
  pub reader : Locks maxfd read_server (view read_server s)
  pub writer : Locks maxfd write_server (view write_server s)
  pub apart : (k : ℕ) → s.world.read_locked k ≡ true → s.world.write_locked k ≡ false

contrary : (a b : Bool) → (a ≡ true → b ≡ false) → b ≡ true → a ≡ false
contrary true b h e = absurd (cc (h refl))
contrary false b h e = refl

open_client-Quiet :
    (fd : ℕ) (s : State)
    → ((j : ℕ) → ids_of (open_client fd s) j ≡ ids_of s j)
      × ((open_client fd s).server.arr ≡ s.server.arr)
      × ((open_client fd s).world.read_locked ≡ s.world.read_locked)
      × ((open_client fd s).world.write_locked ≡ s.world.write_locked)
unfolding open_client
open_client-Quiet fd s =
    let same = λ (j : ℕ). id-put fd j _ s.server.requests ∙ put_again fd j _ (ids_of s) refl in
    elim (Bool-cases (ids_of s fd == 0)) [
      | inl new ↦ rw new (same, refl, refl, refl)
      | inr known ↦ rw known (same, refl, refl, refl)
    ]

open_client-Same :
    (mode : Mode) (fd : ℕ) (s : State)
    → Same mode s (open_client fd s) × (barred mode (open_client fd s).world ≡ barred mode s.world)
open_client-Same read_server fd s =
    let (ids, arr, reads, writes) = open_client-Quiet fd s in
    (record { ids = ids; arr = λ k. ap (λ f. f k) arr; locks = λ k. ap (λ f. f k) reads }, writes)
open_client-Same write_server fd s =
    let (ids, arr, reads, writes) = open_client-Quiet fd s in
    (record { ids = ids; arr = λ k. ap (λ f. f k) arr; locks = λ k. ap (λ f. f k) writes }, reads)

open_client-Kept :
    {n : ℕ} (mode : Mode) {others : ℕ → Bool} (fd : ℕ) (s : State)
    → Kept n mode others s
    → Kept n mode others (open_client fd s)
open_client-Kept mode fd s h =
    let (same, frame) = open_client-Same mode fd s in Kept-Same same frame h

-- The invariant, as one of the servers sees it.
pub Inv-Kept :
    {n : ℕ} (mode : Mode) (s : Servers) → Inv n s → Kept n mode (barred mode s.world) (view mode s)
Inv-Kept read_server s h = record { locks = h.reader; frame = refl; apart = h.apart }
Inv-Kept write_server s h = record {
  locks = h.writer;
  frame = refl;
  apart = λ k. contrary (s.world.read_locked k) (s.world.write_locked k) (h.apart k);
}

Kept-Inv :
    {n : ℕ} (mode : Mode) (s : Servers) (t : State)
    → Inv n s
    → Kept n mode (barred mode s.world) t
    → Inv n (after mode s t)
Kept-Inv read_server s t h kept = record {
  reader = kept.locks;
  writer =
      Locks-Same
        (record { ids = λ j. refl; arr = λ k. refl; locks = λ k. ap (λ f. f k) kept.frame })
        h.writer;
  apart = λ k own. ap (λ f. f k) kept.frame ∙ kept.apart k own;
}
Kept-Inv write_server s t h kept = record {
  reader =
      Locks-Same
        (record { ids = λ j. refl; arr = λ k. refl; locks = λ k. ap (λ f. f k) kept.frame })
        h.reader;
  writer = kept.locks;
  apart = λ k own.
      contrary (t.world.write_locked k) (s.world.read_locked k) (kept.apart k)
        (ap (λ f. f k) (sym kept.frame) ∙ own);
}

Move-Inv : {n : ℕ} {s t : Servers} → Inv n s → Move n s t → Inv n t
Move-Inv {n} {s} h (accepts mode fd) =
    Kept-Inv mode s _ h (open_client-Kept mode fd (view mode s) (Inv-Kept mode s h))
Move-Inv {n} {s} h (answers mode i input t below run) =
    Kept-Inv mode s t h (on_input-Kept mode i input (view mode s) t below (Inv-Kept mode s h) run)

clear_arr-zero :
    (left i : ℕ) (arr : ℕ → ℕ) → ((k : ℕ) → arr k ≡ 0) → (k : ℕ) → clear_arr left i arr k ≡ 0
unfolding clear_arr
clear_arr-zero zero i arr h k = h k
clear_arr-zero (suc left) i arr h k =
    clear_arr-zero left (suc i) (put i 0 arr) (λ j. put_again i j 0 arr (h i) ∙ h j) k

set_up-Locks :
    (n : ℕ) (mode : Mode) (listen_fd : ℕ) (memory : ℕ → Request) (w : World)
    → ((k : ℕ) → held mode w k ≡ false)
    → Locks n mode (record { server = set_up listen_fd (init_server listen_fd memory); world = w })
unfolding set_up init_server
set_up-Locks n mode listen_fd memory w h =
    let zeros = λ (j : ℕ).
      id-put listen_fd j _ (λ i. init_request (memory i)) ∙ put_again listen_fd j 0 (λ m. 0) refl in
    let clear = clear_arr-zero 20 0 (λ k. 0) (λ k. refl) in
    record {
      valid = λ j. inl (zeros j);
      counted = λ k. clear k ∙ sym (users_none n k _ zeros);
      locked = λ k. h k ∙ ap (ltb 0) (sym (clear k));
      single = λ e k. omega (arith, clear k);
    }

both_start-Inv :
    (n read_fd write_fd : ℕ) (read_memory write_memory : ℕ → Request) (file : ℕ → List ℤ)
    → Inv n (both_start read_fd write_fd read_memory write_memory file)
unfolding both_start
both_start-Inv n read_fd write_fd read_memory write_memory file = record {
  reader = set_up-Locks n read_server read_fd read_memory _ (λ k. refl);
  writer = set_up-Locks n write_server write_fd write_memory _ (λ k. refl);
  apart = λ k own. refl;
}

pub Reachable-Inv : {n : ℕ} {s : Servers} → Reachable n s → Inv n s
Reachable-Inv {n} (started a b c d file) = both_start-Inv n a b c d file
Reachable-Inv (goes_on r step) = Move-Inv (Reachable-Inv r) step
