-- ===== src/Booking/Server.antt =====
-- The state of the two servers, `disconnect` and `initialize`. What the servers share is the file
-- of records and the kernel's table of record locks.
use sp.Base.{
  ℕ, zero, suc, ◌+◌, ◌-◌, Bool, true, false, ◌&&◌, List, [], ◌∷◌, ◌++◌, Option, some, none, leb,
  ◌==◌, if◌then◌else◌, Result, ok, ◌>>=◌, bind-inversion, ◌≡◌,
}
use sp.Base.Int.{ℤ, pos, negsuc, pos_part}
use sp.Base.Text.{Bytes, codes}
use sp.Base.Decimal.{decimal}
use sp.Booking.Number.{convert}

-- The program is compiled with READ_SERVER or with WRITE_SERVER.
pub data Mode : Type 0 where
  read_server write_server : Mode

pub record Request : Type 0 where
  pub conn_fd : Option ℕ
  pub buf : Bytes
  pub buf_len : ℕ
  pub id : ℕ
  pub wait_for_write : ℕ

-- One process: `requestP`, `master_set` and the lock control array `arr`.
pub record Server : Type 0 where
  pub requests : ℕ → Request
  pub master_set : ℕ → Bool
  pub arr : ℕ → ℕ

-- What lies outside of the process: `bookingState` of each record of the file, the record locks
-- that the read server and the write server hold, and what was written to clients, latest first.
pub record World : Type 0 where
  pub file : ℕ → List ℤ
  pub read_locked : ℕ → Bool
  pub write_locked : ℕ → Bool
  pub sent : List (ℕ × Bytes)

pub record State : Type 0 where
  pub server : Server
  pub world : World

abbrev pub put {ℓ} : {A : Type ℓ} → ℕ → A → (ℕ → A) → ℕ → A
put k a f j = if j == k then a else f j

-- `init_request`; `free_request` does the same.
abbrev pub init_request : Request → Request
init_request r = record r { conn_fd = none; buf_len = 0; id = 0; wait_for_write = 0 }

-- `init_server` clears each request, one at a time, and lets that of the listening socket know its
-- descriptor. The variables of the program start as zeros.
unfoldable pub init_server : (listen_fd : ℕ) → (memory : ℕ → Request) → Server
init_server listen_fd memory = record {
  requests =
      put listen_fd (record (init_request (memory listen_fd)) { conn_fd = some listen_fd })
        (λ i. init_request (memory i));
  master_set = λ i. false;
  arr = λ k. 0;
}

-- The loop of `main` that clears `arr`, with `left` entries to go.
unfoldable pub clear_arr : (left i : ℕ) → (ℕ → ℕ) → ℕ → ℕ
clear_arr zero i arr = arr
clear_arr (suc left) i arr = clear_arr left (suc i) (put i 0 arr)

-- `main` before its loop.
unfoldable pub set_up : (listen_fd : ℕ) → Server → Server
unfolding clear_arr
set_up listen_fd server = record server {
  master_set = put listen_fd true (λ i. false);
  arr = clear_arr 20 0 server.arr;
}

abbrev pub write_to : ℕ → Bytes → State → State
write_to i text s = let w = s.world in record s { world = record w { sent = (i, text) ∷ w.sent } }

-- `fcntl(F_SETLK)`: POSIX grants a read lock unless another process holds a write lock of the
-- record, and a write lock unless another process holds any; a process never blocks itself.
unfoldable pub set_lock : Mode → ℕ → World → Option World
set_lock read_server k w =
    if w.write_locked k then none else some (record w { read_locked = put k true w.read_locked })
set_lock write_server k w =
    if w.read_locked k then none else some (record w { write_locked = put k true w.write_locked })

-- `fcntl` with `F_UNLCK`.
unfoldable pub release_lock : Mode → ℕ → World → World
release_lock read_server k w = record w { read_locked = put k false w.read_locked }
release_lock write_server k w = record w { write_locked = put k false w.write_locked }

-- `id - 902000 - 1`
abbrev pub slot : ℕ → ℕ
slot id = id - 902001

-- The first part of `disconnect`: one user less of the record, and no lock without users.
unfoldable pub drop_user : Mode → ℕ → State → State
unfolding release_lock
drop_user mode k s =
    let server = s.server in
    let left = server.arr k - 1 in
    record s {
      server = record server { arr = put k left server.arr };
      world = if left == 0 then release_lock mode k s.world else s.world;
    }

-- `close`, `FD_CLR` and `free_request`.
unfoldable pub hang_up : ℕ → State → State
hang_up i s =
    let server = s.server in
    record s {
      server = record server {
        requests = put i (init_request (server.requests i)) server.requests;
        master_set = put i false server.master_set;
      };
    }

unfoldable pub disconnect : Mode → ℕ → (lock : Bool) → State → State
unfolding drop_user hang_up
disconnect mode i lock s =
    hang_up i (if lock then drop_user mode (slot (s.server.requests i).id) s else s)

abbrev pub failed_text : Bytes
failed_text = codes "[Error] Operation failed. Please try again.\n"

abbrev pub locked_text : Bytes
locked_text = codes "Locked.\n"

-- `%d`
abbrev pub print_int : ℤ → Bytes
print_int (pos n) = decimal n
print_int (negsuc n) = b'-' ∷ decimal (n + 1)

abbrev pub obj_names : List Bytes
obj_names = codes "Food" ∷ codes "Concert" ∷ codes "Electronics" ∷ []

-- `"%s: %d booked\n"` for each object.
unfoldable pub write_bookings : ℕ → List Bytes → List ℤ → State → State
write_bookings i (name ∷ names) (n ∷ booked) s =
    write_bookings i names booked
      (write_to i (name ++ codes ": " ++ print_int n ++ codes " booked\n") s)
write_bookings i _ _ s = s

abbrev pub is_id : ℤ → Bool
is_id (pos n) = leb 902001 n && leb n 902020
is_id (negsuc n) = false

-- `arr[id] ++`
abbrev pub add_user : ℕ → State → State
add_user k s =
    let server = s.server in
    record s { server = record server { arr = put k (server.arr k + 1) server.arr } }

-- The attempt to lock record `k`, and whether `errno` stayed 0. The write server calls `fcntl` all
-- the same where a client of its own has the record, and `errno` is set to 1 before.
unfoldable pub try_lock : Mode → ℕ → State → State × Bool
unfolding set_lock
try_lock read_server k s = elim (set_lock read_server k s.world) [
  | none ↦ (s, false)
  | some w ↦ (add_user k (record s { world = w }), true)
]
try_lock write_server k s = elim (set_lock write_server k s.world) [
  | none ↦ (s, false)
  | some w ↦
      let granted : State = record s { world = w } in
      if s.server.arr k == 1 then (granted, false) else (add_user k granted, true)
]

-- `requestP[i].id = id`
abbrev pub set_id : ℕ → ℕ → State → State
set_id i id s =
    let server = s.server in
    record s {
      server = record server {
        requests = put i (record (server.requests i) { id = id }) server.requests;
      };
    }

-- What follows the lock attempt.
unfoldable pub settle : Mode → ℕ → ℕ → State × Bool → State × Bool
unfolding disconnect write_bookings
settle mode i k (s, false) = (disconnect mode i false (write_to i locked_text s), false)
settle mode i k (s, true) = (write_bookings i obj_names (s.world.file k) s, true)

-- `initialize` once the id is read. Whether the client is served is the return value, 0 for `true`.
unfoldable pub admit : Mode → ℕ → ℤ → State → State × Bool
unfolding disconnect try_lock settle
admit mode i id s =
    let k = slot (pos_part id) in
    if is_id id
    then settle mode i k (try_lock mode k (set_id i (pos_part id) s))
    else (disconnect mode i false (write_to i failed_text s), false)

unfoldable pub initialize : Mode → ℕ → State → Result (State × Bool)
unfolding convert admit
initialize mode i s = do id ← convert (s.server.requests i).buf; ok (admit mode i id s)

-- A client that `initialize` lets in or turns away was judged by a number.
pub initialize-admit :
    (mode : Mode) (i : ℕ) (s : State) (r : State × Bool)
    → initialize mode i s ≡ ok r
    → (id : ℤ) × (r ≡ admit mode i id s)
unfolding initialize
initialize-admit mode i s r h =
    let (id, _, e) =
      bind-inversion (convert (s.server.requests i).buf) (λ id. ok (admit mode i id s)) h in
    (id, cc)
