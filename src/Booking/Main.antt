-- ===== src/Booking/Main.antt =====
-- `main` of the servers: the start, and one round of its loop over the descriptors.
pub mod Bystanders
pub mod Rounds
mod Tests
use sp.Base.{
  ℕ, zero, suc, Bool, true, false, ◌&&◌, ◌==◌, if◌then◌else◌, Result, ok, err, exited, ◌>>=◌,
}
use sp.Booking.Line.{Input}
use sp.Booking.Server.{Mode, State, Request, Server, World, init_server}
use sp.Booking.Loop.{open_client, on_input}

-- What `accept` reports: a new descriptor, EINTR or EAGAIN, or another failure.
pub data Accepted : Type 0 where
  conn : (conn_fd : ℕ) → Accepted
  again failure : Accepted

abbrev pub on_accept : Accepted → State → Result State
on_accept (conn conn_fd) s = ok (open_client conn_fd s)
on_accept again s = ok s
on_accept failure s = err exited

-- What comes from outside in a round: the descriptors that `select` reports, what `accept` returns,
-- and what there is to read from each client.
pub record Arrivals : Type 0 where
  pub ready : ℕ → Bool
  pub accepted : Accepted
  pub inputs : ℕ → Input

-- The body of the loop over the descriptors, for one in `working_set` or not.
unfoldable pub serve_fd :
    Mode → (listen_fd : ℕ) → Arrivals → (working : Bool) → ℕ → State → Result State
unfolding open_client on_input
serve_fd mode listen_fd a false i s = ok s
serve_fd mode listen_fd a true i s =
    if i == listen_fd then on_accept a.accepted s else on_input mode i (a.inputs i) s

-- The loop, for `left` descriptors from `i` on.
unfoldable pub serve_fds :
    Mode
    → (listen_fd : ℕ) → Arrivals
    → (working_set : ℕ → Bool) → (left i : ℕ) → State
    → Result State
unfolding serve_fd
serve_fds mode listen_fd a working_set zero i s = ok s
serve_fds mode listen_fd a working_set (suc left) i s = do
  t ← serve_fd mode listen_fd a (working_set i) i s
  serve_fds mode listen_fd a working_set left (suc i) t

-- One round of `while (1)`: `select` leaves those of the master set that are ready.
unfoldable pub round : Mode → (maxfd listen_fd : ℕ) → Arrivals → State → Result State
unfolding serve_fds
round mode maxfd listen_fd a s =
    serve_fds mode listen_fd a (λ i. s.server.master_set i && a.ready i) maxfd 0 s
