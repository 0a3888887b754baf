-- ===== src/Booking/Main/Rounds.antt =====
-- Whole rounds of both servers lead only where single turns do.
use sp.Base.{
  ℕ, zero, suc, ◌+◌, ◌<◌, ◌≤◌, ◌≡◌, refl, sym, ap, ◌∙◌, subst, Bool, true, false, inl, inr,
  Bool-cases, ◌&&◌, ◌==◌, arith, ok, bind-inversion, ok-injective,
}
use sp.Booking.Line.{Input}
use sp.Booking.Server.{Mode, read_server, write_server, State}
use sp.Booking.Loop.{open_client, on_input}
use sp.Booking.Main.{
  Accepted, conn, again, failure, on_accept, Arrivals, serve_fd, serve_fds, round,
}
use sp.Booking.Locks.Apart.{Servers, view, after, Move, accepts, answers, Reachable, goes_on}

-- Two turns of one server, of which the second sees what the first left.
view-after : (mode : Mode) (s : Servers) (t : State) → view mode (after mode s t) ≡ t
view-after read_server s t = refl
view-after write_server s t = refl

after-after :
    (mode : Mode) (s : Servers) (t u : State) → after mode (after mode s t) u ≡ after mode s u
after-after read_server s t u = refl
after-after write_server s t u = refl

after_same : (mode : Mode) (s : Servers) → after mode s (view mode s) ≡ s
after_same read_server s = refl
after_same write_server s = refl

-- A turn in a round that has come to `t`.
Reachable-Move :
    {n : ℕ} (mode : Mode) (s : Servers) (t u : State)
    → Reachable n (after mode s t)
    → ((r : Servers) → view mode r ≡ t → Move n r (after mode r u))
    → Reachable n (after mode s u)
Reachable-Move {n} mode s t u reached move =
    subst (Reachable n) (after-after mode s t u)
      (goes_on reached (move (after mode s t) (view-after mode s t)))

on_accept-Reachable :
    {n : ℕ} (mode : Mode) (c : Accepted) (s : Servers) (t u : State)
    → Reachable n (after mode s t)
    → on_accept c t ≡ ok u
    → Reachable n (after mode s u)
on_accept-Reachable {n} mode (conn fd) s t u reached e =
    subst (λ x. Reachable n (after mode s x)) (ok-injective e)
      (Reachable-Move mode s t (open_client fd t) reached
        λ r seen. subst (λ x. Move n r (after mode r (open_client fd x))) seen (accepts mode fd))
on_accept-Reachable {n} mode again s t u reached e =
    subst (λ x. Reachable n (after mode s x)) (ok-injective e) reached
on_accept-Reachable mode failure s t u reached e = cc

on_input-Reachable :
    {n : ℕ} (mode : Mode) (i : ℕ) (input : Input) (s : Servers) (t u : State)
    → i < n
    → Reachable n (after mode s t)
    → on_input mode i input t ≡ ok u
    → Reachable n (after mode s u)
on_input-Reachable {n} mode i input s t u below reached e =
    Reachable-Move mode s t u reached
      λ r seen. answers mode i input u below (ap (on_input mode i input) seen ∙ e)

serve_fd-Reachable :
    {n : ℕ} (mode : Mode) (listen_fd : ℕ) (a : Arrivals) (working : Bool) (i : ℕ) (s : Servers)
    (t u : State)
    → i < n
    → Reachable n (after mode s t)
    → serve_fd mode listen_fd a working i t ≡ ok u
    → Reachable n (after mode s u)
unfolding serve_fd
serve_fd-Reachable {n} mode listen_fd a false i s t u below reached e =
    subst (λ x. Reachable n (after mode s x)) (ok-injective e) reached
serve_fd-Reachable {n} mode listen_fd a true i s t u below reached e =
    elim (Bool-cases (i == listen_fd)) [
      | inl new ↦ on_accept-Reachable mode a.accepted s t u reached (rw new at e)
      | inr old ↦ on_input-Reachable mode i (a.inputs i) s t u below reached (rw old at e)
    ]

serve_fds-Reachable :
    {n : ℕ} (mode : Mode) (listen_fd : ℕ) (a : Arrivals) (working_set : ℕ → Bool) (left i : ℕ)
    (s : Servers) (t u : State)
    → i + left ≤ n
    → Reachable n (after mode s t)
    → serve_fds mode listen_fd a working_set left i t ≡ ok u
    → Reachable n (after mode s u)
unfolding serve_fds
serve_fds-Reachable {n} mode listen_fd a w zero i s t u below reached e =
    subst (λ x. Reachable n (after mode s x)) (ok-injective e) reached
serve_fds-Reachable {n} mode listen_fd a w (suc left) i s t u below reached e =
    let (v, first, rest) =
      bind-inversion (serve_fd mode listen_fd a (w i) i t)
        (λ v. serve_fds mode listen_fd a w left (suc i) v) e in
    serve_fds-Reachable mode listen_fd a w left (suc i) s v u (omega (arith, below))
      (serve_fd-Reachable mode listen_fd a (w i) i s t v (omega (arith, below)) reached first) rest

-- A round of one of the servers, in whatever state turns of both have led to, leads to such a state
-- again if it comes to its end.
pub round-Reachable :
    {maxfd : ℕ} (mode : Mode) (listen_fd : ℕ) (a : Arrivals) (s : Servers) (t : State)
    → Reachable maxfd s
    → round mode maxfd listen_fd a (view mode s) ≡ ok t
    → Reachable maxfd (after mode s t)
unfolding round
round-Reachable {maxfd} mode listen_fd a s t reached e =
    let v = view mode s in
    serve_fds-Reachable mode listen_fd a (λ i. v.server.master_set i && a.ready i) maxfd 0 s v t
      (omega arith) (subst (Reachable maxfd) (sym (after_same mode s)) reached) e
