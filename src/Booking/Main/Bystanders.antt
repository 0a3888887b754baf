-- ===== src/Booking/Main/Bystanders.antt =====
-- What a round does to clients that have sent nothing.
use sp.Base.{
  ℕ, zero, suc, ◌≡◌, refl, sym, ap, ◌∙◌, subst, inl, inr, Bool, true, false, ◌&&◌, ◌==◌, Bool-cases,
  arith, ok, bind-inversion, ok-injective,
}
use sp.Base.Int.{ℤ, pos_part}
use sp.Base.Text.{Bytes}
use sp.Booking.Line.{Input}
use sp.Booking.Server.{
  Mode, read_server, write_server, Request, State, slot, disconnect, write_to, obj_names,
  locked_text, failed_text, is_id, try_lock, settle, set_id, admit, initialize-admit,
}
use sp.Booking.Command.{command, reject}
use sp.Booking.Command.Outcomes.{updated, command_ind}
use sp.Booking.Locks.Turn.{updated-Quiet}
use sp.Booking.Loop.{set_buf, open_client, on_input}
use sp.Booking.Loop.Keeps.{Keeps, is_known, on_input-Keeps}
use sp.Booking.Locks.Users.{put_other}
use sp.Booking.Locks.Frame.{Quiet, write_bookings-Quiet}
use sp.Booking.Main.{
  Accepted, conn, again, failure, on_accept, Arrivals, serve_fd, serve_fds, round,
}

-- What the server knows of client `j`.
pub record Knows (j : ℕ) (r : Request) (waits : Bool) (s : State) : Type 0 where
  pub request : s.server.requests j ≡ r
  pub listens : s.server.master_set j ≡ waits

module _ {i j : ℕ} {r : Request} {waits : Bool} (other : ¬ (j ≡ i)) where
  Knows-disconnect :
      (mode : Mode) (lock : Bool) (s : State)
      → Knows j r waits s
      → Knows j r waits (disconnect mode i lock s)
  unfolding disconnect
  Knows-disconnect mode true s h = record {
    request = put_other i j _ s.server.requests other ∙ h.request;
    listens = put_other i j false s.server.master_set other ∙ h.listens;
  }
  Knows-disconnect mode false s h = record {
    request = put_other i j _ s.server.requests other ∙ h.request;
    listens = put_other i j false s.server.master_set other ∙ h.listens;
  }

  Knows-set_id : (x : ℕ) (s : State) → Knows j r waits s → Knows j r waits (set_id i x s)
  Knows-set_id x s h = record {
    request = put_other i j _ s.server.requests other ∙ h.request;
    listens = h.listens;
  }

  Knows-set_buf :
      (text : Bytes) (s : State) → Knows j r waits s → Knows j r waits (set_buf i text s)
  Knows-set_buf text s h = record {
    request = put_other i j _ s.server.requests other ∙ h.request;
    listens = h.listens;
  }

  Knows-open_client : (s : State) → Knows j r waits s → Knows j r waits (open_client i s)
  unfolding open_client
  Knows-open_client s h =
      let request = put_other i j _ s.server.requests other ∙ h.request in
      let listens = put_other i j true s.server.master_set other ∙ h.listens in
      elim (Bool-cases ((s.server.requests i).id == 0)) [
        | inl new ↦ rw new (record { request = request; listens = listens })
        | inr known ↦ rw known (record { request = request; listens = listens })
      ]

module _ {j : ℕ} {r : Request} {waits : Bool} where
  Knows-Quiet : {s t : State} → Quiet s t → Knows j r waits s → Knows j r waits t
  Knows-Quiet q h = record {
    request = ap (λ server. server.requests j) q.server ∙ h.request;
    listens = ap (λ server. server.master_set j) q.server ∙ h.listens;
  }

  Knows-write_to :
      (i : ℕ) (text : Bytes) (s : State) → Knows j r waits s → Knows j r waits (write_to i text s)
  Knows-write_to i text s h = record { request = h.request; listens = h.listens }

requests-try_lock :
    (mode : Mode) (k : ℕ) (s : State)
    → ((try_lock mode k s).0.server.requests ≡ s.server.requests)
      × ((try_lock mode k s).0.server.master_set ≡ s.server.master_set)
unfolding try_lock
requests-try_lock read_server k s = ground arith
requests-try_lock write_server k s = ground arith

module _ {i j : ℕ} {r : Request} {waits : Bool} (other : ¬ (j ≡ i)) where
  Knows-settle :
      (mode : Mode) (k : ℕ) (p : State × Bool)
      → Knows j r waits p.0
      → Knows j r waits (settle mode i k p).0
  unfolding settle
  Knows-settle mode k (s, true) h =
      Knows-Quiet (write_bookings-Quiet i obj_names (s.world.file k) s) h
  Knows-settle mode k (s, false) h =
      Knows-disconnect other mode false (write_to i locked_text s)
        (Knows-write_to i locked_text s h)

  Knows-admit :
      (mode : Mode) (id : ℤ) (s : State) → Knows j r waits s → Knows j r waits (admit mode i id s).0
  unfolding admit
  Knows-admit mode id s h = elim (Bool-cases (is_id id)) [
    | inl known ↦
        let k = slot (pos_part id) in
        let asked = set_id i (pos_part id) s in
        let before = Knows-set_id other (pos_part id) s h in
        let (requests, master_set) = requests-try_lock mode k asked in
        rw known (
          Knows-settle mode k (try_lock mode k asked) (record {
            request = ap (λ f. f j) requests ∙ before.request;
            listens = ap (λ f. f j) master_set ∙ before.listens;
          }))
    | inr strange ↦ rw strange (
        Knows-disconnect other mode false (write_to i failed_text s)
          (Knows-write_to i failed_text s h))
  ]

  Knows-reject : (text : Bytes) (s : State) → Knows j r waits s → Knows j r waits (reject i text s)
  Knows-reject text s h =
      Knows-disconnect other write_server true (write_to i text s) (Knows-write_to i text s h)

  Knows-command : (s t : State) → Knows j r waits s → command i s ≡ ok t → Knows j r waits t
  Knows-command s t h e =
      command_ind {P = Knows j r waits}
        (record {
          rejected = λ text. Knows-reject text s h;
          changed = λ id now.
              Knows-disconnect other write_server true (updated i id now s)
                (Knows-Quiet (updated-Quiet i id now s) h);
        })
        t e

  Knows-Keeps : (mode : Mode) → Keeps (Knows j r waits) mode i
  Knows-Keeps mode = record {
    by_write = λ text s h. Knows-write_to i text s h;
    by_buf = λ text s h. Knows-set_buf other text s h;
    by_leave = λ s h. Knows-disconnect other mode (is_known i s) s h;
    by_initialize = λ s p new h e.
        let (id, same) = initialize-admit mode i s p e in rw same (Knows-admit mode id s h);
    by_command = λ s t writes known h e. Knows-command s t h e;
  }

  Knows-on_input :
      (mode : Mode) (input : Input) (s t : State)
      → Knows j r waits s
      → on_input mode i input s ≡ ok t
      → Knows j r waits t
  Knows-on_input mode input s t h e = on_input-Keeps mode i (Knows-Keeps mode) input s t h e

and_off : (a b : Bool) → b ≡ false → (a && b) ≡ false
and_off a b h = ground arith

-- `accept` has returned this descriptor.
abbrev pub IsNew : Accepted → ℕ → Type 0
IsNew (conn fd) j = fd ≡ j
IsNew again j = ⊥
IsNew failure j = ⊥

module _ {j : ℕ} {r : Request} {waits : Bool} where
  Knows-on_accept :
      (c : Accepted) (s t : State)
      → ¬ IsNew c j
      → Knows j r waits s
      → on_accept c s ≡ ok t
      → Knows j r waits t
  Knows-on_accept (conn fd) s t old h e =
      subst (Knows j r waits) (ok-injective e) (Knows-open_client (λ same. old (sym same)) s h)
  Knows-on_accept again s t old h e = subst (Knows j r waits) (ok-injective e) h
  Knows-on_accept failure s t old h e = cc

  Knows-serve_fd :
      (mode : Mode) (listen_fd : ℕ) (a : Arrivals) (working : Bool) (i : ℕ) (s t : State)
      → ¬ IsNew a.accepted j
      → (working ≡ true → ¬ (j ≡ i))
      → Knows j r waits s
      → serve_fd mode listen_fd a working i s ≡ ok t
      → Knows j r waits t
  unfolding serve_fd
  Knows-serve_fd mode listen_fd a false i s t old other h e =
      subst (Knows j r waits) (ok-injective e) h
  Knows-serve_fd mode listen_fd a true i s t old other h e = elim (Bool-cases (i == listen_fd)) [
    | inl new ↦ Knows-on_accept a.accepted s t old h (rw new at e)
    | inr client ↦ Knows-on_input (other refl) mode (a.inputs i) s t h (rw client at e)
  ]

  Knows-serve_fds :
      (mode : Mode) (listen_fd : ℕ) (a : Arrivals) (working_set : ℕ → Bool) (left i : ℕ)
      (s t : State)
      → ¬ IsNew a.accepted j
      → working_set j ≡ false
      → Knows j r waits s
      → serve_fds mode listen_fd a working_set left i s ≡ ok t
      → Knows j r waits t
  unfolding serve_fds
  Knows-serve_fds mode listen_fd a w zero i s t old idle h e =
      subst (Knows j r waits) (ok-injective e) h
  Knows-serve_fds mode listen_fd a w (suc left) i s t old idle h e =
      let (v, first, rest) =
        bind-inversion (serve_fd mode listen_fd a (w i) i s)
          (λ v. serve_fds mode listen_fd a w left (suc i) v) e in
      let other = λ (on : w i ≡ true) (same : j ≡ i). absurd (cc (idle, on, same)) in
      Knows-serve_fds mode listen_fd a w left (suc i) v t old idle
        (Knows-serve_fd mode listen_fd a (w i) i s v old other h first) rest

-- A round that comes to its end leaves alone each descriptor that `select` did not report and
-- `accept` did not return: its request is as it was, and so is its place in the master set.
pub round_idle :
    (mode : Mode) (maxfd listen_fd : ℕ) (a : Arrivals) (s t : State) (j : ℕ)
    → a.ready j ≡ false
    → ¬ IsNew a.accepted j
    → round mode maxfd listen_fd a s ≡ ok t
    → (t.server.requests j ≡ s.server.requests j) × (t.server.master_set j ≡ s.server.master_set j)
unfolding round
round_idle mode maxfd listen_fd a s t j idle old e =
    let set = λ (i : ℕ). s.server.master_set i && a.ready i in
    let off = and_off (s.server.master_set j) (a.ready j) idle in
    let known =
      Knows-serve_fds mode listen_fd a set maxfd 0 s t old off
        (record { request = refl; listens = refl }) e in
    (known.request, known.listens)
