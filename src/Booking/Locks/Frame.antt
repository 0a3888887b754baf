-- ===== src/Booking/Locks/Frame.antt =====
-- What one server's turn must leave as it is, for the locks of both to stay right.
use sp.Base.{
  ℕ, ◌-◌, ◌<◌, ◌≡◌, refl, sym, ap, ◌∙◌, inl, inr, Bool, true, false, List, [], ◌∷◌, ◌==◌, arith,
  if◌then◌else◌, eq_cases,
}
use sp.Base.Int.{ℤ}
use sp.Base.Text.{Bytes}
use sp.Booking.Server.{
  Mode, read_server, write_server, Request, State, put, write_bookings, write_to,
}
use sp.Booking.Locks.{held, barred, Locks}
use sp.Booking.Locks.Change.{Same, Locks-Same, Joins, Locks-Joins, Leaves, Locks-Leaves}
use sp.Booking.Locks.Users.{put_other}

-- The locks are right, the other server's are the ones in `others`, and no record has both.
pub record Kept (n : ℕ) (mode : Mode) (others : ℕ → Bool) (s : State) : Type 0 where
  pub locks : Locks n mode s
  pub frame : barred mode s.world ≡ others
  pub apart : (k : ℕ) → held mode s.world k ≡ true → others k ≡ false

-- Two states with the same process and the same locks.
pub record Quiet (s t : State) : Type 0 where
  pub server : t.server ≡ s.server
  pub read_locked : t.world.read_locked ≡ s.world.read_locked
  pub write_locked : t.world.write_locked ≡ s.world.write_locked

pub write_bookings-Quiet :
    (i : ℕ) (names : List Bytes) (ns : List ℤ) (s : State) → Quiet s (write_bookings i names ns s)
unfolding write_bookings
write_bookings-Quiet i [] ns s = record { server = refl; read_locked = refl; write_locked = refl }
write_bookings-Quiet i (x ∷ names) [] s = record {
  server = refl;
  read_locked = refl;
  write_locked = refl;
}
write_bookings-Quiet i (x ∷ names) (n ∷ ns) s =
    let h = write_bookings-Quiet i names ns _ in
    record { server = h.server; read_locked = h.read_locked; write_locked = h.write_locked }

pub Same-Quiet : (mode : Mode) (s t : State) → Quiet s t → Same mode s t
Same-Quiet read_server s t h = record {
  ids = λ j. ap (λ server. (server.requests j).id) h.server;
  arr = λ k. ap (λ server. server.arr k) h.server;
  locks = λ k. ap (λ f. f k) h.read_locked;
}
Same-Quiet write_server s t h = record {
  ids = λ j. ap (λ server. (server.requests j).id) h.server;
  arr = λ k. ap (λ server. server.arr k) h.server;
  locks = λ k. ap (λ f. f k) h.write_locked;
}

pub barred-Quiet :
    (mode : Mode) (s t : State) → Quiet s t → barred mode t.world ≡ barred mode s.world
barred-Quiet read_server s t h = h.write_locked
barred-Quiet write_server s t h = h.read_locked

-- An `id` after a write to one of the requests.
pub id-put :
    (i j : ℕ) (r : Request) (rs : ℕ → Request) → (put i r rs j).id ≡ put i r.id (λ m. (rs m).id) j
id-put i j r rs = ground arith

still_on :
    (b : Bool) (k j : ℕ) (f : ℕ → Bool) → (if b then put k false f j else f j) ≡ true → f j ≡ true
still_on b k j f h = ground arith

module _ {n : ℕ} {mode : Mode} {others : ℕ → Bool} {s t : State} where
  pub Kept-Same :
      Same mode s t
      → barred mode t.world ≡ barred mode s.world
      → Kept n mode others s
      → Kept n mode others t
  Kept-Same e same h = record {
    locks = Locks-Same e h.locks;
    frame = same ∙ h.frame;
    apart = λ k own. h.apart k (sym (e.locks k) ∙ own);
  }

  pub Kept-Quiet : Quiet s t → Kept n mode others s → Kept n mode others t
  Kept-Quiet e h = Kept-Same (Same-Quiet mode s t e) (barred-Quiet mode s t e) h

  pub Kept-Joins :
      {i k : ℕ}
      → i < n
      → Joins mode i k s t
      → barred mode s.world k ≡ false
      → barred mode t.world ≡ barred mode s.world
      → Kept n mode others s
      → Kept n mode others t
  Kept-Joins {i} {k} below e free same h = record {
    locks = Locks-Joins below e h.locks;
    frame = same ∙ h.frame;
    apart = λ j own. elim (eq_cases j k) [
      | inl at_k ↦ ap (λ f. f j) (sym h.frame) ∙ ap (barred mode s.world) at_k ∙ free
      | inr other ↦
          h.apart j (sym (put_other k j true (held mode s.world) other) ∙ sym (e.locks j) ∙ own)
    ];
  }

  pub Kept-Leaves :
      {i k : ℕ}
      → i < n
      → Leaves mode i k s t
      → barred mode t.world ≡ barred mode s.world
      → Kept n mode others s
      → Kept n mode others t
  Kept-Leaves {i} {k} below e same h = record {
    locks = Locks-Leaves below e h.locks;
    frame = same ∙ h.frame;
    apart = λ j own.
        h.apart j
          (still_on (s.server.arr k - 1 == 0) k j (held mode s.world) (sym (e.locks j) ∙ own));
  }

pub put_again : (i j x : ℕ) (f : ℕ → ℕ) → f i ≡ x → put i x f j ≡ f j
put_again i j x f h = ground arith

pub write_to-Quiet : (i : ℕ) (text : Bytes) (s : State) → Quiet s (write_to i text s)
write_to-Quiet i text s = record { server = refl; read_locked = refl; write_locked = refl }
