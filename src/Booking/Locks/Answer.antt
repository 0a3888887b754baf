-- ===== src/Booking/Locks/Answer.antt =====
-- Each part of the server, from `disconnect` to `initialize`, keeps the locks right.
use sp.Base.{
  ℕ, ◌+◌, ◌-◌, ◌<◌, ◌≡◌, ◌≢◌, refl, sym, ap, ◌∙◌, subst, inl, inr, Bool, true, false, ◌==◌, arith,
  if◌then◌else◌, eq_cases, Bool-cases,
}
use sp.Base.Int.{ℤ, pos_part}
use sp.Booking.Server.{
  Mode, read_server, write_server, Request, State, World, put, slot, disconnect, release_lock,
  locked_text, failed_text, obj_names, write_to, set_id, admit, is_id, settle, try_lock,
}
use sp.Booking.Locks.{ids_of, held, barred, IsId}
use sp.Booking.Locks.Change.{Same, Joins, Leaves}
use sp.Booking.Locks.Frame.{
  Kept, Same-Quiet, barred-Quiet, Kept-Same, Kept-Quiet, Kept-Joins, Kept-Leaves, id-put, put_again,
  write_bookings-Quiet, write_to-Quiet,
}
use sp.Booking.Locks.Attempt.{Outcome, Refused, Granted, try_lock-Outcome}
use sp.Booking.Locks.Users.{put_self, put_other}

held_released :
    (mode : Mode) (b : Bool) (k : ℕ) (w : World) (j : ℕ)
    → held mode (if b then release_lock mode k w else w) j
      ≡ (if b then put k false (held mode w) j else held mode w j)
unfolding release_lock
held_released read_server true k w j = refl
held_released read_server false k w j = refl
held_released write_server true k w j = refl
held_released write_server false k w j = refl

barred_released :
    (mode : Mode) (b : Bool) (k : ℕ) (w : World)
    → barred mode (if b then release_lock mode k w else w) ≡ barred mode w
unfolding release_lock
barred_released read_server true k w = refl
barred_released read_server false k w = refl
barred_released write_server true k w = refl
barred_released write_server false k w = refl

-- A client with an id takes its leave.
disconnect-Leaves :
    (mode : Mode) (i : ℕ) (s : State)
    → ids_of s i ≢ 0
    → IsId (ids_of s i)
    → Leaves mode i (slot (ids_of s i)) s (disconnect mode i true s)
unfolding disconnect
disconnect-Leaves mode i s known valid = record {
  known = elim valid [ inl new ↦ absurd (known new) | inr h ↦ omega (arith, h.0) ];
  ids = λ j. id-put i j _ s.server.requests;
  arr = λ j. refl;
  locks =
      held_released mode (s.server.arr (slot (ids_of s i)) - 1 == 0) (slot (ids_of s i)) s.world;
}

disconnect-Same :
    (mode : Mode) (i : ℕ) (s : State) → ids_of s i ≡ 0 → Same mode s (disconnect mode i false s)
unfolding disconnect
disconnect-Same mode i s new = record {
  ids = λ j. id-put i j _ s.server.requests ∙ put_again i j 0 (ids_of s) new;
  arr = λ k. refl;
  locks = λ k. refl;
}

barred-disconnect :
    (mode : Mode) (i : ℕ) (lock : Bool) (s : State)
    → barred mode (disconnect mode i lock s).world ≡ barred mode s.world
unfolding disconnect
barred-disconnect mode i true s =
    let k = slot (ids_of s i) in barred_released mode (s.server.arr k - 1 == 0) k s.world
barred-disconnect mode i false s = refl

pub Kept-leave :
    {n : ℕ} {mode : Mode} {others : ℕ → Bool} (i : ℕ) (s : State)
    → i < n
    → ids_of s i ≢ 0
    → Kept n mode others s
    → Kept n mode others (disconnect mode i true s)
Kept-leave {n} {mode} i s below known h =
    Kept-Leaves below (disconnect-Leaves mode i s known (h.locks.valid i))
      (barred-disconnect mode i true s) h

pub Kept-hang_up :
    {n : ℕ} {mode : Mode} {others : ℕ → Bool} (i : ℕ) (s : State)
    → ids_of s i ≡ 0
    → Kept n mode others s
    → Kept n mode others (disconnect mode i false s)
Kept-hang_up {n} {mode} i s new h =
    Kept-Same (disconnect-Same mode i s new) (barred-disconnect mode i false s) h

put_over : (i j x y : ℕ) (f g : ℕ → ℕ) → ((m : ℕ) → g m ≡ put i x f m) → f i ≡ y → put i y g j ≡ f j
put_over i j x y f g h e = elim (eq_cases j i) [
  | inl same ↦ put_self i j y g same ∙ sym (ap f same ∙ e)
  | inr other ↦ put_other i j y g other ∙ h j ∙ put_other i j x f other
]

-- The ids once one of them is set.
ids-set_id :
    (i x : ℕ) (s : State) (requests : ℕ → Request)
    → requests ≡ (set_id i x s).server.requests
    → (m : ℕ) → (requests m).id ≡ put i x (ids_of s) m
ids-set_id i x s requests h m = ap (λ rs. (rs m).id) h ∙ id-put i m _ s.server.requests

-- A client whose record could not be locked.
settle-Same :
    (mode : Mode) (i k x : ℕ) (s t : State)
    → ids_of s i ≡ 0
    → Refused mode k (set_id i x s) t
    → Same mode s (settle mode i k (t, false)).0
unfolding settle
settle-Same mode i k x s t new h = record {
  ids = λ j.
      id-put i j _ t.server.requests
      ∙ put_over i j x 0 (ids_of s) (ids_of t)
          (ids-set_id i x s t.server.requests (ap (λ server. server.requests) h.server)) new;
  arr = λ j. ap (λ server. server.arr j) h.server;
  locks = λ j. (Same-Quiet mode t _ (write_to-Quiet i locked_text t)).locks j ∙ h.locks j;
}

-- A client whose record was locked.
Granted-Joins :
    (mode : Mode) (i k : ℕ) (s t : State)
    → k < 20
    → ids_of s i ≡ 0
    → Granted mode k (set_id i (k + 902001) s) t
    → Joins mode i k s t
Granted-Joins mode i k s t small new h = record {
  small = small;
  idle = new;
  free = h.free;
  ids = ids-set_id i (k + 902001) s t.server.requests (ap (λ server. server.requests) h.server);
  arr = λ j. ap (λ server. server.arr j) h.server;
  locks = h.locks;
}

Kept-settle :
    {n : ℕ} (mode : Mode) {others : ℕ → Bool} (i k : ℕ) (s : State) (r : State × Bool)
    → i < n
    → k < 20
    → ids_of s i ≡ 0
    → Outcome mode k (set_id i (k + 902001) s) r
    → Kept n mode others s
    → Kept n mode others (settle mode i k r).0
unfolding settle
Kept-settle mode i k s (t, false) below small new out h =
    Kept-Same (settle-Same mode i k (k + 902001) s t new out)
      (barred-Quiet mode t _ (write_to-Quiet i locked_text t) ∙ out.frame) h
Kept-settle {n} mode {others} i k s (t, true) below small new out h =
    Kept-Quiet (write_bookings-Quiet i obj_names (t.world.file k) t)
      (Kept-Joins below (Granted-Joins mode i k s t small new out) out.unbarred out.frame h)

slot_of_id :
    (id : ℤ)
    → is_id id ≡ true
    → (pos_part id ≡ slot (pos_part id) + 902001) × (slot (pos_part id) < 20)
slot_of_id id h = ground arith

pub Kept-admit :
    {n : ℕ} (mode : Mode) {others : ℕ → Bool} (i : ℕ) (id : ℤ) (s : State)
    → i < n
    → ids_of s i ≡ 0
    → Kept n mode others s
    → Kept n mode others (admit mode i id s).0
unfolding admit
Kept-admit mode i id s below new h = elim (Bool-cases (is_id id)) [
  | inl known ↦
      let (same, small) = slot_of_id id known in
      let k = slot (pos_part id) in
      let out = try_lock-Outcome mode k (set_id i (pos_part id) s) (h.locks.locked k) in
      rw known (
        Kept-settle mode i k s (try_lock mode k (set_id i (pos_part id) s)) below small new
          (subst (λ x. Outcome mode k (set_id i x s) (try_lock mode k (set_id i (pos_part id) s)))
            same out)
          h)
  | inr strange ↦ rw strange (
      Kept-hang_up i (write_to i failed_text s) new (Kept-Quiet (write_to-Quiet i failed_text s) h))
]
