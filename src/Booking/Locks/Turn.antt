-- ===== src/Booking/Locks/Turn.antt =====
-- The locks over one turn of the server's loop, whatever the client sent.
use sp.Base.{
  ℕ, ◌<◌, ◌∙◌, ◌≡◌, ◌≢◌, refl, sym, ap, subst, inl, inr, Bool, true, false, List, arith, Bool-cases,
  ok,
}
use sp.Base.Int.{ℤ}
use sp.Base.Text.{Bytes}
use sp.Booking.Line.{Input}
use sp.Booking.Server.{
  Mode, write_server, State, disconnect, write_to, initialize, initialize-admit, obj_names,
}
use sp.Booking.Command.{command, updated_text, reject}
use sp.Booking.Command.Outcomes.{updated, command_ind}
use sp.Booking.Loop.{set_buf, on_input}
use sp.Booking.Loop.Keeps.{Keeps, is_known, on_input-Keeps}
use sp.Booking.Locks.{ids_of}
use sp.Booking.Locks.Change.{Same}
use sp.Booking.Locks.Frame.{
  Kept, Quiet, Kept-Same, Kept-Quiet, write_bookings-Quiet, write_to-Quiet, id-put, put_again,
}
use sp.Booking.Locks.Answer.{Kept-leave, Kept-hang_up, Kept-admit}

is_known-true : (i : ℕ) (s : State) → is_known i s ≡ true → ids_of s i ≢ 0
is_known-true i s h = ground arith

is_known-false : (i : ℕ) (s : State) → is_known i s ≡ false → ids_of s i ≡ 0
is_known-false i s h = ground arith

module _ {n : ℕ} {mode : Mode} {others : ℕ → Bool} (i : ℕ) (below : i < n) where
  Kept-by_leave :
      (s : State) → Kept n mode others s → Kept n mode others (disconnect mode i (is_known i s) s)
  Kept-by_leave s h = elim (Bool-cases (is_known i s)) [
    | inl known ↦
        subst (λ b. Kept n mode others (disconnect mode i b s)) (sym known)
          (Kept-leave i s below (is_known-true i s known) h)
    | inr new ↦
        subst (λ b. Kept n mode others (disconnect mode i b s)) (sym new)
          (Kept-hang_up i s (is_known-false i s new) h)
  ]

  Kept-by_initialize :
      (s : State) (r : State × Bool)
      → is_known i s ≡ false
      → Kept n mode others s
      → initialize mode i s ≡ ok r
      → Kept n mode others r.0
  Kept-by_initialize s r new h e =
      let (id, same) = initialize-admit mode i s r e in
      rw same (Kept-admit mode i id s below (is_known-false i s new) h)

set_buf-Same : (mode : Mode) (i : ℕ) (text : Bytes) (s : State) → Same mode s (set_buf i text s)
set_buf-Same mode i text s = record {
  ids = λ j. id-put i j _ s.server.requests ∙ put_again i j _ (ids_of s) refl;
  arr = λ k. refl;
  locks = λ k. refl;
}

pub updated-Quiet : (i id : ℕ) (now : List ℤ) (s : State) → Quiet s (updated i id now s)
updated-Quiet i id now s =
    let h = write_bookings-Quiet i obj_names now (write_to i (updated_text id) s) in
    record { server = h.server; read_locked = h.read_locked; write_locked = h.write_locked }

ids-updated : (i id : ℕ) (now : List ℤ) (s : State) → ids_of (updated i id now s) i ≡ ids_of s i
ids-updated i id now s = ap (λ server. (server.requests i).id) (updated-Quiet i id now s).server

-- The write server's answers to a command, for which the client leaves.
module _ {n : ℕ} {others : ℕ → Bool} (i : ℕ) (below : i < n) where
  Kept-reject :
      (text : Bytes) (s : State)
      → ids_of s i ≢ 0
      → Kept n write_server others s
      → Kept n write_server others (reject i text s)
  Kept-reject text s known h =
      Kept-leave i (write_to i text s) below known (Kept-Quiet (write_to-Quiet i text s) h)

  Kept-command :
      (s t : State)
      → ids_of s i ≢ 0
      → Kept n write_server others s
      → command i s ≡ ok t
      → Kept n write_server others t
  Kept-command s t known h e =
      command_ind {P = Kept n write_server others}
        (record {
          rejected = λ text. Kept-reject text s known h;
          changed = λ id now.
              Kept-leave i _ below (λ new. known (sym (ids-updated i id now s) ∙ new))
                (Kept-Quiet (updated-Quiet i id now s) h);
        })
        t e

Kept-Keeps :
    (n : ℕ) (mode : Mode) (others : ℕ → Bool) (i : ℕ) → i < n → Keeps (Kept n mode others) mode i
Kept-Keeps n mode others i below = record {
  by_write = λ text s h. Kept-Quiet (write_to-Quiet i text s) h;
  by_buf = λ text s h. Kept-Same (set_buf-Same mode i text s) refl h;
  by_leave = λ s h. Kept-by_leave i below s h;
  by_initialize = λ s r new h e. Kept-by_initialize i below s r new h e;
  by_command = λ s t writes known h e.
      let h' = subst (λ m. Kept n m others s) writes h in
      let e' = Kept-command i below s t (is_known-true i s known) h' e in
      subst (λ m. Kept n m others t) (sym writes) e';
}

pub on_input-Kept :
    {n : ℕ} (mode : Mode) {others : ℕ → Bool} (i : ℕ) (input : Input) (s t : State)
    → i < n
    → Kept n mode others s
    → on_input mode i input s ≡ ok t
    → Kept n mode others t
on_input-Kept {n} mode {others} i input s t below h e =
    on_input-Keeps mode i (Kept-Keeps n mode others i below) input s t h e
