-- ===== src/Booking/Loop/Keeps.antt =====
-- What has to be shown of a property of states so that the server's loop keeps it.
use sp.Base.{
  ℕ, ◌≡◌, refl, subst, inl, inr, Bool, true, false, ok, Bool-cases, bind-inversion, ok-injective,
  ◌>>=◌, ◌==◌, if◌then◌else◌,
}
use sp.Base.Text.{Bytes}
use sp.Booking.Line.{Input, handle_read, Read, bad, closed, line}
use sp.Booking.Server.{Mode, read_server, write_server, State, disconnect, initialize, write_to}
use sp.Booking.Command.{command}
use sp.Booking.Loop.{on_line, on_input, on_read, welcome, leave_text, modify_text, is_exit, set_buf}

-- Client `i` has given its id.
abbrev pub is_known : ℕ → State → Bool
is_known i s = if (s.server.requests i).id == 0 then false else true

pub record Keeps (P : State → Type 0) (mode : Mode) (i : ℕ) : Type 0 where
  pub by_write : (text : Bytes) (s : State) → P s → P (write_to i text s)
  pub by_buf : (text : Bytes) (s : State) → P s → P (set_buf i text s)
  pub by_leave : (s : State) → P s → P (disconnect mode i (is_known i s) s)
  pub by_initialize :
      (s : State) (r : State × Bool)
      → is_known i s ≡ false
      → P s
      → initialize mode i s ≡ ok r
      → P r.0
  pub by_command :
      (s t : State) → mode ≡ write_server → is_known i s ≡ true → P s → command i s ≡ ok t → P t

module _ {P : State → Type 0} {mode : Mode} {i : ℕ} (keeps : Keeps P mode i) where
  welcome-Keeps : (text : Bytes) (r : State × Bool) → P r.0 → P (welcome i text r)
  welcome-Keeps text (s, true) h = keeps.by_write text s h
  welcome-Keeps text (s, false) h = h

  initialize-Keeps :
      (text : Bytes) (s t : State)
      → is_known i s ≡ false
      → P s
      → (initialize mode i s >>= λ r. ok (welcome i text r)) ≡ ok t
      → P t
  initialize-Keeps text s t new h e =
      let (r, run, out) = bind-inversion (initialize mode i s) (λ r. ok (welcome i text r)) e in
      subst P (ok-injective out) (welcome-Keeps text r (keeps.by_initialize s r new h run))

on_line-Keeps :
    {P : State → Type 0} (mode : Mode) (i : ℕ)
    → Keeps P mode i
    → (s t : State) → P s
    → on_line mode i s ≡ ok t
    → P t
unfolding on_line
on_line-Keeps {P} read_server i keeps s t h e = elim (Bool-cases ((s.server.requests i).id == 0)) [
  | inl new ↦ initialize-Keeps keeps leave_text s t (rw new) h (rw new at e)
  | inr known ↦ elim (Bool-cases (is_exit (s.server.requests i).buf)) [
    | inl leaves ↦
        subst P (ok-injective (rw (known, leaves) at e)) (rw known at (keeps.by_leave s h))
    | inr stays ↦ subst P (ok-injective (rw (known, stays) at e)) h
  ]
]
on_line-Keeps {P} write_server i keeps s t h e = elim (Bool-cases ((s.server.requests i).id == 0)) [
  | inl new ↦ initialize-Keeps keeps modify_text s t (rw new) h (rw new at e)
  | inr known ↦ keeps.by_command s t refl (rw known) h (rw known at e)
]

on_read-Keeps :
    {P : State → Type 0} (mode : Mode) (i : ℕ)
    → Keeps P mode i
    → (got : Read) (s t : State) → P s
    → on_read mode i got s ≡ ok t
    → P t
on_read-Keeps {P} mode i keeps bad s t h e = subst P (ok-injective e) h
on_read-Keeps {P} mode i keeps closed s t h e = elim (Bool-cases ((s.server.requests i).id == 0)) [
  | inl new ↦ subst P (ok-injective (rw new at e)) (rw new at (keeps.by_leave s h))
  | inr known ↦ subst P (ok-injective (rw known at e)) (rw known at (keeps.by_leave s h))
]
on_read-Keeps {P} mode i keeps (line text) s t h e =
    on_line-Keeps mode i keeps (set_buf i text s) t (keeps.by_buf text s h) e

-- A property that the parts keep is kept by the server's answer to any input.
pub on_input-Keeps :
    {P : State → Type 0} (mode : Mode) (i : ℕ)
    → Keeps P mode i
    → (input : Input) (s t : State) → P s
    → on_input mode i input s ≡ ok t
    → P t
unfolding on_input
on_input-Keeps mode i keeps input s t h e =
    let (got, _, e') = bind-inversion (handle_read input) (λ got. on_read mode i got s) e in
    on_read-Keeps mode i keeps got s t h e'
