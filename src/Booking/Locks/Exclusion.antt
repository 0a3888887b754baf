-- ===== src/Booking/Locks/Exclusion.antt =====
-- What the locks are for: readers of a record or one writer of it, whoever else is served.
use sp.Base.{
  ℕ, ◌+◌, ◌<◌, ◌≡◌, ◌≢◌, refl, sym, ap, ◌∙◌, inl, inr, Bool, true, false, ◌&&◌, ◌==◌, ltb, lt→ltb,
  not, arith, Bool-cases,
}
use sp.Base.Int.{ℤ, pos_part}
use sp.Booking.Server.{
  Mode, read_server, write_server, State, slot, admit, settle, set_id, try_lock, is_id,
}
use sp.Booking.Locks.{users, ids_of, held, IsId, Locks}
use sp.Booking.Locks.Users.{users_pos, users_one}
use sp.Booking.Locks.Attempt.{Outcome, try_lock-Outcome}
use sp.Booking.Locks.Apart.{Servers, view, Reachable, Inv, Inv-Kept, Reachable-Inv}

slot_back : (x : ℕ) → IsId x → x ≢ 0 → x ≡ slot x + 902001
slot_back x (inl none) known = absurd (known none)
slot_back x (inr h) known = omega (arith, h.0)

module _ {n : ℕ} {mode : Mode} {s : State} (h : Locks n mode s) where
  locked-users : (k : ℕ) → held mode s.world k ≡ ltb 0 (users n k (ids_of s))
  locked-users k = h.locked k ∙ ap (ltb 0) (h.counted k)

  -- A client with an id has its record locked.
  locked_known : (i : ℕ) → i < n → ids_of s i ≢ 0 → held mode s.world (slot (ids_of s i)) ≡ true
  locked_known i below known =
      let k = slot (ids_of s i) in
      let some_user = users_pos n k i (ids_of s) below (slot_back (ids_of s i) (h.valid i) known) in
      locked-users k ∙ lt→ltb 0 (users n k (ids_of s)) some_user

-- No client of the read server and client of the write server have the same record.
pub readers_apart :
    {maxfd : ℕ} {s : Servers}
    → Reachable maxfd s
    → (i j : ℕ) → i < maxfd
    → j < maxfd
    → (s.reader.requests i).id ≢ 0
    → (s.reader.requests i).id ≢ (s.writer.requests j).id
readers_apart {maxfd} {s} r i j hi hj known same =
    let inv = Reachable-Inv r in
    let k = slot (s.reader.requests i).id in
    let read = locked_known inv.reader i hi known in
    let write = locked_known inv.writer j hj (λ e. known (same ∙ e)) in
    absurd (cc (inv.apart k read, write, same))

-- Two clients of the write server never have the same record.
pub writers_apart :
    {maxfd : ℕ} {s : Servers}
    → Reachable maxfd s
    → (i j : ℕ) → i < maxfd
    → j < maxfd
    → i ≢ j
    → (s.writer.requests i).id ≢ 0
    → (s.writer.requests i).id ≢ (s.writer.requests j).id
writers_apart {maxfd} {s} r i j hi hj other known same =
    let inv = Reachable-Inv r in
    let k = slot (s.writer.requests i).id in
    let ids = ids_of (view write_server s) in
    let at_i = slot_back (s.writer.requests i).id (inv.writer.valid i) known in
    other (
      users_one maxfd k i j ids hi hj at_i (sym same ∙ at_i)
        (omega (arith, inv.writer.single refl k, inv.writer.counted k)))

-- Whether a record has no client that a new one would disturb.
abbrev pub is_free : Mode → ℕ → ℕ → Servers → Bool
is_free read_server maxfd k s = users maxfd k (ids_of (view write_server s)) == 0
is_free write_server maxfd k s =
    (users maxfd k (ids_of (view read_server s)) == 0)
    && (users maxfd k (ids_of (view write_server s)) == 0)

settle_served : (mode : Mode) (i k : ℕ) (r : State × Bool) → (settle mode i k r).1 ≡ r.1
unfolding settle
settle_served mode i k (s, true) = refl
settle_served mode i k (s, false) = refl

test_zero : (b : Bool) (u : ℕ) → b ≡ ltb 0 u → (u == 0) ≡ not b
test_zero b u h = ground arith

is_zero : (u : ℕ) → u ≡ 0 → (u == 0) ≡ true
is_zero u h = ground arith

not_zero : (u : ℕ) → u ≡ 1 → (u == 0) ≡ false
not_zero u h = ground arith

false_and : (a b : Bool) → a ≡ false → (a && b) ≡ false
false_and a b h = ground arith

and_false : (a b : Bool) → b ≡ false → (a && b) ≡ false
and_false a b h = ground arith

and_true : (a b : Bool) → a ≡ true → b ≡ true → (a && b) ≡ true
and_true a b h e = ground arith

Outcome-is_free :
    {n : ℕ} (mode : Mode) (i x k : ℕ) (s : Servers) (r : State × Bool)
    → Inv n s
    → Outcome mode k (set_id i x (view mode s)) r
    → r.1 ≡ is_free mode n k s
Outcome-is_free {n} read_server i x k s (t, false) inv out =
    let write = test_zero _ _ (locked-users inv.writer k) in
    elim out.busy [ inl taken ↦ sym (write ∙ ap not taken) | inr (wrong, _) ↦ absurd (cc wrong) ]
Outcome-is_free {n} read_server i x k s (t, true) inv out =
    sym (test_zero _ _ (locked-users inv.writer k) ∙ ap not out.unbarred)
Outcome-is_free {n} write_server i x k s (t, false) inv out =
    let read = test_zero _ _ (locked-users inv.reader k) in
    let own = inv.writer.counted k in
    elim out.busy [
      | inl taken ↦ sym (false_and _ _ (read ∙ ap not taken))
      | inr (_, one) ↦ sym (and_false _ _ (not_zero _ (sym own ∙ one)))
    ]
Outcome-is_free {n} write_server i x k s (t, true) inv out =
    let read = test_zero _ _ (locked-users inv.reader k) ∙ ap not out.unbarred in
    let own = inv.writer.counted k in
    let few = inv.writer.single refl k in
    let free = out.free refl in sym (and_true _ _ read (is_zero _ (omega (arith, own, few, free))))

-- A client that gives its id is served exactly if the id is one of the twenty and nobody has the
-- record whom it would disturb: a writer, and for a writer any client.
pub admit_served :
    {maxfd : ℕ} {s : Servers}
    → Reachable maxfd s
    → (mode : Mode) (i : ℕ) (id : ℤ)
    → (admit mode i id (view mode s)).1 ≡ (is_id id && is_free mode maxfd (slot (pos_part id)) s)
unfolding admit
admit_served {maxfd} {s} r mode i id = elim (Bool-cases (is_id id)) [
  | inl known ↦
      let k = slot (pos_part id) in
      let asked = set_id i (pos_part id) (view mode s) in
      rw known (
        settle_served mode i k (try_lock mode k asked)
        ∙ Outcome-is_free mode i (pos_part id) k s (try_lock mode k asked) (Reachable-Inv r)
            (try_lock-Outcome mode k asked ((Inv-Kept mode s (Reachable-Inv r)).locks.locked k)))
  | inr strange ↦ rw strange refl
]
