-- ===== src/Booking/Locks/Attempt.antt =====
-- A lock attempt, told by what it does to the tables of locks.
use sp.Base.{
  ℕ, ◌≡◌, refl, sym, ap, ◌∙◌, subst, ◌⊎◌, inl, inr, Bool, true, false, ◌==◌, arith, Bool-cases, ltb,
  ==_iff,
}
use sp.Booking.Server.{Mode, read_server, write_server, State, put, try_lock, add_user}
use sp.Booking.Locks.{held, barred}

put_own : (k j : ℕ) (f : ℕ → Bool) → f k ≡ true → put k true f j ≡ f j
put_own k j f h = ground arith

-- The outcomes of a lock attempt, in the terms of the lock tables.
pub record Refused (mode : Mode) (k : ℕ) (s t : State) : Type 0 where
  pub server : t.server ≡ s.server
  pub locks : (j : ℕ) → held mode t.world j ≡ held mode s.world j
  pub frame : barred mode t.world ≡ barred mode s.world
  pub busy : (barred mode s.world k ≡ true) ⊎ ((mode ≡ write_server) × (s.server.arr k ≡ 1))

pub record Granted (mode : Mode) (k : ℕ) (s t : State) : Type 0 where
  pub server : t.server ≡ (add_user k s).server
  pub locks : (j : ℕ) → held mode t.world j ≡ put k true (held mode s.world) j
  pub frame : barred mode t.world ≡ barred mode s.world
  pub unbarred : barred mode s.world k ≡ false
  pub free : mode ≡ write_server → ¬ (s.server.arr k ≡ 1)

abbrev pub Outcome : Mode → ℕ → State → State × Bool → Type 0
Outcome mode k s (t, false) = Refused mode k s t
Outcome mode k s (t, true) = Granted mode k s t

read_taken :
    (k : ℕ) (s : State) → s.world.write_locked k ≡ true → try_lock read_server k s ≡ (s, false)
unfolding try_lock
read_taken k s h = ground arith

read_granted :
    (k : ℕ) (s : State)
    → s.world.write_locked k ≡ false
    → try_lock read_server k s ≡ (
      let w = s.world in
          add_user k (record s { world = record w { read_locked = put k true w.read_locked } }),
      true,
    )
unfolding try_lock
read_granted k s h = ground arith

write_taken :
    (k : ℕ) (s : State) → s.world.read_locked k ≡ true → try_lock write_server k s ≡ (s, false)
unfolding try_lock
write_taken k s h = ground arith

abbrev locked : ℕ → State → State
locked k s =
    let w = s.world in record s { world = record w { write_locked = put k true w.write_locked } }

write_own :
    (k : ℕ) (s : State)
    → s.world.read_locked k ≡ false
    → (s.server.arr k == 1) ≡ true
    → try_lock write_server k s ≡ (locked k s, false)
unfolding try_lock
write_own k s h e = ground arith

write_granted :
    (k : ℕ) (s : State)
    → s.world.read_locked k ≡ false
    → (s.server.arr k == 1) ≡ false
    → try_lock write_server k s ≡ (add_user k (locked k s), true)
unfolding try_lock
write_granted k s h e = ground arith

pub try_lock-Outcome :
    (mode : Mode) (k : ℕ) (s : State)
    → held mode s.world k ≡ ltb 0 (s.server.arr k)
    → Outcome mode k s (try_lock mode k s)
try_lock-Outcome read_server k s h = elim (Bool-cases (s.world.write_locked k)) [
  | inl taken ↦
      subst (Outcome read_server k s) (sym (read_taken k s taken))
        (record { server = refl; locks = λ j. refl; frame = refl; busy = inl taken })
  | inr allowed ↦ subst (Outcome read_server k s) (sym (read_granted k s allowed)) (record {
    server = refl;
    locks = λ j. refl;
    frame = refl;
    unbarred = allowed;
    free = λ e. absurd (cc);
  })
]
try_lock-Outcome write_server k s h = elim (Bool-cases (s.world.read_locked k)) [
  | inl taken ↦
      subst (Outcome write_server k s) (sym (write_taken k s taken))
        (record { server = refl; locks = λ j. refl; frame = refl; busy = inl taken })
  | inr allowed ↦ elim (Bool-cases (s.server.arr k == 1)) [
    | inl own ↦ subst (Outcome write_server k s) (sym (write_own k s allowed own)) (record {
      server = refl;
      locks = λ j.
          put_own k j s.world.write_locked (h ∙ ap (ltb 0) ((==_iff (s.server.arr k) 1).0 own));
      frame = refl;
      busy = inr (refl, (==_iff (s.server.arr k) 1).0 own);
    })
    | inr no_user ↦
        subst (Outcome write_server k s) (sym (write_granted k s allowed no_user)) (record {
          server = refl;
          locks = λ j. refl;
          frame = refl;
          unbarred = allowed;
          free = λ e one. absurd (ground (arith, no_user, one));
        })
  ]
]
