-- ===== src/Booking/Command/Outcomes.antt =====
-- The two ways in which a booking command ends, and a rule for what they have in common.
use sp.Base.{
  ℕ, ◌≡◌, subst, true, inl, inr, Bool-cases, List, Option, some, none, ok, bind-inversion,
  ok-injective, ◌>>=◌,
}
use sp.Base.Int.{ℤ, pos, ltb_ℤ}
use sp.Base.Text.{Bytes}
use sp.Booking.Server.{
  write_server, State, slot, disconnect, write_bookings, write_to, obj_names, failed_text,
}
use sp.Booking.Command.{
  add_params, read_params, scan_words, words, obj_num, conclude, apply_params, command, store,
  less_text, more_text, updated_text, reject,
}

-- The state before a client leaves with its bookings changed.
abbrev pub updated : ℕ → ℕ → List ℤ → State → State
updated i id now s =
    store (slot id) now (write_bookings i obj_names now (write_to i (updated_text id) s))

-- What holds of the state after each error reply, and after each change of the bookings.
pub record Outcomes (i : ℕ) (s : State) (P : State → Type 0) : Type 0 where
  pub rejected : (text : Bytes) → P (reject i text s)
  pub changed : (id : ℕ) (now : List ℤ) → P (disconnect write_server i true (updated i id now s))

module _ {i : ℕ} {s : State} {P : State → Type 0} (rule : Outcomes i s P) where
  conclude_ind : (id : ℕ) (sums : Option (ℤ × List ℤ)) → P (conclude i id sums s)
  unfolding conclude
  conclude_ind id none = rule.rejected less_text
  conclude_ind id (some (sum, now)) = elim (Bool-cases (ltb_ℤ (pos 15) sum)) [
    | inl more ↦ rw more (rule.rejected more_text)
    | inr fine ↦ rw fine (rule.changed id now)
  ]

  apply_params_ind :
      (id : ℕ) (params : Option (List ℤ)) (t : State) → apply_params i id params s ≡ ok t → P t
  unfolding apply_params
  apply_params_ind id none t e = subst P (ok-injective e) (rule.rejected failed_text)
  apply_params_ind id (some ps) t e =
      let (sums, _, e') =
        bind-inversion (add_params (pos 0) ps (s.world.file (slot id)))
          (λ sums. ok (conclude i id sums s)) e in
      subst P (ok-injective e') (conclude_ind id sums)

  -- A command that is answered.
  pub command_ind : (t : State) → command i s ≡ ok t → P t
  unfolding command
  command_ind t e =
      let r = s.server.requests i in
      let (ws, _, e') =
        bind-inversion (scan_words obj_num (words r.buf))
          (λ ws. read_params obj_num ws >>= λ params. apply_params i r.id params s) e in
      let (params, _, e'') =
        bind-inversion (read_params obj_num ws) (λ params. apply_params i r.id params s) e' in
      apply_params_ind r.id params t e''
