-- ===== src/Booking/Replies.antt =====
-- What a booking command does: three short words always lead to an answer.
use native.Mathlib.Nat.{zero-add}
use sp.Base.{
  ℕ, ◌≡◌, refl, ap, ◌∙◌, inl, inr, Bool, true, false, List, [], ◌∷◌, Option, some, none, leb,
  length, All, arith, ok, Bool-cases, if◌then◌else◌, lt→ltb,
}
use sp.Base.Int.{ℤ, pos, ltb_ℤ}
use sp.Base.Text.{Bytes}
use sp.Booking.Number.Laws.{IsSmall}
use sp.Booking.Server.{
  Mode, write_server, State, put, slot, disconnect, write_bookings, obj_names, write_to,
  failed_text,
}
use sp.Booking.Command.{
  scan_words, words, conclude, apply_params, command, store, less_text, more_text, updated_text,
  reject,
}
use sp.Booking.Totals.{file-disconnect, file-write_bookings, IsBooked, total}
use sp.Booking.Command.Sums.{
  IsFew-of_total, IsShort, add_params_lem, all_counts, is_allowed, params_of, params_of-IsSmall,
  read_params_lem, sums,
}

-- The client is gone: its request is as `init_request` makes it, and nothing waits for its input.
abbrev pub IsGone : ℕ → State → Type 0
IsGone i s =
    ((s.server.requests i).id ≡ 0)
    × ((s.server.requests i).conn_fd ≡ none)
    × (s.server.master_set i ≡ false)

disconnect-IsGone :
    (mode : Mode) (i : ℕ) (lock : Bool) (s : State) → IsGone i (disconnect mode i lock s)
unfolding disconnect
disconnect-IsGone mode i lock s = ground arith

-- The file after a command with these parameters.
abbrev pub booked_file : ℕ → Option (List ℤ) → (ℕ → List ℤ) → ℕ → List ℤ
booked_file k none file = file
booked_file k (some ps) file =
    if is_allowed (sums ps (file k)) then put k (sums ps (file k)) file else file

le→ltb_ℤ : (n : ℕ) → leb n 15 ≡ true → ltb_ℤ (pos 15) (pos n) ≡ false
le→ltb_ℤ n h = ground arith

gt→ltb_ℤ : (n : ℕ) → leb n 15 ≡ false → ltb_ℤ (pos 15) (pos n) ≡ true
gt→ltb_ℤ n h = ground arith

-- The state before the record is written.
abbrev announced : ℕ → ℕ → List ℤ → State → State
announced i id ns s = write_bookings i obj_names ns (write_to i (updated_text id) s)

conclude_lem :
    (i id : ℕ) (ns : List ℤ) (s : State)
    → let t = conclude i id (if all_counts ns then some (pos (total ns), ns) else none) s in
      (t.world.file ≡ (if is_allowed ns then put (slot id) ns s.world.file else s.world.file))
      × IsGone i t
unfolding conclude
conclude_lem i id ns s = elim (Bool-cases (all_counts ns)) [
  | inl counts ↦ elim (Bool-cases (leb (total ns) 15)) [
    | inl few ↦
        let k = slot id in
        rw (counts, few, le→ltb_ℤ (total ns) few)
          (
            file-disconnect write_server i true (store k ns (announced i id ns s))
                ∙ ap (put k ns) (file-write_bookings i obj_names ns _),
            disconnect-IsGone write_server i true (store k ns (announced i id ns s)),
          )
    | inr many ↦
        rw (counts, many, gt→ltb_ℤ (total ns) many)
          (
            file-disconnect write_server i true (write_to i more_text s),
            disconnect-IsGone write_server i true (write_to i more_text s),
          )
  ]
  | inr negative ↦ rw negative (
    file-disconnect write_server i true (write_to i less_text s),
    disconnect-IsGone write_server i true (write_to i less_text s),
  )
]

scan_words_lem :
    (a b c : Bytes) (rest : List Bytes)
    → All IsShort (a ∷ b ∷ c ∷ [])
    → scan_words 3 (a ∷ b ∷ c ∷ rest) ≡ ok (a ∷ b ∷ c ∷ [])
unfolding scan_words
scan_words_lem a b c rest h = rw (lt→ltb _ _ h.0, lt→ltb _ _ h.1.0, lt→ltb _ _ h.1.1.0)

-- What the sums come to in `add_params`.
abbrev passed : List ℤ → Option (ℤ × List ℤ)
passed ns = if all_counts ns then some (pos (total ns), ns) else none

-- The answer to parameters that were read, and to parameters that were not.
apply_params_lem :
    (i id : ℕ) (params : Option (List ℤ)) (s : State)
    → ((ps : List ℤ) → params ≡ some ps → (length ps ≡ 3) × All IsSmall ps)
    → IsBooked (s.world.file (slot id))
    → (t : State) × (apply_params i id params s ≡ ok t)
      × (t.world.file ≡ booked_file (slot id) params s.world.file)
      × IsGone i t
unfolding apply_params
apply_params_lem i id none s small booked = (
  reject i failed_text s,
  refl,
  file-disconnect write_server i true (write_to i failed_text s),
  disconnect-IsGone write_server i true (write_to i failed_text s),
)
apply_params_lem i id (some ps) s small booked =
    let ns = s.world.file (slot id) in
    let (len, smalls) = small ps refl in
    let few = IsFew-of_total ns 15 (omega arith) booked.few booked.counts in
    let run =
      add_params_lem (pos 0) ps ns refl (omega (arith, booked.three)) smalls few
        (omega (arith, len)) in
    let adds = zero-add (total (sums ps ns)) in
    let (file, gone) = conclude_lem i id (sums ps ns) s in
    (conclude i id (passed (sums ps ns)) s, rw (run, adds), file, gone)

-- A command of three short words, with allowed bookings on file, is always answered: the client is
-- disconnected, and the file changes in its record alone and only if each word is read as a number
-- and the sums are allowed bookings, which are then on file. Digits, or a minus sign and digits, are
-- read as their value, as 0 when the sign stands alone, except for -100000, which is refused as any
-- other word is.
pub command_lem :
    (i : ℕ) (s : State) (a b c : Bytes) (rest : List Bytes)
    → words (s.server.requests i).buf ≡ a ∷ b ∷ c ∷ rest
    → All IsShort (a ∷ b ∷ c ∷ [])
    → IsBooked (s.world.file (slot (s.server.requests i).id))
    → (t : State) × (command i s ≡ ok t)
      × (t.world.file
          ≡ booked_file (slot (s.server.requests i).id) (params_of (a ∷ b ∷ c ∷ [])) s.world.file)
      × IsGone i t
unfolding command
command_lem i s a b c rest found short booked =
    let ws = a ∷ b ∷ c ∷ [] in
    let read = read_params_lem ws short in
    let (t, run, file, gone) =
      apply_params_lem i (s.server.requests i).id (params_of ws) s
        (λ ps e. params_of-IsSmall ws ps short e) booked in
    (t, rw (found, scan_words_lem a b c rest short, read) run, file, gone)
