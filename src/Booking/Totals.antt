-- ===== src/Booking/Totals.antt =====
-- The bookings of every user: three counts, none below zero, 15 in all.
use sp.Base.{
  ℕ, zero, suc, ◌+◌, ◌≤◌, ◌≡◌, refl, ap, ◌∙◌, inl, inr, Bool, true, false, List, [], ◌∷◌, Option,
  some, none, length, All, arith, ok, Bool-cases, bind-inversion, ok-injective, ◌>>=◌, ◌==◌,
}
use sp.Base.Int.{ℤ, pos, pos_part, neg_part, ◌+ℤ◌, +ℤ_parts, ltb_ℤ}
use sp.Base.Text.{Bytes}
use sp.Booking.Line.{Input}
use sp.Booking.Server.{
  Mode, read_server, write_server, State, World, slot, disconnect, drop_user, release_lock,
  try_lock, settle, initialize, initialize-admit, admit, set_id, failed_text, locked_text, is_id,
  write_bookings, obj_names, write_to,
}
use sp.Booking.Command.{
  obj_num, add_params, read_params, scan_words, words, conclude, apply_params, command, store,
  less_text, more_text, updated_text,
}
use sp.Booking.Loop.{on_input}
use sp.Booking.Loop.Keeps.{Keeps, is_known, on_input-Keeps}

abbrev tail : List ℤ → List ℤ
tail [] = []
tail (x ∷ xs) = xs

abbrev pub IsCount : ℤ → Type 0
IsCount n = neg_part n ≡ 0

abbrev pub total : List ℤ → ℕ
total [] = 0
total (n ∷ ns) = pos_part n + total ns

-- What a record of the file should hold.
pub record IsBooked (ns : List ℤ) : Type 0 where
  pub three : length ns ≡ 3
  pub counts : All IsCount ns
  pub few : total ns ≤ 15

add_params-cons :
    (sum p b : ℤ) (ps booked now : List ℤ) (t : ℤ)
    → add_params sum (p ∷ ps) (b ∷ booked) ≡ ok (some (t, now))
    → (now ≡ (p +ℤ b) ∷ tail now)
      × IsCount (p +ℤ b)
      × (add_params (sum +ℤ (p +ℤ b)) ps booked ≡ ok (some (t, tail now)))
unfolding add_params
add_params-cons sum p b ps booked now t h = ground arith

add_params-nil :
    (sum : ℤ) (booked now : List ℤ) (t : ℤ)
    → add_params sum [] booked ≡ ok (some (t, now))
    → (now ≡ []) × (t ≡ sum)
unfolding add_params
add_params-nil sum booked now t h = ground arith

add_params-short :
    (sum p : ℤ) (ps now : List ℤ) (t : ℤ) → add_params sum (p ∷ ps) [] ≡ ok (some (t, now)) → ⊥
unfolding add_params
add_params-short sum p ps now t h = cc

-- A sum that passes has counts only, one for each parameter, and the sum is their total.
add_params_sound :
    (sum : ℤ) (ps booked now : List ℤ) (t : ℤ)
    → add_params sum ps booked ≡ ok (some (t, now))
    → All IsCount now
      × (length now ≡ length ps)
      × (pos_part t + neg_part sum ≡ pos_part sum + total now + neg_part t)
add_params_sound sum [] booked now t h =
    let (e, f) = add_params-nil sum booked now t h in rw (e, f) (tt, refl, omega arith)
add_params_sound sum (p ∷ ps) [] now t h = absurd (add_params-short sum p ps now t h)
add_params_sound sum (p ∷ ps) (b ∷ booked) now t h =
    let (split, count, rest) = add_params-cons sum p b ps booked now t h in
    let (counts, len, adds) = add_params_sound (sum +ℤ (p +ℤ b)) ps booked (tail now) t rest in
    rw split ((count, counts), omega (arith, len), omega (arith, adds, +ℤ_parts sum (p +ℤ b)))

pub file-write_bookings :
    (i : ℕ) (names : List Bytes) (ns : List ℤ) (s : State)
    → (write_bookings i names ns s).world.file ≡ s.world.file
unfolding write_bookings
file-write_bookings i [] ns s = refl
file-write_bookings i (x ∷ names) [] s = refl
file-write_bookings i (x ∷ names) (n ∷ ns) s = file-write_bookings i names ns _

file-release_lock : (mode : Mode) (k : ℕ) (w : World) → (release_lock mode k w).file ≡ w.file
unfolding release_lock
file-release_lock read_server k w = refl
file-release_lock write_server k w = refl

file-drop_user : (mode : Mode) (k : ℕ) (s : State) → (drop_user mode k s).world.file ≡ s.world.file
unfolding drop_user
file-drop_user mode k s = ground (arith, file-release_lock mode k s.world)

pub file-disconnect :
    (mode : Mode) (i : ℕ) (lock : Bool) (s : State)
    → (disconnect mode i lock s).world.file ≡ s.world.file
unfolding disconnect
file-disconnect mode i true s = file-drop_user mode (slot (s.server.requests i).id) s
file-disconnect mode i false s = refl

file-try_lock : (mode : Mode) (k : ℕ) (s : State) → (try_lock mode k s).0.world.file ≡ s.world.file
unfolding try_lock
file-try_lock read_server k s = ground arith
file-try_lock write_server k s = ground arith

file-settle :
    (mode : Mode) (i k : ℕ) (r : State × Bool) → (settle mode i k r).0.world.file ≡ r.0.world.file
unfolding settle
file-settle mode i k (s, true) = file-write_bookings i obj_names (s.world.file k) s
file-settle mode i k (s, false) = file-disconnect mode i false (write_to i locked_text s)

file-admit :
    (mode : Mode) (i : ℕ) (id : ℤ) (s : State) → (admit mode i id s).0.world.file ≡ s.world.file
unfolding admit
file-admit mode i id s = elim (Bool-cases (is_id id)) [
  | inl known ↦
      let k = slot (pos_part id) in
      rw known (
        file-settle mode i k (try_lock mode k (set_id i (pos_part id) s))
        ∙ file-try_lock mode k (set_id i (pos_part id) s))
  | inr strange ↦ rw strange (file-disconnect mode i false (write_to i failed_text s))
]

-- `s` holds allowed bookings only.
abbrev pub AllBooked : State → Type 0
AllBooked s = (k : ℕ) → IsBooked (s.world.file k)

AllBooked-same : (s t : State) → t.world.file ≡ s.world.file → AllBooked s → AllBooked t
AllBooked-same s t e h k = rw e (h k)

AllBooked-disconnect :
    (mode : Mode) (i : ℕ) (lock : Bool) (s : State)
    → AllBooked s
    → AllBooked (disconnect mode i lock s)
AllBooked-disconnect mode i lock s h =
    AllBooked-same s (disconnect mode i lock s) (file-disconnect mode i lock s) h

AllBooked-initialize :
    (mode : Mode) (i : ℕ) (s : State) (r : State × Bool)
    → initialize mode i s ≡ ok r
    → AllBooked s
    → AllBooked r.0
AllBooked-initialize mode i s r e h =
    let (id, same) = initialize-admit mode i s r e in
    rw same (AllBooked-same s (admit mode i id s).0 (file-admit mode i id s) h)

read_params-cons :
    (n : ℕ) (w : Bytes) (ws : List Bytes) (params : List ℤ)
    → read_params (suc n) (w ∷ ws) ≡ ok (some params)
    → (length params ≡ suc (length (tail params))) × (read_params n ws ≡ ok (some (tail params)))
unfolding read_params
read_params-cons n w ws params h = ground arith

read_params-length :
    (n : ℕ) (ws : List Bytes) (params : List ℤ)
    → read_params n ws ≡ ok (some params)
    → length params ≡ n
unfolding read_params
read_params-length zero ws params h = ground arith
read_params-length (suc n) [] params h = cc
read_params-length (suc n) (w ∷ ws) params h =
    let (len, rest) = read_params-cons n w ws params h in
    omega (arith, len, read_params-length n ws (tail params) rest)

AllBooked-store :
    (k : ℕ) (ns : List ℤ) (s : State) → IsBooked ns → AllBooked s → AllBooked (store k ns s)
AllBooked-store k ns s h all j = elim (Bool-cases (j == k)) [
  | inl same ↦ rw same h
  | inr other ↦ rw other (all j)
]

AllBooked-conclude :
    (i id : ℕ) (params : List ℤ) (sums : Option (ℤ × List ℤ)) (s : State)
    → length params ≡ 3
    → add_params (pos 0) params (s.world.file (slot id)) ≡ ok sums
    → AllBooked s
    → AllBooked (conclude i id sums s)
unfolding conclude
AllBooked-conclude i id params none s three run h =
    AllBooked-disconnect write_server i true (write_to i less_text s) h
AllBooked-conclude i id params (some (sum, now)) s three run h =
    elim (Bool-cases (ltb_ℤ (pos 15) sum)) [
      | inl more ↦ rw more (AllBooked-disconnect write_server i true (write_to i more_text s) h)
      | inr fine ↦
          let (counts, len, adds) =
            add_params_sound (pos 0) params (s.world.file (slot id)) now sum run in
          let booked : IsBooked now = record {
            three = omega (arith, len);
            counts = counts;
            few = ground (arith, adds);
          } in
          let t = write_bookings i obj_names now (write_to i (updated_text id) s) in
          let h' = AllBooked-same s t (file-write_bookings i obj_names now _) h in
          rw fine (
            AllBooked-disconnect write_server i true (store (slot id) now t)
              (AllBooked-store (slot id) now t booked h'))
    ]

AllBooked-apply_params :
    (i id : ℕ) (params : Option (List ℤ)) (s t : State)
    → ((ps : List ℤ) → params ≡ some ps → length ps ≡ 3)
    → apply_params i id params s ≡ ok t
    → AllBooked s
    → AllBooked t
unfolding apply_params
AllBooked-apply_params i id none s t three h all =
    rw (← ok-injective h) (AllBooked-disconnect write_server i true (write_to i failed_text s) all)
AllBooked-apply_params i id (some ps) s t three h all =
    let (sums, run, e) =
      bind-inversion (add_params (pos 0) ps (s.world.file (slot id)))
        (λ sums. ok (conclude i id sums s)) h in
    rw (← ok-injective e) (AllBooked-conclude i id ps sums s (three ps refl) run all)

AllBooked-command : (i : ℕ) (s t : State) → command i s ≡ ok t → AllBooked s → AllBooked t
unfolding command
AllBooked-command i s t h all =
    let r = s.server.requests i in
    let (ws, _, h') =
      bind-inversion (scan_words obj_num (words r.buf))
        (λ ws. read_params obj_num ws >>= λ params. apply_params i r.id params s) h in
    let (params, read, h'') =
      bind-inversion (read_params obj_num ws) (λ params. apply_params i r.id params s) h' in
    let three =
      λ (ps : List ℤ) (e : params ≡ some ps). read_params-length 3 ws ps (read ∙ ap ok e) in
    AllBooked-apply_params i r.id params s t three h'' all

AllBooked-Keeps : (mode : Mode) (i : ℕ) → Keeps AllBooked mode i
AllBooked-Keeps mode i = record {
  by_write = λ text s h. h;
  by_buf = λ text s h. h;
  by_leave = λ s h. AllBooked-disconnect mode i (is_known i s) s h;
  by_initialize = λ s r new h e. AllBooked-initialize mode i s r e h;
  by_command = λ s t writes known h e. AllBooked-command i s t e h;
}

-- Whatever a client sends, and to whichever server: if each record of the file holds three counts,
-- none below zero and no more than 15 in all, and the server goes on, the same holds afterwards.
pub on_input-AllBooked :
    (mode : Mode) (i : ℕ) (input : Input) (s t : State)
    → AllBooked s
    → on_input mode i input s ≡ ok t
    → AllBooked t
on_input-AllBooked mode i input s t h e =
    on_input-Keeps mode i (AllBooked-Keeps mode i) input s t h e
