-- ===== src/Booking/Command.antt =====
-- The write server's booking command: three numbers to be added to a client's bookings.
pub mod Sums
pub mod Outcomes
use sp.Base.{
  ℕ, zero, suc, Bool, true, false, ◌||◌, ◌&&◌, List, [], ◌∷◌, ◌++◌, Option, some, none, ltb, leb,
  ◌==◌, if◌then◌else◌, length, Result, ok, err, guard, bad_access, ◌>>=◌, ◌>>◌,
}
use mathlib.Core.Option
use sp.Base.Int.{ℤ, pos, ltb_ℤ, eqb_ℤ, add_int}
use sp.Base.Text.{Bytes, codes, is_space}
use sp.Base.Decimal.{decimal}
use sp.Booking.Number.{convert, error_num}
use sp.Booking.Server.{
  write_server, State, put, write_to, slot, disconnect, failed_text, obj_names, write_bookings,
}

-- Whether a word ends before `s`.
abbrev pub starts_space : Bytes → Bool
starts_space [] = true
starts_space (c ∷ s) = is_space c

-- A character goes to the front of the word that follows, or ends the word before.
abbrev pub add_char : ℕ → Bool → List Bytes → List Bytes
add_char c true ws = (c ∷ []) ∷ ws
add_char c false [] = (c ∷ []) ∷ []
add_char c false (w ∷ ws) = (c ∷ w) ∷ ws

-- The words that `%s` finds one after the other.
unfoldable pub words : Bytes → List Bytes
words [] = []
words (c ∷ s) = if is_space c then words s else add_char c (starts_space s) (words s)

abbrev pub obj_num : ℕ
obj_num = 3

-- `sscanf` of `obj_num` words into arrays of eight characters.
unfoldable pub scan_words : ℕ → List Bytes → Result (List Bytes)
scan_words zero ws = ok []
scan_words (suc n) [] = ok []
scan_words (suc n) (w ∷ ws) = do
  guard (ltb (length w) 8) bad_access
  rest ← scan_words n ws
  ok (w ∷ rest)

-- The loop that fills `param` for `n` more objects. `none` is its error reply; a word that `sscanf`
-- did not find is read all the same.
unfoldable pub read_params : ℕ → List Bytes → Result (Option (List ℤ))
unfolding convert
read_params zero ws = ok (some [])
read_params (suc n) [] = err bad_access
read_params (suc n) (w ∷ ws) = do
  num ← convert w
  let rest = read_params n ws
  if eqb_ℤ num error_num then ok none else (rest >>= λ params. ok (Option.map (◌∷◌ num) params))

-- The loop that adds the record to `param` and sums it up; `none` is its error reply.
unfoldable pub add_params : ℤ → List ℤ → List ℤ → Result (Option (ℤ × List ℤ))
add_params sum [] booked = ok (some (sum, []))
add_params sum (p ∷ ps) [] = err bad_access
add_params sum (p ∷ ps) (b ∷ booked) = do
  now ← add_int p b
  (if ltb_ℤ now (pos 0) then ok none else (do
    total ← add_int sum now
    rest ← add_params total ps booked
    ok (Option.map (λ (t, l). (t, now ∷ l)) rest)))

abbrev pub less_text : Bytes
less_text = codes "[Error] Sorry, but you cannot book less than 0 items.\n"

abbrev pub more_text : Bytes
more_text = codes "[Error] Sorry, but you cannot book more than 15 items in total.\n"

abbrev pub updated_text : ℕ → Bytes
updated_text id =
    codes "Bookings for user " ++ decimal id ++ codes " are updated, the new booking state is:\n"

-- The write of the record at its place in the file.
abbrev pub store : ℕ → List ℤ → State → State
store k booked s = let w = s.world in record s { world = record w { file = put k booked w.file } }

abbrev pub reject : ℕ → Bytes → State → State
reject i text s = disconnect write_server i true (write_to i text s)

unfoldable pub conclude : ℕ → ℕ → Option (ℤ × List ℤ) → State → State
conclude i id none s = reject i less_text s
conclude i id (some (sum, now)) s =
    if ltb_ℤ (pos 15) sum
    then reject i more_text s
    else disconnect write_server i true
        (store (slot id) now (write_bookings i obj_names now (write_to i (updated_text id) s)))

unfoldable pub apply_params : ℕ → ℕ → Option (List ℤ) → State → Result State
unfolding conclude add_params
apply_params i id none s = ok (reject i failed_text s)
apply_params i id (some params) s = do
  sums ← add_params (pos 0) params (s.world.file (slot id))
  ok (conclude i id sums s)

unfoldable pub command : ℕ → State → Result State
unfolding scan_words read_params apply_params words
command i s = do
  let r = s.server.requests i
  ws ← scan_words obj_num (words r.buf)
  params ← read_params obj_num ws
  apply_params i r.id params s
