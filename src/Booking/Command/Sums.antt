-- ===== src/Booking/Command/Sums.antt =====
-- The two loops of a booking command, on words that are short and bookings that are allowed: what
-- the words stand for, and what the record and they add up to.
use native.Mathlib.Nat.{add_assoc}
use sp.Base.{
  ℕ, suc, ◌+◌, ◌*◌, ◌≤◌, ◌<◌, ◌≡◌, refl, sym, ap, ◌∙◌, inl, inr, Bool, true, false, ◌&&◌, List, [],
  ◌∷◌, Option, some, none, leb, length, All, arith, ok, ok-injective, Bool-cases, if◌then◌else◌,
}
use mathlib.Core.Option
use mathlib.Core.Option.{some-injective}
use sp.Base.Int.{
  ℤ, pos, negsuc, pos_part, ◌+ℤ◌, +ℤ_parts, ltb_ℤ, eqb_ℤ, int_max, add_int-ok, +ℤ_bound,
}
use sp.Base.Text.{Bytes}
use sp.Booking.Number.{convert, error_num}
use sp.Booking.Number.Meaning.{number_of, refuse, or_error, convert-number_of}
use sp.Booking.Number.Laws.{IsSmall, convert-short}
use sp.Booking.Command.{add_params, read_params}
use sp.Booking.Totals.{IsCount, total}

-- A word that fits an array of eight characters.
abbrev pub IsShort : Bytes → Type 0
IsShort w = length w < 8

-- The bookings that the command asks for.
abbrev pub sums : List ℤ → List ℤ → List ℤ
sums (p ∷ ps) (b ∷ bs) = (p +ℤ b) ∷ sums ps bs
sums _ _ = []

abbrev pub is_count : ℤ → Bool
is_count n = if ltb_ℤ n (pos 0) then false else true

abbrev pub all_counts : List ℤ → Bool
all_counts [] = true
all_counts (n ∷ ns) = is_count n && all_counts ns

-- What a record may hold.
abbrev pub is_allowed : List ℤ → Bool
is_allowed ns = all_counts ns && leb (total ns) 15

+ℤ_counts :
    (a b : ℤ)
    → IsCount a
    → IsCount b
    → IsCount (a +ℤ b) × (pos_part (a +ℤ b) ≡ pos_part a + pos_part b)
unfolding ◌+ℤ◌
+ℤ_counts a b h k = ground arith

-- A count of a record with allowed bookings.
abbrev IsFew : ℤ → Type 0
IsFew n = IsCount n × (pos_part n ≤ 15)

pub IsFew-of_total : (ns : List ℤ) (m : ℕ) → m ≤ 15 → total ns ≤ m → All IsCount ns → All IsFew ns
IsFew-of_total [] m h t c = tt
IsFew-of_total (n ∷ ns) m h t c = ((c.0, omega arith), IsFew-of_total ns m h (omega arith) c.1)

-- With small numbers nothing overflows, and the loop stops exactly at the first negative sum.
pub add_params_lem :
    (sum : ℤ) (ps bs : List ℤ)
    → IsCount sum
    → length ps ≡ length bs
    → All IsSmall ps
    → All IsFew bs
    → pos_part sum + length ps * 10000016 ≤ int_max
    → add_params sum ps bs
      ≡ ok (
          if all_counts (sums ps bs)
          then some (pos (pos_part sum + total (sums ps bs)), sums ps bs)
          else none)
unfolding add_params
add_params_lem (pos n) [] [] c len small few room = ground arith
add_params_lem (negsuc n) [] [] c len small few room = absurd (omega arith)
add_params_lem sum [] (b ∷ bs) c len small few room = absurd (omega arith)
add_params_lem sum (p ∷ ps) [] c len small few room = absurd (omega arith)
add_params_lem sum (p ∷ ps) (b ∷ bs) c len small few room =
    let now : ℤ = p +ℤ b in
    let parts = +ℤ_parts p b in
    let bound = +ℤ_bound p b in
    let first = add_int-ok p b (omega arith) (omega arith) in
    elim (Bool-cases (ltb_ℤ now (pos 0))) [
      | inl below ↦ rw (first, below)
      | inr count ↦
          let counted : IsCount now = ground arith in
          let second = add_int-ok sum now (omega (arith, bound)) (omega (arith, bound, counted)) in
          let adds = +ℤ_counts sum now c counted in
          let rest =
            add_params_lem (sum +ℤ now) ps bs adds.0 (omega arith) small.1 few.1
              (omega (arith, adds.1, bound)) in
          rw (first, count, second, rest, adds.1)
            (ground (arith, add_assoc (pos_part sum) (pos_part now) (total (sums ps bs))))
    ]

-- The numbers that the words mean, if each word means one that a command can ask for.
pub params_of : List Bytes → Option (List ℤ)
params_of [] = some []
params_of (w ∷ ws) =
    let rest = params_of ws in
    elim (refuse (number_of w)) [ none ↦ none | some num ↦ Option.map (◌∷◌ num) rest ]

refused :
    (o : Option ℤ) (rest : Option (List ℤ))
    → elim (refuse o) [ none ↦ none | some num ↦ Option.map (◌∷◌ num) rest ]
      ≡ (if eqb_ℤ (or_error o) error_num then none else Option.map (◌∷◌ (or_error o)) rest)
refused none rest = refl
refused (some v) rest = elim (Bool-cases (eqb_ℤ v error_num)) [
  | inl bad ↦ rw bad refl
  | inr good ↦ rw good refl
]

-- The number that `convert` returns for a short word is put in front, or refuses them all.
params_of-cons :
    (w : Bytes) (ws : List Bytes) (num : ℤ)
    → IsShort w
    → convert w ≡ ok num
    → params_of (w ∷ ws)
      ≡ (if eqb_ℤ num error_num then none else Option.map (◌∷◌ num) (params_of ws))
unfolding params_of
params_of-cons w ws num h run =
    let same : or_error (number_of w) ≡ num = ok-injective (sym (convert-number_of w h) ∙ run) in
    refused (number_of w) (params_of ws)
    ∙ ap (λ v. if eqb_ℤ v error_num then none else Option.map (◌∷◌ v) (params_of ws)) same

read_params-cons :
    (n : ℕ) (w : Bytes) (ws : List Bytes) (num : ℤ) (params : Option (List ℤ))
    → convert w ≡ ok num
    → read_params n ws ≡ ok params
    → read_params (suc n) (w ∷ ws)
      ≡ ok (if eqb_ℤ num error_num then none else Option.map (◌∷◌ num) params)
unfolding read_params
read_params-cons n w ws num params h rest = ground arith

-- Three short words, or any number of them, are read as the numbers that they stand for.
pub read_params_lem :
    (ws : List Bytes) → All IsShort ws → read_params (length ws) ws ≡ ok (params_of ws)
unfolding read_params params_of
read_params_lem [] h = refl
read_params_lem (w ∷ ws) h =
    let (num, run, small) = convert-short w h.0 in
    read_params-cons (length ws) w ws num (params_of ws) run (read_params_lem ws h.1)
    ∙ ap ok (sym (params_of-cons w ws num h.0 run))

map-eq_some :
    (num : ℤ) (o : Option (List ℤ)) (ps : List ℤ)
    → Option.map (◌∷◌ num) o ≡ some ps
    → (rest : List ℤ) × (o ≡ some rest) × (ps ≡ num ∷ rest)
map-eq_some num none ps h = cc
map-eq_some num (some rest) ps h = (rest, refl, cc)

none≢some : {ps : List ℤ} → none ≡ some ps → ⊥
none≢some h = cc

pub params_of-IsSmall :
    (ws : List Bytes) (ps : List ℤ)
    → All IsShort ws
    → params_of ws ≡ some ps
    → (length ps ≡ length ws) × All IsSmall ps
unfolding params_of
params_of-IsSmall [] ps h e = ground arith
params_of-IsSmall (w ∷ ws) ps h e =
    let (num, run, small) = convert-short w h.0 in
    let e' = sym (params_of-cons w ws num h.0 run) ∙ e in
    elim (Bool-cases (eqb_ℤ num error_num)) [
      | inl bad ↦ absurd (none≢some (rw bad at e'))
      | inr good ↦
          let (rest, found, split) = map-eq_some num (params_of ws) ps (rw good at e') in
          let (len, smalls) = params_of-IsSmall ws rest h.1 found in
          rw split (omega (arith, len), (small, smalls))
    ]
