-- ===== src/Threads/Tasks/Kadane.antt =====
-- What `max_subarray` prints: the greatest sum of a subarray of the numbers read so far.
use sp.Base.{
  ℕ, zero, suc, ◌+◌, ◌*◌, ◌<◌, ◌≤◌, ◌≡◌, refl, ap, sym, ◌∙◌, subst, Bool, true, false, ◌==◌,
  if◌then◌else◌, List, [], ◌∷◌, take, drop, length, All, arith, Result, ok, ◌>>=◌, eq_cases, inl,
  inr,
}
use sp.Base.Int.{
  ℤ, pos, pos_part, neg_part, ◌+ℤ◌, ◌≤ℤ◌, ltb_ℤ, max_ℤ, max_ℤ_ge, max_ℤ_cases, ≤ℤ_trans, +ℤ_mono,
  +ℤ_comm, +ℤ_zero, neg_part-le, +ℤ_bound, add_int-ok,
}
use sp.Threads.Tasks.{Vars, setup, max_round, max_loop, max_subarray}

abbrev pub total : List ℤ → ℤ
total [] = pos 0
total (n ∷ ns) = n +ℤ total ns

-- The sum of `k` numbers behind the first `j`.
abbrev pub part : ℕ → ℕ → List ℤ → ℤ
part j k ns = total (take k (drop j ns))

-- The greatest sum of a subarray, the empty one among them.
abbrev pub IsMaxSum : List ℤ → ℤ → Type 0
IsMaxSum seen m = ((j k : ℕ) → part j k seen ≤ℤ m) × ((j : ℕ) × ((k : ℕ) × (m ≡ part j k seen)))

-- The variables after `seen`, with the latest number first: `y` is a greatest sum up to that one.
pub record Inv (seen : List ℤ) (v : Vars) : Type 0 where
  pub x_max : IsMaxSum seen v.x
  pub y_bound : (k : ℕ) → part 0 (suc k) seen ≤ℤ v.y
  pub y_sum : (k : ℕ) × (v.y ≡ part 0 k seen)
  pub y_high : pos_part v.y ≤ 99999 * length seen
  pub y_low : neg_part v.y ≤ 99999

part_nil : (j k : ℕ) → part j k [] ≤ℤ pos 0
part_nil zero zero = omega arith
part_nil zero (suc k) = omega arith
part_nil (suc j) zero = omega arith
part_nil (suc j) (suc k) = omega arith

setup-Inv : Inv [] setup
setup-Inv = record {
  x_max = (λ j k. part_nil j k, (0, (0, refl)));
  y_bound = λ k. omega arith;
  y_sum = (0, refl);
  y_high = omega arith;
  y_low = omega arith;
}

-- The range of what `max_subarray` reads: five characters hold at most five digits.
abbrev pub IsShort : ℤ → Type 0
IsShort n = (pos_part n ≤ 99999) × (neg_part n ≤ 99999)

-- The variables after a round, without its check of overflow.
abbrev pub next_vars : ℤ → Vars → Vars
next_vars num v = let y = max_ℤ (v.y +ℤ num) num in record { x = max_ℤ y v.x; y = y }

sum_bound :
    (seen : List ℤ) (num : ℤ) (v : Vars) (k : ℕ)
    → Inv seen v
    → part 0 (suc k) (num ∷ seen) ≤ℤ (next_vars num v).y
sum_bound seen num v zero i =
    subst (λ s. s ≤ℤ (next_vars num v).y) (sym (+ℤ_zero num)) (max_ℤ_ge (v.y +ℤ num) num).1
sum_bound seen num v (suc k) i =
    ≤ℤ_trans (part 0 (suc (suc k)) (num ∷ seen)) (v.y +ℤ num) (next_vars num v).y
      (+ℤ_mono num (part 0 (suc k) seen) v.y (i.y_bound k)) (max_ℤ_ge (v.y +ℤ num) num).0

new_sum :
    (seen : List ℤ) (num : ℤ) (v : Vars)
    → Inv seen v
    → (k : ℕ) × ((next_vars num v).y ≡ part 0 k (num ∷ seen))
new_sum seen num v i =
    let (k, e) = i.y_sum in
    elim (max_ℤ_cases (v.y +ℤ num) num) [
      | inl h ↦ (suc k, h ∙ +ℤ_comm v.y num ∙ ap (λ s. num +ℤ s) e)
      | inr h ↦ (1, h ∙ sym (+ℤ_zero num))
    ]

new_x_bound :
    (seen : List ℤ) (num : ℤ) (v : Vars) (j k : ℕ)
    → Inv seen v
    → part j k (num ∷ seen) ≤ℤ (next_vars num v).x
new_x_bound seen num v zero zero i =
    ≤ℤ_trans (pos 0) v.x (next_vars num v).x (i.x_max.0 0 0) (max_ℤ_ge (next_vars num v).y v.x).1
new_x_bound seen num v zero (suc k) i =
    ≤ℤ_trans (part 0 (suc k) (num ∷ seen)) (next_vars num v).y (next_vars num v).x
      (sum_bound seen num v k i) (max_ℤ_ge (next_vars num v).y v.x).0
new_x_bound seen num v (suc j) k i =
    ≤ℤ_trans (part j k seen) v.x (next_vars num v).x (i.x_max.0 j k)
      (max_ℤ_ge (next_vars num v).y v.x).1

new_x_sum :
    (seen : List ℤ) (num : ℤ) (v : Vars)
    → Inv seen v
    → (j : ℕ) × ((k : ℕ) × ((next_vars num v).x ≡ part j k (num ∷ seen)))
new_x_sum seen num v i =
    let (j, (k, e)) = i.x_max.1 in
    let (l, f) = new_sum seen num v i in
    elim (max_ℤ_cases (next_vars num v).y v.x) [
      | inl h ↦ (0, (l, h ∙ f))
      | inr h ↦ (suc j, (k, h ∙ e))
    ]

y_range :
    (seen : List ℤ) (num : ℤ) (v : Vars)
    → Inv seen v
    → IsShort num
    → (pos_part (next_vars num v).y ≤ 99999 * length (num ∷ seen))
      × (neg_part (next_vars num v).y ≤ 99999)
y_range seen num v i s =
    let y = (next_vars num v).y in
    let low = neg_part-le num y (max_ℤ_ge (v.y +ℤ num) num).1 in
    let bound = (+ℤ_bound v.y num).0 in
    let old = i.y_high in
    (
      elim (max_ℤ_cases (v.y +ℤ num) num) [
        | inl h ↦
            subst (λ m. pos_part m ≤ 99999 * length (num ∷ seen)) (sym h)
              (omega (arith, bound, old, s.0))
        | inr h ↦ subst (λ m. pos_part m ≤ 99999 * length (num ∷ seen)) (sym h) (omega (arith, s.0))
      ],
      omega (arith, low, s.1),
    )

next-Inv :
    (seen : List ℤ) (num : ℤ) (v : Vars)
    → Inv seen v
    → IsShort num
    → Inv (num ∷ seen) (next_vars num v)
next-Inv seen num v i s = record {
  x_max = (λ j k. new_x_bound seen num v j k i, new_x_sum seen num v i);
  y_bound = λ k. sum_bound seen num v k i;
  y_sum = new_sum seen num v i;
  y_high = (y_range seen num v i s).0;
  y_low = (y_range seen num v i s).1;
}

-- Few enough numbers that no sum is above INT_MAX.
abbrev pub most : ℕ
most = 21000

max_round-ok :
    (seen : List ℤ) (num : ℤ) (v : Vars)
    → Inv seen v
    → IsShort num
    → length seen < most
    → max_round num v ≡ ok (next_vars num v)
unfolding max_round
max_round-ok seen num v i s l =
    let high = i.y_high in
    let low = i.y_low in
    ap
      (λ r. r >>= λ sum.
        let y = if ltb_ℤ sum num then num else sum in
        ok (record { x = if ltb_ℤ y v.x then v.x else y; y = y }))
      (add_int-ok v.y num (omega (arith, high, s.0, l)) (omega (arith, low, s.1)))

-- Each line is the greatest sum for the numbers up to its own; `seen` are those before, latest first.
abbrev pub Prints : List ℤ → List ℤ → List ℤ → Type 0
Prints seen nums [] = Unit
Prints seen [] (o ∷ out) = ⊥
Prints seen (num ∷ nums) (o ∷ out) = IsMaxSum (num ∷ seen) o × Prints (num ∷ seen) nums out

-- How many lines there are: one for each number up to `arg`.
abbrev pub lines : (i arg : ℕ) → List ℤ → ℕ
lines i arg [] = 0
lines i arg (num ∷ nums) = if i == arg then 1 else suc (lines (suc i) arg nums)

-- What the rest of a loop gives, to one line more.
line_more :
    (stop : Bool) (x num : ℤ) (nums seen : List ℤ) (k : ℕ) (r : Result (List ℤ))
    → IsMaxSum (num ∷ seen) x
    → (out : List ℤ) × ((r ≡ ok out) × ((length out ≡ k) × Prints (num ∷ seen) nums out))
    → (out : List ℤ) × ((((if stop then ok [] else r) >>= λ rest. ok (x ∷ rest)) ≡ ok out)
        × ((length out ≡ (if stop then 1 else suc k)) × Prints seen (num ∷ nums) out))
line_more true x num nums seen k r m h = (x ∷ [], (refl, (refl, (m, tt))))
line_more false x num nums seen k r m (out, (e, (n, p))) =
    (x ∷ out, (ap (λ q. q >>= λ rest. ok (x ∷ rest)) e, (ap suc n, (m, p))))

max_loop-Prints :
    (i arg : ℕ) (nums seen : List ℤ) (v : Vars)
    → Inv seen v
    → All IsShort nums
    → length seen + length nums ≤ most
    → (out : List ℤ) × ((max_loop i arg nums v ≡ ok out)
        × ((length out ≡ lines i arg nums) × Prints seen nums out))
unfolding max_loop
max_loop-Prints i arg [] seen v inv s l = ([], (refl, (refl, tt)))
max_loop-Prints i arg (num ∷ nums) seen v inv s l =
    let now = next_vars num v in
    let inv_now = next-Inv seen num v inv s.0 in
    let rest = max_loop-Prints (suc i) arg nums (num ∷ seen) now inv_now s.1 (omega (arith, l)) in
    let first = max_round-ok seen num v inv s.0 (omega (arith, l)) in
    let more =
      line_more (i == arg) now.x num nums seen (lines (suc i) arg nums)
        (max_loop (suc i) arg nums now) inv_now.x_max rest in
    (
      more.0,
      (
        ap
              (λ r. r >>= λ w. (if i == arg then ok [] else max_loop (suc i) arg nums w) >>= λ rest.
                ok (w.x ∷ rest))
              first
            ∙ more.1.0,
        more.1.1,
      ),
    )

lines-length :
    (i arg : ℕ) (nums : List ℤ)
    → i ≤ arg
    → i + length nums ≤ suc arg
    → lines i arg nums ≡ length nums
lines-length i arg [] h l = refl
lines-length i arg (num ∷ nums) h l = elim (eq_cases i arg) [
  | inl e ↦ ground arith
  | inr ne ↦
      let rest = lines-length (suc i) arg nums (omega (arith, h, ne)) (omega (arith, l)) in
      ground arith
]

-- For as many numbers as its argument says, at least one, at most 21000, and each of at most five
-- digits, max_subarray prints a line for each without an overflow: the greatest sum of a subarray,
-- which may be empty, of the numbers up to that one.
pub max_subarray_lem :
    (arg : ℕ) (nums : List ℤ)
    → 1 ≤ arg
    → length nums ≡ arg
    → arg ≤ most
    → All IsShort nums
    → (out : List ℤ) × ((max_subarray arg nums ≡ ok out)
        × ((length out ≡ arg) × Prints [] nums out))
unfolding max_subarray
max_subarray_lem arg nums h e l s =
    let (out, (r, (n, p))) =
      max_loop-Prints 1 arg nums [] setup setup-Inv s (omega (arith, e, l)) in
    (out, (r, (n ∙ lines-length 1 arg nums h (omega (arith, e)) ∙ e, p)))
