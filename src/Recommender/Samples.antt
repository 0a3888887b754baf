-- ===== src/Recommender/Samples.antt =====
-- Data for the tests: scores that are whole numbers, and a row of the file of movies.
use mathlib.Core.Bool.{Bool-set}
use native.Mathlib.Bridge.{le_prop}
use sp.Base.{
  zero, suc, ◌⊎◌, inl, inr, ℕ, ◌+◌, ◌-◌, ◌*◌, ◌/◌, ◌<◌, ◌≡◌, refl, true, List, [], ◌∷◌, ltb, ◌==◌,
  arith, All,
}
use sp.Base.Text.{Bytes, codes}
use sp.Recommender.Double.{Double, IsRanked}
use sp.Recommender.Sort.{Row}
use sp.Recommender.Sort.Correct.{IsSortable}
use sp.Recommender.Merge.Correct.{IsMergeable}
use sp.Recommender.Workers.{
  entering, exited, System, lock, pop, read_front, unlock, enter_loop, leave_loop, serve, Reach,
  here, next,
}
use sp.Recommender.Load.{Numbers}
use sp.Recommender.Load.Tokens.{IsToken}
use sp.Recommender.Load.Text.{Entry, IsEntry}

instance abbrev pub whole : Double ℕ
whole = record {
  minus_one = 0;
  zero_point = 1;
  gt = λ x y. ltb y x;
  eq = λ x y. x == y;
  add = λ x y. x + y - 1;
  mul = λ x y. (x - 1) * (y - 1) + 1;
}

pub minus_one_below : 0 < 1
minus_one_below = omega arith

abbrev pub whole-IsRanked : IsRanked ℕ
whole-IsRanked = record {
  is_number = λ x. true;
  rank = λ x. x;
  gt_rank = λ x y p q. refl;
  eq_rank = λ x y p q. refl;
  minus_one_number = refl;
  zero_point_number = refl;
  minus_one_below = minus_one_below;
}

pub All-prop : (xs : Bytes) → IsProp (All (λ c. 9 < c) xs)
All-prop [] = hlevel
All-prop (x ∷ xs) = hlevel (le_prop, All-prop xs)

pub IsSortable-prop : (r : Row ℕ) → IsProp (IsSortable whole-IsRanked r)
IsSortable-prop r = hlevel (le_prop, Bool-set)

pub IsMergeable-prop : (r : Row ℕ) → IsProp (IsMergeable whole-IsRanked r)
IsMergeable-prop r = hlevel (IsSortable-prop r, All-prop r.title)

-- The value of the first digit.
abbrev pub digit : Bytes → ℕ
digit [] = 0
digit (c ∷ s) = c - 48

instance abbrev pub digits : Numbers ℕ
digits = record {
  atoi = digit;
  strtod = λ s. digit s + 1;
  sqrt = λ x. x;
  div = λ x y. (x - 1) / (y - 1) + 1;
}

abbrev pub genres : List Bytes
genres =
    codes "1"
    ∷ codes "0"
    ∷ codes "0"
    ∷ codes "0"
    ∷ codes "0"
    ∷ codes "0"
    ∷ codes "0"
    ∷ codes "0"
    ∷ codes "0"
    ∷ codes "0"
    ∷ codes "0"
    ∷ codes "0"
    ∷ codes "0"
    ∷ codes "0"
    ∷ codes "0"
    ∷ codes "0"
    ∷ codes "0"
    ∷ codes "0"
    ∷ codes "0}\n"
    ∷ []

abbrev pub up : Entry
up = record { id = codes "1"; title = codes "Up"; last = b' '; fields = genres }

pub genres-IsToken : All (IsToken b',') genres
genres-IsToken = ground arith

pub up-IsEntry : IsEntry up
up-IsEntry = record {
  id = ground arith;
  title = ground arith;
  last = omega arith;
  fields = genres-IsToken;
  no_nul = ground arith;
  all_genres = refl;
  body = codes "1 Up {1,0,0,0,0,0,0,0,0,0,0,0,0,0,0,0,0,0,0}";
  one_line = ground arith;
  ends = refl;
  fits = omega arith;
}

-- One request: worker 0 draws it and answers it, and leaves with the next number.
abbrev pub answered : (s : System) × Reach 1 s
answered = (
  _,
  next
      (next
        (next (next (next (next here (lock 0 refl refl)) (pop 0 refl)) (read_front 0 refl))
          (unlock 0 0 refl))
        (enter_loop 0 0 refl (omega arith)))
      (serve 0 0 refl),
)

abbrev pub finished : (s : System) × Reach 1 s
finished = (
  _,
  next
      (next (next (next (next answered.1 (lock 0 refl refl)) (pop 0 refl)) (read_front 0 refl))
        (unlock 0 1 refl))
      (leave_loop 0 1 refl (omega arith)),
)

pub finished_quiet : (i : ℕ) → finished.0.pc i ≡ exited ⊎ finished.0.pc i ≡ entering
finished_quiet zero = inl refl
finished_quiet (suc i) = inr (ground arith)
