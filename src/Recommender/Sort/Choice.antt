-- ===== src/Recommender/Sort/Choice.antt =====
-- `argmax` finds the row that goes first, and `swap` brings it to the front.
use mathlib.Core.List.{Perm, append-nil, append_assoc}
use mathlib.Core.List.Perm
use sp.Base.{
  ℕ, zero, suc, ◌<◌, ◌≡◌, refl, true, List, [], ◌∷◌, ◌++◌, some, arith, length, length-append,
  get_elem?, get_or, set, All, All-append, ok, guard, assertion, ◌>>◌, Bool-cases, inl, inr, ◌&&◌,
}
use sp.Base.Text.{strcmp_flip}
use sp.Recommender.Double.{Double, ge, IsRanked, IsScore}
use sp.Recommender.Sort.{Row, is_above, Best, argmax_step, argmax_loop, argmax, swap}
use sp.Recommender.Order.{RowLe, key_le_trans, key_le_refl, row_key}

module _ {ℓ} {A : Type ℓ} where
  get_elem?-append_length :
      (xs : List A) (a : A) (ys : List A) → get_elem? (xs ++ a ∷ ys) (length xs) ≡ some a
  get_elem?-append_length [] a ys = refl
  get_elem?-append_length (x ∷ xs) a ys = get_elem?-append_length xs a ys

  length_snoc : (xs : List A) (a : A) → length (xs ++ a ∷ []) ≡ suc (length xs)
  length_snoc xs a = omega (arith, length-append xs (a ∷ []))

  get_elem?-append_left :
      (xs ys : List A) (i : ℕ) {a : A} → get_elem? xs i ≡ some a → get_elem? (xs ++ ys) i ≡ some a
  get_elem?-append_left [] ys i h = cc
  get_elem?-append_left (x ∷ xs) ys zero h = h
  get_elem?-append_left (x ∷ xs) ys (suc i) h = get_elem?-append_left xs ys i h

  pub lt-of_get_elem? : (xs : List A) (i : ℕ) {a : A} → get_elem? xs i ≡ some a → i < length xs
  lt-of_get_elem? [] i h = cc
  lt-of_get_elem? (x ∷ xs) zero h = omega arith
  lt-of_get_elem? (x ∷ xs) (suc i) h = omega (arith, lt-of_get_elem? xs i h)

  get_or-eq : (xs : List A) (i : ℕ) (b : A) {a : A} → get_elem? xs i ≡ some a → get_or xs i b ≡ a
  get_or-eq [] i b h = cc
  get_or-eq (x ∷ xs) zero b h = ground arith
  get_or-eq (x ∷ xs) (suc i) b h = get_or-eq xs i b h

  set-perm :
      (xs : List A) (i : ℕ) (b : A) {a : A}
      → get_elem? xs i ≡ some a
      → Perm (a ∷ set xs i b) (b ∷ xs)
  set-perm [] i b h = cc
  set-perm (x ∷ xs) zero b {a} h =
      Perm.trans (Perm.swap b a xs) (Perm.cons b (Perm.cons' (ground arith) Perm.rfl))
  set-perm (x ∷ xs) (suc i) b {a} h =
      Perm.trans (Perm.swap x a (set xs i b))
        (Perm.trans (Perm.cons x (set-perm xs i b h)) (Perm.swap b x xs))

  -- After `swap` the chosen element is the head, and nothing is lost.
  pub swap_lem :
      (xs : List A) (i : ℕ) {a : A}
      → get_elem? xs i ≡ some a
      → (others : List A) × (swap xs i ≡ a ∷ others) × Perm (a ∷ others) xs
  unfolding swap
  swap_lem [] i h = cc
  swap_lem (x ∷ xs) zero h = (xs, ground arith, Perm.cons' (ground arith) Perm.rfl)
  swap_lem (x ∷ xs) (suc i) h = (set xs i x, ground (arith, get_or-eq xs i x h), set-perm xs i x h)

module _ {W : Type 0} ⦃d : Double W⦄ (q : IsRanked W) where
  abbrev pub Scored : Row W → Type 0
  Scored r = IsScore q r.pts

  -- `b` holds the place, the title and the rank of `w`, which goes before all rows seen so far.
  record IsBest (seen : List (Row W)) (b : Best W) (w : Row W) : Type 0 where
    at_ret : get_elem? seen b.ret ≡ some w
    same_title : b.title ≡ w.title
    same_rank : q.rank b.max ≡ q.rank w.pts
    number : q.is_number b.max ≡ true
    scored : Scored w
    first : All (RowLe q w) seen

  first_trans :
      (a b : Row W) (xs : List (Row W)) → RowLe q a b → All (RowLe q b) xs → All (RowLe q a) xs
  first_trans a b [] h hs = tt
  first_trans a b (x ∷ xs) h hs =
      (key_le_trans (row_key q a) (row_key q b) (row_key q x) h hs.0, first_trans a b xs h hs.1)

  -- The new row takes the place of `w`.
  taken :
      (seen : List (Row W)) (b : Best W) (w r : Row W)
      → IsBest seen b w
      → Scored r
      → RowLe q r w
      → (c : Best W) → c.ret ≡ length seen
      → c.title ≡ r.title
      → q.rank c.max ≡ q.rank r.pts
      → q.is_number c.max ≡ true
      → IsBest (seen ++ r ∷ []) c r
  taken seen b w r best sr le c at title rank number = record {
    at_ret = rw at (get_elem?-append_length seen r []);
    same_title = title;
    same_rank = rank;
    number = number;
    scored = sr;
    first =
        All-append (RowLe q r) seen (r ∷ []) (first_trans r w seen le best.first)
          (key_le_refl (row_key q r), tt);
  }

  kept :
      (seen : List (Row W)) (b : Best W) (w r : Row W)
      → IsBest seen b w
      → RowLe q w r
      → IsBest (seen ++ r ∷ []) b w
  kept seen b w r best le = record {
    at_ret = get_elem?-append_left seen (r ∷ []) b.ret best.at_ret;
    same_title = best.same_title;
    same_rank = best.same_rank;
    number = best.number;
    scored = best.scored;
    first = All-append (RowLe q w) seen (r ∷ []) best.first (le, tt);
  }

  argmax_step-IsBest :
      (seen : List (Row W)) (b : Best W) (w r : Row W)
      → IsBest seen b w
      → Scored r
      → (v : Row W) × IsBest (seen ++ r ∷ []) (argmax_step r (length seen) b) v
  unfolding argmax_step
  argmax_step-IsBest seen b w r best sr = elim (Bool-cases (d.gt r.pts b.max)) [
    | inl above ↦
        rw (above, argmax_step)
          (
            r,
            taken seen b w r best sr (ground (arith, q.gt_rank r.pts b.max)) _ refl refl refl
                sr.number,
          )
    | inr below ↦ elim (Bool-cases (d.eq r.pts b.max && is_above b.title r.title)) [
      | inl tie ↦
          rw (below, tie, argmax_step)
            (
              r,
              taken seen b w r best sr
                  (ground (
                    arith,
                    q.gt_rank r.pts b.max,
                    q.eq_rank r.pts b.max,
                    strcmp_flip w.title r.title,
                  ))
                  _ refl refl (ground (arith, q.eq_rank r.pts b.max)) best.number,
            )
      | inr other ↦
          rw (below, other, argmax_step)
            (
              w,
              kept seen b w r best (
                  ground (
                    arith,
                    q.gt_rank r.pts b.max,
                    q.eq_rank r.pts b.max,
                    strcmp_flip w.title r.title,
                  )),
            )
    ]
  ]

  argmax_loop-IsBest :
      (seen rest : List (Row W)) (b : Best W) (w : Row W)
      → IsBest seen b w
      → All Scored rest
      → (v : Row W) × IsBest (seen ++ rest) (argmax_loop rest (length seen) b) v
  unfolding argmax_loop
  argmax_loop-IsBest seen [] b w best h = (w, rw append-nil best)
  argmax_loop-IsBest seen (r ∷ rest) b w best h =
      let (v, step) = argmax_step-IsBest seen b w r best h.0 in
      let (u, loop) = argmax_loop-IsBest (seen ++ r ∷ []) rest _ v step h.1 in
      (u, rw (length_snoc seen r, append_assoc) at loop)

  abbrev start : Row W → Best W
  start r = record { ret = 0; title = r.title; max = d.minus_one }

  abbrev chosen : Row W → Best W
  chosen r = record { ret = 0; title = r.title; max = r.pts }

  argmax-start :
      (r : Row W) (rest : List (Row W))
      → let b = argmax_loop rest 1 (argmax_step r 0 (start r)) in
        argmax (r ∷ rest) ≡ (guard (ge b.max d.zero_point) assertion >> ok b.ret)
  unfolding argmax
  argmax-start r rest = refl

  argmax_step-start : (r : Row W) → Scored r → argmax_step r 0 (start r) ≡ chosen r
  unfolding argmax_step
  argmax_step-start r h =
      ground (arith, q.gt_rank r.pts d.minus_one, q.minus_one_number, q.minus_one_below)

  chosen-IsBest : (r : Row W) → Scored r → IsBest (r ∷ []) (chosen r) r
  chosen-IsBest r h = record {
    at_ret = refl;
    same_title = refl;
    same_rank = refl;
    number = h.number;
    scored = h;
    first = (key_le_refl (row_key q r), tt);
  }

  -- `argmax` returns the place of a row that goes before all.
  pub argmax_lem :
      (r : Row W) (rest : List (Row W))
      → All Scored (r ∷ rest)
      → (idx : ℕ) × (w : Row W) × (argmax (r ∷ rest) ≡ ok idx)
        × (get_elem? (r ∷ rest) idx ≡ some w)
        × All (RowLe q w) (r ∷ rest)
  argmax_lem r rest h =
      let (w, best) = argmax_loop-IsBest (r ∷ []) rest (chosen r) r (chosen-IsBest r h.0) h.1 in
      let b : Best W = argmax_loop rest 1 (chosen r) in
      let high : ge b.max d.zero_point ≡ true = ground (
        arith,
        best.same_rank,
        best.number,
        best.scored.nonneg,
        q.zero_point_number,
        q.gt_rank b.max d.zero_point,
        q.eq_rank b.max d.zero_point,
      ) in
      (b.ret, w, rw (argmax-start r rest, argmax_step-start r h.0, high), best.at_ret, best.first)
