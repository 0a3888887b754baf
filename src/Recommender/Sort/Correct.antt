-- ===== src/Recommender/Sort/Correct.antt =====
-- `sort` returns the ranking of its rows, each title with the secret at its end.
use mathlib.Core.List.{Perm, Mem, Pairwise, Pairwise-singleton, mem-cons_self, mem-cons_of_mem}
use mathlib.Core.List.Perm
use mathlib.Core.Bool.{Bool-set}
use sp.Base.{
  ℕ, zero, suc, ◌<◌, ◌≤◌, ◌-◌, ◌≡◌, List, [], ◌∷◌, ◌++◌, map, arith, length, ok, err, bad_access,
  lt→ltb, le→leb,
}
use sp.Base.Sorted.{All-of_mem, mem-All, length-perm}
use sp.Recommender.Double.{Double, IsRanked, IsScore}
use sp.Recommender.Sort.{Row, max_len, secret, add_secret, argmax, swap, mark, rounds, sort}
use sp.Recommender.Sort.Choice.{argmax_lem, swap_lem, lt-of_get_elem?}
use sp.Recommender.Order.{IsRanking}

-- A row as it is printed.
abbrev pub sealed : {W : Type 0} → Row W → Row W
sealed r = record r { title = r.title ++ secret }

module _ {W : Type 0} ⦃d : Double W⦄ (q : IsRanked W) where
  -- What `sort` asks of a row: a score, and a title for which `add_secret` has room.
  pub record IsSortable (r : Row W) : Type 0 where
    pub score : IsScore q r.pts
    pub short : length r.title < max_len

  -- `xs` are rows that `sort` takes.
  abbrev pub Sortable : List (Row W) → Type 0
  Sortable xs = (r : Row W) → Mem r xs → IsSortable r

  pub Sortable-perm : {xs ys : List (Row W)} → Perm xs ys → Sortable ys → Sortable xs
  Sortable-perm p h r m = h r ((Perm.mem_iff p).0 m)

  mark_lem : (r : Row W) → IsSortable r → mark r ≡ ok (sealed r)
  unfolding mark add_secret
  mark_lem r h = rw (lt→ltb _ _ h.short)

  rounds_last : (r : Row W) → IsSortable r → rounds 0 (r ∷ []) ≡ ok (sealed r ∷ [])
  unfolding rounds
  rounds_last r h = rw (mark_lem r h)

  rounds_step :
      (n idx : ℕ) (xs others out : List (Row W)) (w : Row W)
      → argmax xs ≡ ok idx
      → idx < length xs
      → swap xs idx ≡ w ∷ others
      → IsSortable w
      → rounds n others ≡ ok out
      → rounds (suc n) xs ≡ ok (sealed w ∷ out)
  unfolding rounds
  rounds_step n idx xs others out w found inside swapped h tail =
      rw (found, lt→ltb _ _ inside, swapped, mark_lem w h, tail)

  pub rounds_lem :
      (n : ℕ) (xs : List (Row W))
      → length xs ≡ suc n
      → Sortable xs
      → (out : List (Row W)) × (rounds n xs ≡ ok (map sealed out)) × Perm out xs × IsRanking q out
  rounds_lem n [] e h = absurd (omega arith)
  rounds_lem zero (r ∷ []) e h =
      (r ∷ [], rounds_last r (h r mem-cons_self), Perm.rfl, Pairwise-singleton _ r)
  rounds_lem zero (r ∷ x ∷ xs) e h = absurd (omega arith)
  rounds_lem (suc n) (r ∷ xs) e h =
      let scores = All-of_mem _ (r ∷ xs) (λ x m. (h x m).score) in
      let (idx, w, found, at, first) = argmax_lem q r xs scores in
      let (others, swapped, p) = swap_lem (r ∷ xs) idx at in
      let rest : Sortable others = λ x m. Sortable-perm p h x (mem-cons_of_mem w m) in
      let (out, tail, tail_perm, tail_sorted) =
        rounds_lem n others (omega (arith, length-perm p)) rest in
      let step =
        rounds_step n idx (r ∷ xs) others (map sealed out) w found (lt-of_get_elem? (r ∷ xs) idx at)
          swapped (Sortable-perm p h w mem-cons_self) tail in
      let ahead = λ (x : Row W) (m : Mem x out).
        mem-All (λ y. Bool-set _ _) (r ∷ xs) first x
          ((Perm.mem_iff p).0 (mem-cons_of_mem w ((Perm.mem_iff tail_perm).0 m))) in
      (w ∷ out, step, Perm.trans (Perm.cons w tail_perm) p, Pairwise.cons ahead tail_sorted)

  -- With at least one row, and no more than there are movies, `sort` returns: the same rows as a
  -- ranking, each title with the secret behind it.
  pub sort_lem :
      (num_of_movies : ℕ) (xs : List (Row W))
      → 0 < length xs
      → length xs ≤ num_of_movies
      → Sortable xs
      → (out : List (Row W)) × (sort num_of_movies xs ≡ ok (map sealed out))
        × Perm out xs
        × IsRanking q out
  unfolding sort
  sort_lem num xs some few h =
      let (out, run, p, sorted) = rounds_lem (length xs - 1) xs (omega arith) h in
      (out, rw (le→leb _ _ few) run, p, sorted)

-- With no row `sort` writes to `movies[-1]`.
pub sort-no_rows :
    {W : Type 0} ⦃d : Double W⦄ (num_of_movies : ℕ) → sort {W = W} num_of_movies [] ≡ err bad_access
unfolding sort
sort-no_rows num = ground arith
