-- ===== src/Recommender/Merge/Correct.antt =====
-- The merges give the ranking that one `sort` would give.
use mathlib.Core.List.{
  Perm, Mem, Pairwise, Pairwise-cons, perm_middle, append-nil, mem-cons_self, mem-cons_of_mem,
}
use mathlib.Core.List.Perm
use native.Mathlib.Nat.{pow-suc}
use sp.Base.{
  ℕ, zero, suc, ◌<◌, ◌≤◌, ◌/◌, ◌^◌, ◌≡◌, refl, ap, subst, ◌∙◌, true, false, List, [], ◌∷◌, ◌++◌,
  map, arith, length, All, ok, take, drop, take-append-drop, length-take, length-drop, inl, inr,
  Bool-cases,
}
use sp.Base.Text.{strcmp-append, strcmp_flip}
use sp.Base.Sorted
use sp.Base.Sorted.{mem_of_take, mem_of_drop}
use sp.Recommender.Double.{Double, IsRanked, IsScore}
use sp.Recommender.Sort.{Row, secret_text}
use sp.Recommender.Sort.Correct.{sealed, IsSortable, sort_lem}
use sp.Recommender.Order.{RowLe, IsRanking, key_order, row_key}
use sp.Recommender.Merge.{precedes, merge, merge_sort}

module _ {W : Type 0} ⦃d : Double W⦄ (q : IsRanked W) where
  -- A row that can be sorted, whose title has no byte up to the tab that opens the secret.
  pub record IsMergeable (r : Row W) : Type 0 where
    pub sortable : IsSortable q r
    pub clean : All (λ c. 9 < c) r.title

  abbrev pub Mergeable : List (Row W) → Type 0
  Mergeable xs = (r : Row W) → Mem r xs → IsMergeable r

  Mergeable-perm : {xs ys : List (Row W)} → Perm xs ys → Mergeable ys → Mergeable xs
  Mergeable-perm p h r m = h r ((Perm.mem_iff p).0 m)

  precedes-RowLe :
      (a b : Row W) → IsScore q a.pts → IsScore q b.pts → precedes a b ≡ true → RowLe q a b
  unfolding precedes
  precedes-RowLe a b ha hb h =
      ground (arith, q.gt_rank a.pts b.pts, q.eq_rank a.pts b.pts, ha.number, hb.number)

  not-precedes-RowLe :
      (a b : Row W) → IsScore q a.pts → IsScore q b.pts → precedes a b ≡ false → RowLe q b a
  unfolding precedes
  not-precedes-RowLe a b ha hb h =
      ground (arith, q.gt_rank a.pts b.pts, q.eq_rank a.pts b.pts, strcmp_flip b.title a.title)

  precedes-sealed :
      (a b : Row W)
      → All (λ c. 9 < c) a.title
      → All (λ c. 9 < c) b.title
      → precedes (sealed a) (sealed b) ≡ precedes a b
  unfolding precedes
  precedes-sealed a b ha hb = ground (arith, strcmp-append 9 secret_text a.title b.title ha hb)

  merge_left :
      (a b : Row W) (xs ys : List (Row W))
      → precedes a b ≡ true
      → merge (a ∷ xs) (b ∷ ys) ≡ a ∷ merge xs (b ∷ ys)
  unfolding merge
  merge_left a b xs ys h = ground arith

  merge_right :
      (a b : Row W) (xs ys : List (Row W))
      → precedes a b ≡ false
      → merge (a ∷ xs) (b ∷ ys) ≡ b ∷ merge (a ∷ xs) ys
  unfolding merge
  merge_right a b xs ys h = ground arith

  -- The secrets do not change the course of a merge.
  merge-sealed :
      (xs ys : List (Row W))
      → Mergeable xs
      → Mergeable ys
      → merge (map sealed xs) (map sealed ys) ≡ map sealed (merge xs ys)
  unfolding merge
  merge-sealed [] ys hx hy = refl
  merge-sealed (x ∷ xs) [] hx hy = refl
  merge-sealed (x ∷ xs) (y ∷ ys) hx hy =
      let hx' : Mergeable xs = λ r m. hx r (mem-cons_of_mem x m) in
      let hy' : Mergeable ys = λ r m. hy r (mem-cons_of_mem y m) in
      let same = precedes-sealed x y (hx x mem-cons_self).clean (hy y mem-cons_self).clean in
      elim (Bool-cases (precedes x y)) [
        | inl h ↦
            rw (merge_left x y xs ys h, merge_left (sealed x) (sealed y) _ _ (same ∙ h))
              (ap (◌∷◌ (sealed x)) (merge-sealed xs (y ∷ ys) hx' hy))
        | inr h ↦
            rw (merge_right x y xs ys h, merge_right (sealed x) (sealed y) _ _ (same ∙ h))
              (ap (◌∷◌ (sealed y)) (merge-sealed (x ∷ xs) ys hx hy'))
      ]

  merge-perm : (xs ys : List (Row W)) → Perm (merge xs ys) (xs ++ ys)
  unfolding merge
  merge-perm [] ys = Perm.rfl
  merge-perm (x ∷ xs) [] = rw (append-nil xs) Perm.rfl
  merge-perm (x ∷ xs) (y ∷ ys) = elim (Bool-cases (precedes x y)) [
    | inl h ↦ rw (merge_left x y xs ys h) (Perm.cons x (merge-perm xs (y ∷ ys)))
    | inr h ↦
        rw (merge_right x y xs ys h)
          (Perm.trans (Perm.cons y (merge-perm (x ∷ xs) ys)) (Perm.symm (perm_middle (x ∷ xs) ys)))
  ]

  merge_nil : (ys : List (Row W)) → merge [] ys ≡ ys
  unfolding merge
  merge_nil ys = refl

  merge_nil_right : (x : Row W) (xs : List (Row W)) → merge (x ∷ xs) [] ≡ x ∷ xs
  unfolding merge
  merge_nil_right x xs = refl

  merge-IsRanking :
      (xs ys : List (Row W))
      → Mergeable xs
      → Mergeable ys
      → IsRanking q xs
      → IsRanking q ys
      → IsRanking q (merge xs ys)
  merge-IsRanking [] ys hx hy sx sy = rw (merge_nil ys) sy
  merge-IsRanking (x ∷ xs) [] hx hy sx sy = rw (merge_nil_right x xs) sx
  merge-IsRanking (x ∷ xs) (y ∷ ys) hx hy sx sy =
      let x_score = (hx x mem-cons_self).sortable.score in
      let y_score = (hy y mem-cons_self).sortable.score in
      let (x_first, sx') = Pairwise-cons.0 sx in
      let (y_first, sy') = Pairwise-cons.0 sy in
      elim (Bool-cases (precedes x y)) [
        | inl h ↦
            let le = precedes-RowLe x y x_score y_score h in
            let rest =
              Sorted.IsFirst-append key_order (row_key q) x_first
                (Sorted.IsFirst-head key_order (row_key q) le sy) in
            rw (merge_left x y xs ys h) (
              Pairwise.cons
                (Sorted.IsFirst-perm key_order (row_key q) (merge-perm xs (y ∷ ys)) rest)
                (merge-IsRanking xs (y ∷ ys) (λ r m. hx r (mem-cons_of_mem x m)) hy sx' sy))
        | inr h ↦
            let le = not-precedes-RowLe x y x_score y_score h in
            let rest =
              Sorted.IsFirst-append key_order (row_key q)
                (Sorted.IsFirst-head key_order (row_key q) le sx) y_first in
            rw (merge_right x y xs ys h) (
              Pairwise.cons
                (Sorted.IsFirst-perm key_order (row_key q) (merge-perm (x ∷ xs) ys) rest)
                (merge-IsRanking (x ∷ xs) ys hx (λ r m. hy r (mem-cons_of_mem y m)) sx sy'))
      ]

  -- The halves of `xs`, ranked and sealed, merge to the ranking of `xs`.
  module _ (h : ℕ) (xs : List (Row W)) (all : Mergeable xs) where
    pub take-Mergeable : Mergeable (take h xs)
    take-Mergeable r m = all r (mem_of_take h xs m)

    pub drop-Mergeable : Mergeable (drop h xs)
    drop-Mergeable r m = all r (mem_of_drop h xs m)

    pub merge_halves :
        (ls rs : List (Row W))
        → Perm ls (take h xs)
        → IsRanking q ls
        → Perm rs (drop h xs)
        → IsRanking q rs
        → (merge (map sealed ls) (map sealed rs) ≡ map sealed (merge ls rs))
          × Perm (merge ls rs) xs
          × IsRanking q (merge ls rs)
    merge_halves ls rs pl sl pr sr =
        let hl = Mergeable-perm pl take-Mergeable in
        let hr = Mergeable-perm pr drop-Mergeable in
        let whole = Perm.trans (merge-perm ls rs) (Perm.append pl pr) in
        (
          merge-sealed ls rs hl hr,
          subst (Perm (merge ls rs)) (take-append-drop h xs) whole,
          merge-IsRanking ls rs hl hr sl sr,
        )

  -- With `2 ^ (levels + 1)` rows or more no leaf is empty, and `mergeSort` returns the rows as a
  -- ranking, each title with the secret behind it.
  pub merge_sort_lem :
      (levels num_of_movies : ℕ) (xs : List (Row W))
      → 2 ^ suc levels ≤ length xs
      → length xs ≤ num_of_movies
      → Mergeable xs
      → (out : List (Row W)) × (merge_sort levels num_of_movies xs ≡ ok (map sealed out))
        × Perm out xs
        × IsRanking q out
  unfolding merge_sort
  merge_sort_lem zero num xs many few all =
      let h = length xs / 2 in
      let (ls, run_l, pl, sl) =
        sort_lem q num (take h xs) (omega (arith, length-take h xs))
          (omega (arith, length-take h xs)) (λ r m. (take-Mergeable h xs all r m).sortable) in
      let (rs, run_r, pr, sr) =
        sort_lem q num (drop h xs) (omega (arith, length-drop h xs))
          (omega (arith, length-drop h xs)) (λ r m. (drop-Mergeable h xs all r m).sortable) in
      let (sealed_eq, p, s) = merge_halves h xs all ls rs pl sl pr sr in
      (merge ls rs, rw (run_l, run_r, sealed_eq), p, s)
  merge_sort_lem (suc levels) num xs many few all =
      let h = length xs / 2 in
      let double = pow-suc 2 (suc levels) in
      let (ls, run_l, pl, sl) =
        merge_sort_lem levels num (take h xs) (omega (arith, length-take h xs, double))
          (omega (arith, length-take h xs)) (take-Mergeable h xs all) in
      let (rs, run_r, pr, sr) =
        merge_sort_lem levels num (drop h xs) (omega (arith, length-drop h xs, double))
          (omega (arith, length-drop h xs)) (drop-Mergeable h xs all) in
      let (sealed_eq, p, s) = merge_halves h xs all ls rs pl sl pr sr in
      (merge ls rs, rw (run_l, run_r, sealed_eq), p, s)
