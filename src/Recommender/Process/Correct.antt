-- ===== src/Recommender/Process/Correct.antt =====
-- The processes compute what the threads compute, if no title outgrows its buffer.
use mathlib.Core.List.{Perm, Mem, mem-cons_self, mem-cons_of_mem}
use mathlib.Core.List.Perm
use native.Mathlib.Nat.{pow-suc}
use sp.Base.{
  ℕ, zero, suc, ◌<◌, ◌≤◌, ◌+◌, ◌/◌, ◌^◌, ◌≡◌, refl, true, List, [], ◌∷◌, ◌++◌, map, arith, length,
  length-append, ok, lt→ltb, take, drop, length-take, length-drop,
}
use sp.Base.Sorted.{mem_of_take, mem_of_drop}
use sp.Recommender.Double.{Double, IsRanked}
use sp.Recommender.Sort.{Row, max_len, secret}
use sp.Recommender.Sort.Correct.{sealed, sort_lem}
use sp.Recommender.Order.{IsRanking}
use sp.Recommender.Merge
use sp.Recommender.Merge.{merge}
use sp.Recommender.Merge.Correct.{Mergeable, take-Mergeable, drop-Mergeable, merge_halves}
use sp.Recommender.Process
use sp.Recommender.Process.{fits, strcpy_all}

module _ {W : Type 0} where
  -- Every title has room for the secret in a buffer of `MAX_LEN` bytes.
  abbrev pub Roomy : List (Row W) → Type 0
  Roomy xs = (r : Row W) → Mem r xs → length r.title + length secret < max_len

  Roomy-perm : {xs ys : List (Row W)} → Perm xs ys → Roomy ys → Roomy xs
  Roomy-perm p h r m = h r ((Perm.mem_iff p).0 m)

  take-Roomy : (h : ℕ) (xs : List (Row W)) → Roomy xs → Roomy (take h xs)
  take-Roomy h xs room r m = room r (mem_of_take h xs m)

  drop-Roomy : (h : ℕ) (xs : List (Row W)) → Roomy xs → Roomy (drop h xs)
  drop-Roomy h xs room r m = room r (mem_of_drop h xs m)

  fits-sealed : (xs : List (Row W)) → Roomy xs → fits (map sealed xs) ≡ true
  unfolding fits
  fits-sealed [] h = refl
  fits-sealed (x ∷ xs) h =
      let room : length (x.title ++ secret) < max_len =
        omega (arith, h x mem-cons_self, length-append x.title secret) in
      rw (lt→ltb _ _ room, fits-sealed xs (λ r m. h r (mem-cons_of_mem x m)))

  strcpy_all-sealed :
      (xs : List (Row W)) → Roomy xs → strcpy_all (map sealed xs) ≡ ok (map sealed xs)
  unfolding strcpy_all
  strcpy_all-sealed xs h = rw (fits-sealed xs h)

  fits-Roomy : (xs : List (Row W)) → Roomy xs → fits xs ≡ true
  unfolding fits
  fits-Roomy [] h = refl
  fits-Roomy (x ∷ xs) h =
      let room : length x.title < max_len = omega (arith, h x mem-cons_self) in
      rw (lt→ltb _ _ room, fits-Roomy xs (λ r m. h r (mem-cons_of_mem x m)))

  pub strcpy_all-Roomy : (xs : List (Row W)) → Roomy xs → strcpy_all xs ≡ ok xs
  unfolding strcpy_all
  strcpy_all-Roomy xs h = rw (fits-Roomy xs h)

module _ {W : Type 0} ⦃d : Double W⦄ (q : IsRanked W) where
  -- One level: the halves' results, written to the buffers and merged.
  copy_halves :
      (h : ℕ) (xs ls rs : List (Row W))
      → Roomy xs
      → Mergeable q xs
      → Perm ls (take h xs)
      → IsRanking q ls
      → Perm rs (drop h xs)
      → IsRanking q rs
      → (strcpy_all (map sealed ls) ≡ ok (map sealed ls))
        × (strcpy_all (map sealed rs) ≡ ok (map sealed rs))
        × (strcpy_all (merge (map sealed ls) (map sealed rs)) ≡ ok (map sealed (merge ls rs)))
  copy_halves h xs ls rs room all pl sl pr sr =
      let (seal_eq, p, _) = merge_halves q h xs all ls rs pl sl pr sr in
      (
        strcpy_all-sealed ls (Roomy-perm pl (take-Roomy h xs room)),
        strcpy_all-sealed rs (Roomy-perm pr (drop-Roomy h xs room)),
        rw seal_eq (strcpy_all-sealed (merge ls rs) (Roomy-perm p room)),
      )

  -- For 2 ^ (levels + 1) rows or more and no more than there are movies, with scores that are numbers
  -- not below 0.0 and titles with no byte up to the tab and room for the secret in MAX_LEN bytes,
  -- mergeSort of the processes returns what mergeSort of the threads returns: the same rows, ranked,
  -- with the secrets added.
  pub process_lem :
      (levels num_of_movies : ℕ) (xs : List (Row W))
      → 2 ^ suc levels ≤ length xs
      → length xs ≤ num_of_movies
      → Mergeable q xs
      → Roomy xs
      → (out : List (Row W)) × (Process.merge_sort levels num_of_movies xs ≡ ok (map sealed out))
        × (Merge.merge_sort levels num_of_movies xs ≡ ok (map sealed out))
        × Perm out xs
        × IsRanking q out
  unfolding Process.merge_sort Merge.merge_sort
  process_lem zero num xs many few all room =
      let h = length xs / 2 in
      let (ls, run_l, pl, sl) =
        sort_lem q num (take h xs) (omega (arith, length-take h xs))
          (omega (arith, length-take h xs)) (λ r m. (take-Mergeable q h xs all r m).sortable) in
      let (rs, run_r, pr, sr) =
        sort_lem q num (drop h xs) (omega (arith, length-drop h xs))
          (omega (arith, length-drop h xs)) (λ r m. (drop-Mergeable q h xs all r m).sortable) in
      let (seal_eq, p, s) = merge_halves q h xs all ls rs pl sl pr sr in
      let (_, _, written) = copy_halves h xs ls rs room all pl sl pr sr in
      (merge ls rs, rw (run_l, run_r) written, rw (run_l, run_r, seal_eq), p, s)
  process_lem (suc levels) num xs many few all room =
      let h = length xs / 2 in
      let double = pow-suc 2 (suc levels) in
      let (ls, process_l, thread_l, pl, sl) =
        process_lem levels num (take h xs) (omega (arith, length-take h xs, double))
          (omega (arith, length-take h xs)) (take-Mergeable q h xs all) (take-Roomy h xs room) in
      let (rs, process_r, thread_r, pr, sr) =
        process_lem levels num (drop h xs) (omega (arith, length-drop h xs, double))
          (omega (arith, length-drop h xs)) (drop-Mergeable q h xs all) (drop-Roomy h xs room) in
      let (seal_eq, p, s) = merge_halves q h xs all ls rs pl sl pr sr in
      let (copied_l, copied_r, written) = copy_halves h xs ls rs room all pl sl pr sr in
      (
        merge ls rs,
        rw (process_l, process_r, copied_l, copied_r) written,
        rw (thread_l, thread_r, seal_eq),
        p,
        s,
      )
