-- ===== src/Recommender/Serve/Correct.antt =====
-- What a request is answered with.
use mathlib.Core.List.{Perm}
use mathlib.Core.List.Perm
use native.Mathlib.Nat.{one-le-pow}
use sp.Base.{
  ℕ, ◌<◌, ◌≤◌, ◌-◌, ◌^◌, suc, ◌≡◌, refl, sym, ap, ◌∙◌, List, [], ◌∷◌, ◌++◌, map, ltb, arith, length,
  ok, err, bad_access, Bool-cases, inl, inr,
}
use sp.Base.Text.{Bytes, codes}
use sp.Base.Sorted.{sorted_unique}
use sp.Recommender.Double.{Double, IsRanked}
use sp.Recommender.Sort.{Row, sort, secret}
use sp.Recommender.Sort.Correct.{sealed, sort_lem, sort-no_rows}
use sp.Recommender.Order.{Key, IsRanking, key_order, row_key}
use sp.Recommender.Merge
use sp.Recommender.Merge.{depth, merge_thread}
use sp.Recommender.Merge.Correct.{Mergeable, merge_sort_lem}
use sp.Recommender.Process.Correct.{Roomy, strcpy_all-Roomy, process_lem}
use sp.Recommender.Serve.{
  id_text, Movie, Request, File, select, print_titles, recommend, recommend_process,
}

two_pow_pos : (n : ℕ) → 0 < 2 ^ suc n
two_pow_pos n = one-le-pow (suc n) 2 (omega arith)

-- The text of an answer is settled by the keys of its rows.
print_keys : (ks : List Key) → Bytes
print_keys [] = []
print_keys ((rank, title) ∷ ks) = (title ++ secret) ++ 10 ∷ print_keys ks

module _ {W : Type 0} ⦃d : Double W⦄ where
  select-length :
      (movies : List (Movie W)) (r : Request W) → length (select movies r) ≤ length movies
  unfolding select
  select-length [] r = omega arith
  select-length (m ∷ movies) r = ground (arith, select-length movies r)

  abbrev pub answer : Request W → Bytes → List (Row W) → File
  answer r ending rows = record {
    name = id_text r.id ++ ending;
    text = print_titles (map sealed rows);
  }

  module _ (q : IsRanked W) (movies : List (Movie W)) (r : Request W) where
    -- A request that matches some movie is answered with all matching titles in order.
    pub recommend_lem :
        0 < length (select movies r)
        → Mergeable q (select movies r)
        → (out : List (Row W)) × (recommend movies r ≡ ok (answer r (codes "t.out") out))
          × Perm out (select movies r)
          × IsRanking q out
    unfolding recommend
    recommend_lem some all = elim (Bool-cases (ltb (length (select movies r)) merge_thread)) [
      | inl few ↦
          let (out, run, p, s) =
            sort_lem q (length movies) (select movies r) some (select-length movies r)
              (λ x m. (all x m).sortable) in
          (out, rw (few, run), p, s)
      | inr many ↦
          let (out, run, p, s) =
            merge_sort_lem q (depth - 1) (length movies) (select movies r) (ground arith)
              (select-length movies r) all in
          (out, rw (many, run), p, s)
    ]

    -- The processes answer with the same text, in a file of another name.
    pub recommend_process_lem :
        0 < length (select movies r)
        → Mergeable q (select movies r)
        → Roomy (select movies r)
        → (f : File) × (g : File) × (recommend movies r ≡ ok f)
          × (recommend_process movies r ≡ ok g)
          × (g.text ≡ f.text)
          × (f.name ≡ id_text r.id ++ codes "t.out")
          × (g.name ≡ id_text r.id ++ codes "p.out")
    unfolding recommend recommend_process
    recommend_process_lem some all room =
        let copied = strcpy_all-Roomy (select movies r) room in
        elim (Bool-cases (ltb (length (select movies r)) merge_thread)) [
          | inl few ↦
              let (out, run, p, s) =
                sort_lem q (length movies) (select movies r) some (select-length movies r)
                  (λ x m. (all x m).sortable) in
              (
                answer r (codes "t.out") out,
                answer r (codes "p.out") out,
                rw (few, run),
                rw (copied, few, run),
                refl,
                refl,
                refl,
              )
          | inr many ↦
              let (out, processes, threads, p, s) =
                process_lem q (depth - 1) (length movies) (select movies r) (ground arith)
                  (select-length movies r) all room in
              (
                answer r (codes "t.out") out,
                answer r (codes "p.out") out,
                rw (many, threads),
                rw (copied, many, processes),
                refl,
                refl,
                refl,
              )
        ]

  print_titles-keys :
      (q : IsRanked W) (xs : List (Row W))
      → print_titles (map sealed xs) ≡ print_keys (map (row_key q) xs)
  unfolding print_titles print_keys
  print_titles-keys q [] = refl
  print_titles-keys q (x ∷ xs) = rw (print_titles-keys q xs)

  -- Merging in threads prints what one `sort` of all rows would print.
  pub merge_sort-sort :
      (q : IsRanked W) (levels num_of_movies : ℕ) (xs : List (Row W))
      → 2 ^ suc levels ≤ length xs
      → length xs ≤ num_of_movies
      → Mergeable q xs
      → (merged : List (Row W)) × (sorted : List (Row W)) × (Merge.merge_sort levels num_of_movies
            xs
          ≡ ok merged)
        × (sort num_of_movies xs ≡ ok sorted)
        × (print_titles merged ≡ print_titles sorted)
  merge_sort-sort q levels num xs many few all =
      let (ms, run_m, pm, sm) = merge_sort_lem q levels num xs many few all in
      let some : 0 < length xs = omega (arith, two_pow_pos levels) in
      let (ss, run_s, ps, sorted) = sort_lem q num xs some few (λ r m. (all r m).sortable) in
      let keys = sorted_unique key_order (row_key q) sm sorted (Perm.trans pm (Perm.symm ps)) in
      (
        map sealed ms,
        map sealed ss,
        run_m,
        run_s,
        print_titles-keys q ms ∙ ap print_keys keys ∙ sym (print_titles-keys q ss),
      )

  -- A request that matches no movie makes `sort` write to `movies[-1]`.
  pub recommend-no_match :
      (movies : List (Movie W)) (r : Request W)
      → select movies r ≡ []
      → recommend movies r ≡ err bad_access
  unfolding recommend
  recommend-no_match movies r h = rw (h, sort-no_rows (length movies))
