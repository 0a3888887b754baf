-- ===== src/Recommender/Tests.antt =====
-- Runs on small inputs, and each theorem at a concrete input. A score is a number one higher than
-- the double that it stands for, so that -1.0 is 0.
use mathlib.Core.List.{Perm}
use native.Mathlib.Bridge.{le_prop}
use sp.Base.{
  ◌+◌, ◌*◌, ◌≤◌, ℕ, ◌<◌, ◌≡◌, refl, ◌≢◌, true, false, List, [], ◌∷◌, map, ◌==◌, if◌then◌else◌,
  arith, length, ok, err, bad_access,
}
use sp.Base.Sorted.{mem-All}
use sp.Base.Text.{Bytes, codes, strcmp, strstr}
use sp.Recommender.Samples.{answered, whole, whole-IsRanked, IsSortable-prop, IsMergeable-prop}
use sp.Recommender.Sort.{Row, sort}
use sp.Recommender.Merge
use sp.Recommender.Sort.Correct.{sealed, Sortable, sort_lem}
use sp.Recommender.Merge.Correct.{Mergeable, merge_sort_lem}
use sp.Recommender.Process.Correct.{Roomy, process_lem}
use sp.Recommender.Serve.{Movie, Request, select, print_titles, recommend}
use sp.Recommender.Serve.Correct.{answer, merge_sort-sort, recommend_lem, recommend-no_match}
use sp.Recommender.Process
use sp.Recommender.Order.{IsRanking}
use sp.Recommender.Workers.Ends.{workers_end}
use sp.Recommender.Workers.{
  Run, ready, after, mover, num_of_workers, exited, serving, System, Step, lock, Reach, here, next,
}
use sp.Recommender.Workers.Invariant.{contains, NoRepeat}
use sp.Recommender.Workers.Safety.{mutual_exclusion, served_once}
use sp.Base.Decimal.{decimal}

abbrev row : Bytes → ℕ → Row ℕ
row t n = record { title = t; pts = n }

abbrev three : List (Row ℕ)
three = row (codes "b") 2 ∷ row (codes "c") 5 ∷ row (codes "a") 2 ∷ []

sort-three :
    sort 3 three
    ≡ ok (
        row (codes "c\t[It's top secret.]") 5
        ∷ row (codes "a\t[It's top secret.]") 2
        ∷ row (codes "b\t[It's top secret.]") 2
        ∷ [])
unfolding sort strcmp
sort-three = refl

merge_sort-three : Merge.merge_sort 0 3 three ≡ sort 3 three
unfolding Merge.merge_sort sort strcmp
merge_sort-three = refl

three-Sortable : Sortable whole-IsRanked three
three-Sortable = mem-All IsSortable-prop three (ground arith)

three-Mergeable : Mergeable whole-IsRanked three
three-Mergeable = mem-All IsMergeable-prop three (ground arith)

three-Roomy : Roomy three
three-Roomy = mem-All (λ r. le_prop) three (omega arith)

abbrev comedies : ℕ → ℕ
comedies i = if i == 0 then 3 else 1

abbrev films : List (Movie ℕ)
films =
    record { movie_id = 1; title = codes "Up"; profile = comedies }
    ∷ record { movie_id = 2; title = codes "Heat"; profile = λ i. 1 }
    ∷ record { movie_id = 3; title = codes "Aup"; profile = comedies }
    ∷ []

abbrev request : Bytes → Request ℕ
request keywords = record { id = 7; keywords = keywords; profile = comedies }

abbrev matching : List (Row ℕ)
matching = row (codes "Up") 5 ∷ row (codes "Aup") 5 ∷ []

select-films : select films (request (codes "p")) ≡ matching
unfolding select strstr strcmp
select-films = refl

recommend-films :
    recommend films (request (codes "p"))
    ≡ ok (record {
      name = codes "7t.out";
      text = codes "Aup\t[It's top secret.]\nUp\t[It's top secret.]\n";
    })
unfolding recommend sort strstr strcmp decimal
recommend-films = refl

abbrev wanted : Request ℕ
wanted = request (codes "p")

matching-Mergeable : Mergeable whole-IsRanked (select films wanted)
matching-Mergeable = rw select-films (mem-All IsMergeable-prop matching (ground arith))

matching_some : 0 < length (select films wanted)
matching_some = rw select-films (omega arith)

sort_lem_example :
    (out : List (Row ℕ)) × (sort 3 three ≡ ok (map sealed out))
    × Perm out three
    × IsRanking whole-IsRanked out
sort_lem_example = sort_lem whole-IsRanked 3 three (omega arith) (omega arith) three-Sortable

merge_sort_lem_example :
    (out : List (Row ℕ)) × (Merge.merge_sort 0 3 three ≡ ok (map sealed out))
    × Perm out three
    × IsRanking whole-IsRanked out
merge_sort_lem_example =
    merge_sort_lem whole-IsRanked 0 3 three (omega arith) (omega arith) three-Mergeable

process_lem_example :
    (out : List (Row ℕ)) × (Process.merge_sort 0 3 three ≡ ok (map sealed out))
    × (Merge.merge_sort 0 3 three ≡ ok (map sealed out))
    × Perm out three
    × IsRanking whole-IsRanked out
process_lem_example =
    process_lem whole-IsRanked 0 3 three (omega arith) (omega arith) three-Mergeable three-Roomy

merge_sort-sort_example :
    (merged : List (Row ℕ)) × (sorted : List (Row ℕ)) × (Merge.merge_sort 0 3 three ≡ ok merged)
    × (sort 3 three ≡ ok sorted)
    × (print_titles merged ≡ print_titles sorted)
merge_sort-sort_example =
    merge_sort-sort whole-IsRanked 0 3 three (omega arith) (omega arith) three-Mergeable

recommend_lem_example :
    (out : List (Row ℕ)) × (recommend films wanted ≡ ok (answer wanted (codes "t.out") out))
    × Perm out (select films wanted)
    × IsRanking whole-IsRanked out
recommend_lem_example = recommend_lem whole-IsRanked films wanted matching_some matching-Mergeable

select_nothing : select films (request (codes "zz")) ≡ []
unfolding select strstr strcmp
select_nothing = refl

recommend-no_match_example : recommend films (request (codes "zz")) ≡ err bad_access
recommend-no_match_example = recommend-no_match films (request (codes "zz")) select_nothing

served_once_example :
    NoRepeat answered.0.served
    × ((c : ℕ) → contains answered.0.served c ≡ true → c < 1)
    × ((i c : ℕ) → answered.0.pc i ≡ serving c → (c < 1) × (contains answered.0.served c ≡ false))
    × ((i j c : ℕ) → answered.0.pc i ≡ serving c → answered.0.pc j ≡ serving c → i ≡ j)
served_once_example = served_once answered.1

-- Worker 0 holds the mutex.
abbrev drawing : (s : System) × Reach 1 s
drawing = (_, next here (lock 0 refl refl))

mutual_exclusion_example : ◌≡◌ {A = ℕ} 0 0
mutual_exclusion_example = mutual_exclusion drawing.1 0 0 refl refl

-- The first move of eight workers over one request.
abbrev first_move : (s : System) × Run 1 num_of_workers 1 s
first_move = (_, after ready (lock 0 refl refl) (omega arith))

workers_end_example :
    (1 ≤ 5 * num_of_workers + 6 * 1)
    × ((i : ℕ)
        → i < num_of_workers
        → first_move.0.pc i ≢ exited
        → (t : System) × (m : Step 1 first_move.0 t) × (mover m < num_of_workers))
workers_end_example = workers_end first_move.1
