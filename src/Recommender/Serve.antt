-- ===== src/Recommender/Serve.antt =====
-- server.c: the choice of the movies for a request, their scores, and the answer of `Recommend`
-- (threads) and of `main` (processes). Files are their name and text.
pub mod Correct
use Prim.Native.Nat.{Ordering}
use sp.Base.{
  ℕ, zero, suc, ◌-◌, ◌^◌, Bool, true, false, ◌||◌, List, [], ◌∷◌, ◌++◌, length, ltb, if◌then◌else◌,
  Result, ok, ◌>>=◌,
}
use sp.Base.Text.{Bytes, codes, strcmp, strstr}
use sp.Base.Decimal.{decimal}
use sp.Recommender.Double.{Double}
use sp.Recommender.Sort.{Row, sort}
use sp.Recommender.Merge
use sp.Recommender.Merge.{depth, merge_thread}
use sp.Recommender.Process

abbrev pub num_of_genre : ℕ
num_of_genre = 19

-- A profile is an array of `NUM_OF_GENRE` doubles, read by index.
pub record Movie (W : Type 0) : Type 0 where
  pub movie_id : ℕ
  pub title : Bytes
  pub profile : ℕ → W

-- `id` is the 32 bits that `%u` leaves in an `int`.
pub record Request (W : Type 0) : Type 0 where
  pub id : ℕ
  pub keywords : Bytes
  pub profile : ℕ → W

-- `%d` of 32 bits.
abbrev pub id_text : ℕ → Bytes
id_text id = if ltb id (2 ^ 31) then decimal id else b'-' ∷ decimal (2 ^ 32 - id)

-- A file that the server writes.
pub record File : Type 0 where
  pub name : Bytes
  pub text : Bytes

-- `strcmp(s, t) == 0`
abbrev pub is_same : Bytes → Bytes → Bool
is_same s t = elim (strcmp s t) [ Ordering.eq ↦ true | _ ↦ false ]

module _ {W : Type 0} ⦃d : Double W⦄ where
  -- The loop of `Dot`: `left` rounds from index `i` on.
  unfoldable pub dot_loop : (left i : ℕ) → W → (a b : ℕ → W) → W
  dot_loop zero i res a b = res
  dot_loop (suc left) i res a b = dot_loop left (suc i) (d.add res (d.mul (a i) (b i))) a b

  unfoldable pub dot : (a b : ℕ → W) → W
  unfolding dot_loop
  dot a b = dot_loop num_of_genre 0 d.zero_point a b

  unfoldable pub is_match : Movie W → Request W → Bool
  is_match m r = strstr m.title r.keywords || is_same r.keywords (codes "*")

  -- The loop that fills `filter` and `pts`.
  unfoldable pub select : List (Movie W) → Request W → List (Row W)
  unfolding is_match dot
  select [] r = []
  select (m ∷ movies) r =
      let rest = select movies r in
      if is_match m r
      then record { title = m.title; pts = dot r.profile m.profile } ∷ rest
      else rest

  -- `fprintf(fd, "%s\n", filter[i])` for each row.
  unfoldable pub print_titles : List (Row W) → Bytes
  print_titles [] = []
  print_titles (r ∷ rows) = r.title ++ 10 ∷ print_titles rows

  unfoldable pub recommend : List (Movie W) → Request W → Result File
  unfolding select print_titles
  recommend movies r = do
    let rows = select movies r
    sorted ←
        (if ltb (length rows) merge_thread
          then sort (length movies) rows
          else Merge.merge_sort (depth - 1) (length movies) rows)
    ok (record { name = id_text r.id ++ codes "t.out"; text = print_titles sorted })

  -- `main` of the processes: the filtered titles are copied into the shared buffers first.
  unfoldable pub recommend_process : List (Movie W) → Request W → Result File
  unfolding select print_titles
  recommend_process movies r = do
    rows ← Process.strcpy_all (select movies r)
    sorted ←
        (if ltb (length rows) merge_thread
          then sort (length movies) rows
          else Process.merge_sort (depth - 1) (length movies) rows)
    ok (record { name = id_text r.id ++ codes "p.out"; text = print_titles sorted })
