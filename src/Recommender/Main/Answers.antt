-- ===== src/Recommender/Main/Answers.antt =====
-- The files that the workers write between them are those of the requests, one after the other.
use mathlib.Core.List.{Perm, Mem, Pairwise, mem-cons, not-mem-nil}
use mathlib.Core.HLevel.{¬_prop}
use mathlib.Core.Logic.Or
use mathlib.Core.List.Perm
use native.Mathlib.Decide.{dec_lt}
use sp.Base.{
  ◌≢◌, ◌^◌, ◌++◌, inl, inr, ℕ, zero, suc, ◌+◌, ◌<◌, ◌≡◌, refl, sym, ap, ◌∙◌, subst, true, ◌⊎◌, List,
  [], ◌∷◌, map, some, get_or, length, bind-inversion, ok-injective, All, arith, Result, ok, ◌>>=◌,
}
use sp.Base.Text.{Bytes, codes}
use sp.Recommender.Double.{Double, IsRanked}
use sp.Recommender.Serve.{id_text, Movie, Request, File, select, recommend}
use sp.Recommender.Serve.Correct.{answer, recommend_lem}
use sp.Recommender.Sort.{Row}
use sp.Recommender.Order.{IsRanking}
use sp.Recommender.Merge.Correct.{Mergeable}
use sp.Recommender.Load.{Numbers}
use sp.Recommender.Main.Disk.{Apart, Apart-perm, disk-Apart, file_name-injective}
use sp.Recommender.Main.{call, calls, initialize, tserver}
use sp.Recommender.Workers.{exited, entering, System, Reach, Run, num_of_workers}
use sp.Recommender.Workers.Invariant.{contains}
use sp.Recommender.Workers.Ends.{Run-Reach, Run-entering}
use sp.Recommender.Workers.Safety.{served_once, served_all}
use sp.Recommender.Workers.Members.{
  count_from, perm_of_contains, count_from-contains, contains-count_from, count_from-NoRepeat,
}

-- The workers have called `Recommend` once for each number of a request, in some order.
served-count_from :
    {num : ℕ} {s : System}
    → Reach num s
    → ((i : ℕ) → s.pc i ≡ exited ⊎ s.pc i ≡ entering)
    → (k : ℕ) → s.pc k ≡ exited
    → Perm s.served (count_from num 0)
served-count_from {num} {s} r quiet k e =
    let once = served_once r in
    perm_of_contains s.served (count_from num 0) once.0 (count_from-NoRepeat num 0)
      (λ c h. count_from-contains num 0 c (omega arith) (omega (arith, once.1 c h)))
      (λ c h. served_all r quiet k e c (omega (arith, (contains-count_from num 0 c h).1)))

-- When the workers of a run have left, any other stands at its start.
joined_quiet :
    {num w moves : ℕ} {s : System}
    → Run num w moves s
    → ((i : ℕ) → i < w → s.pc i ≡ exited)
    → (i : ℕ) → s.pc i ≡ exited ⊎ s.pc i ≡ entering
joined_quiet {w = w} r joined i = elim (dec_lt i w) [
  | yes h ↦ inl (joined i h)
  | no h ↦ inr (Run-entering r i h)
]

-- A place of a list that is never read.
abbrev no_file : File
no_file = record { name = []; text = [] }

module _ {W : Type 0} ⦃d : Double W⦄ where
  -- One request after the other.
  abbrev pub answer_all : List (Movie W) → List (Request W) → Result (List File)
  answer_all movies [] = ok []
  answer_all movies (r ∷ reqs) = do
    f ← recommend movies r
    files ← answer_all movies reqs
    ok (f ∷ files)

  answer_all-cons :
      (movies : List (Movie W)) (r : Request W) (reqs : List (Request W)) {files : List File}
      → answer_all movies (r ∷ reqs) ≡ ok files
      → (f : File) × (rest : List File) × (recommend movies r ≡ ok f)
        × (answer_all movies reqs ≡ ok rest)
        × (f ∷ rest ≡ files)
  answer_all-cons movies r reqs h =
      let (f, first, k) = bind-inversion (recommend movies r) _ h in
      let (rest, others, e) = bind-inversion (answer_all movies reqs) _ k in
      (f, rest, first, others, ok-injective e)

  length-answer_all :
      (movies : List (Movie W)) (reqs : List (Request W)) (files : List File)
      → answer_all movies reqs ≡ ok files
      → length files ≡ length reqs
  length-answer_all movies [] files h = ap length (sym (ok-injective h))
  length-answer_all movies (r ∷ reqs) files h =
      let (f, rest, first, others, e) = answer_all-cons movies r reqs h in
      ap length (sym e) ∙ ap suc (length-answer_all movies reqs rest others)

  call-answer_all :
      (movies : List (Movie W)) (reqs : List (Request W)) (files : List File) (i : ℕ)
      → answer_all movies reqs ≡ ok files
      → i < length reqs
      → call movies reqs i ≡ ok (get_or files i no_file)
  unfolding call
  call-answer_all movies [] files i h lt = absurd (omega (arith, lt))
  call-answer_all movies (r ∷ reqs) files zero h lt =
      let (f, rest, first, others, e) = answer_all-cons movies r reqs h in
      first ∙ ap (λ l. ok (get_or l 0 no_file)) e
  call-answer_all movies (r ∷ reqs) files (suc i) h lt =
      let (f, rest, first, others, e) = answer_all-cons movies r reqs h in
      call-answer_all movies reqs rest i others (omega (arith, lt))
      ∙ ap (λ l. ok (get_or l (suc i) no_file)) e

  calls_lem :
      (movies : List (Movie W)) (reqs : List (Request W)) (files : List File) (served : List ℕ)
      → answer_all movies reqs ≡ ok files
      → ((c : ℕ) → contains served c ≡ true → c < length reqs)
      → calls movies reqs served ≡ ok (map (λ i. get_or files i no_file) served)
  unfolding calls
  calls_lem movies reqs files [] h known = refl
  calls_lem movies reqs files (c ∷ served) h known =
      rw
        (
          calls_lem movies reqs files served h (λ x m. known x (ground (arith, m))),
          call-answer_all movies reqs files c h (known c (ground arith)),
        )
        refl

map-count_from :
    (files all : List File) (i : ℕ)
    → ((j : ℕ) → get_or all (i + j) no_file ≡ get_or files j no_file)
    → map (λ k. get_or all k no_file) (count_from (length files) i) ≡ files
map-count_from [] all i h = refl
map-count_from (f ∷ files) all i h =
    let head : get_or all i no_file ≡ f = ap (λ j. get_or all j no_file) (omega arith) ∙ h 0 in
    let tail =
      map-count_from files all (suc i)
        (λ j. ap (λ l. get_or all l no_file) (omega arith) ∙ h (suc j)) in
    rw (head, tail) refl

module _ {W : Type 0} ⦃d : Double W⦄ ⦃n : Numbers W⦄ where
  -- When `initialize` has read movies and requests, and each request could be answered after the one
  -- before, in a file of its own: once all of the workers that main creates have left, they have
  -- written the same files, in some order.
  pub tserver-answer_all :
      {moves : ℕ} {s : System} (shared : (name earlier later : Bytes) → Bytes) (text input : Bytes)
      {movies : List (Movie W)} {reqs : List (Request W)} {files : List File}
      → initialize text input ≡ ok (movies, reqs)
      → answer_all movies reqs ≡ ok files
      → Apart files
      → Run (length reqs) num_of_workers moves s
      → ((i : ℕ) → i < num_of_workers → s.pc i ≡ exited)
      → (out : List File) × (tserver W shared 1 (some text) input s.served ≡ ok out)
        × Perm out files
        × Apart out
  unfolding tserver
  tserver-answer_all {s} shared text input {movies} {reqs} {files} read all apart r joined =
      let order =
        served-count_from (Run-Reach r) (joined_quiet r joined) 0 (joined 0 (omega arith)) in
      let run = calls_lem movies reqs files s.served all (served_once (Run-Reach r)).1 in
      let file : ℕ → File = λ i. get_or files i no_file in
      let numbers : map file (count_from (length reqs) 0) ≡ files =
        ap (λ l. map file (count_from l 0)) (sym (length-answer_all movies reqs files all))
        ∙ map-count_from files files 0 (λ j. ap (λ l. get_or files l no_file) (omega arith)) in
      let same : Perm (map file s.served) files =
        subst (Perm (map file s.served)) numbers (Perm.map file order) in
      let apart_out : Apart (map file s.served) = Apart-perm (Perm.symm same) apart in
      (
        map file s.served,
        rw (read, run) (ap ok (disk-Apart shared (map file s.served) apart_out)),
        same,
        apart_out,
      )

module _ {W : Type 0} ⦃d : Double W⦄ (q : IsRanked W) (movies : List (Movie W)) where
  -- A request that matches a movie, with scores and titles that can be merged.
  pub record IsServed (r : Request W) : Type 0 where
    pub matches : 0 < length (select movies r)
    pub mergeable : Mergeable q (select movies r)

  -- The file of a request: all matching titles, best score first.
  abbrev pub IsAnswer : Request W → File → Type 0
  IsAnswer r f =
      (rows : List (Row W)) × (f ≡ answer r (codes "t.out") rows)
      × Perm rows (select movies r)
      × IsRanking q rows

  abbrev pub AreAnswers : List (Request W) → List File → Type 0
  AreAnswers [] [] = Unit
  AreAnswers (r ∷ reqs) (f ∷ files) = IsAnswer r f × AreAnswers reqs files
  AreAnswers _ _ = ⊥

  -- Requests with different ids of 32 bits.
  abbrev pub Differ : List (Request W) → Type 0
  Differ [] = Unit
  Differ (r ∷ reqs) = (r.id < 2 ^ 32) × All (λ s. r.id ≢ s.id) reqs × Differ reqs

  names_apart :
      (f : File) (id : ℕ) (reqs : List (Request W)) (files : List File)
      → f.name ≡ id_text id ++ codes "t.out"
      → id < 2 ^ 32
      → All (λ s. id ≢ s.id) reqs
      → Differ reqs
      → AreAnswers reqs files
      → (g : File) → Mem g files
      → f.name ≢ g.name
  names_apart f id [] [] e h other differ a g m = absurd (not-mem-nil m)
  names_apart f id [] (x ∷ files) e h other differ a g m = absurd a
  names_apart f id (r ∷ reqs) [] e h other differ a g m = absurd a
  names_apart f id (r ∷ reqs) (x ∷ files) e h other differ (a, rest) g m =
      Or.elim ¬_prop (mem-cons.0 m)
        (λ q same. other.0 (
          file_name-injective id r.id h differ.0
            (sym e ∙ same ∙ ap (λ y. y.name) q ∙ ap (λ y. y.name) a.1)))
        (names_apart f id reqs files e h other.1 differ.2 rest g)

  AreAnswers-Apart :
      (reqs : List (Request W)) (files : List File)
      → Differ reqs
      → AreAnswers reqs files
      → Apart files
  AreAnswers-Apart [] [] differ a = Pairwise.nil
  AreAnswers-Apart [] (x ∷ files) differ a = absurd a
  AreAnswers-Apart (r ∷ reqs) [] differ a = absurd a
  AreAnswers-Apart (r ∷ reqs) (f ∷ files) differ (a, rest) =
      Pairwise.cons
        (names_apart f r.id reqs files (ap (λ y. y.name) a.1) differ.0 differ.1 differ.2 rest)
        (AreAnswers-Apart reqs files differ.2 rest)

  answer_all-AreAnswers :
      (reqs : List (Request W))
      → All IsServed reqs
      → (files : List File) × (answer_all movies reqs ≡ ok files) × AreAnswers reqs files
  answer_all-AreAnswers [] h = ([], refl, tt)
  answer_all-AreAnswers (r ∷ reqs) h =
      let (rows, run, p, s) = recommend_lem q movies r h.0.matches h.0.mergeable in
      let (files, runs, a) = answer_all-AreAnswers reqs h.1 in
      (answer r (codes "t.out") rows ∷ files, rw (run, runs) refl, ((rows, refl, p, s), a))

module _ {W : Type 0} ⦃d : Double W⦄ ⦃n : Numbers W⦄ (q : IsRanked W) where
  -- When `initialize` has read movies and requests, where the ids are below 2 ^ 32 and no two are the
  -- same, each request matches some movie, and the rows that match have scores that are numbers not
  -- below 0.0 and titles shorter than MAX_LEN with no byte up to the tab: once all of the workers
  -- that main creates have left, however their moves followed each other, there is one file for each
  -- request and no two have one name: the name has the id, and the lines are the matching titles,
  -- best score first.
  pub tserver_lem :
      {moves : ℕ} {s : System} (shared : (name earlier later : Bytes) → Bytes) (text input : Bytes)
      {movies : List (Movie W)} {reqs : List (Request W)}
      → initialize text input ≡ ok (movies, reqs)
      → Differ q movies reqs
      → All (IsServed q movies) reqs
      → Run (length reqs) num_of_workers moves s
      → ((i : ℕ) → i < num_of_workers → s.pc i ≡ exited)
      → (out : List File) × (files : List File) × (tserver W shared 1 (some text) input s.served
          ≡ ok out)
        × Perm out files
        × Apart out
        × AreAnswers q movies reqs files
  tserver_lem shared text input {movies} {reqs} read differ h r joined =
      let (files, all, answers) = answer_all-AreAnswers q movies reqs h in
      let apart = AreAnswers-Apart q movies reqs files differ answers in
      let (out, run, p, own) = tserver-answer_all shared text input read all apart r joined in
      (out, files, run, p, own, answers)
