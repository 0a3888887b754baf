-- ===== src/Recommender/Main.antt =====
-- server.c: `initialize` with its requests, and the two `main`s from the command line to the files
-- that they write. `file` is `./data/movies.txt`, `none` when it cannot be opened, and `input` is
-- stdin.
pub mod Input
pub mod Disk
pub mod Answers
pub mod First
mod Tests
use sp.Base.{
  Bool, true, false, ◌||◌, if◌then◌else◌, ℕ, zero, suc, ◌-◌, List, [], ◌∷◌, Option, some, none, leb,
  ◌==◌, get_elem?, length, Result, ok, err, guard, assertion, bad_access, exited, ◌>>=◌, ◌>>◌,
}
use sp.Base.Text.{Bytes, until_nul}
use sp.Recommender.Double.{Double}
use sp.Recommender.Sort.{max_len}
use sp.Recommender.Serve.{Movie, Request, File, is_same, recommend, recommend_process}
use sp.Recommender.Load.{Numbers, load_movies, read_request}
use sp.Recommender.Scan.{scan_int, scan_unsigned, scan_word}

abbrev pub max_req : ℕ
max_req = 255

-- A value that is used: without it a variable is read that nothing has set, or NULL.
abbrev pub must_read {ℓ} : {A : Type ℓ} → Option A → Result A
must_read none = err bad_access
must_read (some a) = ok a

-- `fopen`, after which NULL ends the program.
abbrev pub fopen : Option Bytes → Result Bytes
fopen none = err exited
fopen (some text) = ok text

-- `num_of_reqs`, which stays 0 when there is no number.
abbrev pub count_of : Option (ℕ × Bytes) → Bytes → ℕ × Bytes
count_of none input = (0, input)
count_of (some (num, rest)) input = (num, rest)

module _ {W : Type 0} ⦃d : Double W⦄ where
  -- `Recommend(cur)`, where `reqs[cur]` is NULL behind the last request.
  unfoldable pub call : List (Movie W) → List (Request W) → ℕ → Result File
  call movies reqs cur = do r ← must_read (get_elem? reqs cur); recommend movies r

  -- The calls of `Recommend` by the workers, latest first, and what each prints to its file.
  unfoldable pub calls : List (Movie W) → List (Request W) → List ℕ → Result (List File)
  unfolding call
  calls movies reqs [] = ok []
  calls movies reqs (cur ∷ served) = do
    files ← calls movies reqs served
    f ← call movies reqs cur
    ok (f ∷ files)

module _ {W : Type 0} ⦃d : Double W⦄ ⦃n : Numbers W⦄ where
  -- `read_request` with its scanf; the arrays are read up to their first NUL.
  unfoldable pub scan_request : Bytes → Result (Request W × Bytes)
  unfolding scan_unsigned scan_word until_nul
  scan_request input = do
    number ← scan_unsigned input
    (id, input1) ← must_read number
    (buf1, input2) ← must_read (scan_word (max_len - 1) input1)
    (buf2, input3) ← must_read (scan_word (max_len - 1) input2)
    r ← read_request id (until_nul buf1) (until_nul buf2)
    ok (r, input3)

  unfoldable pub read_requests : (left : ℕ) → Bytes → Result (List (Request W))
  read_requests zero input = ok []
  read_requests (suc left) input = do
    (r, rest) ← scan_request input
    reqs ← read_requests left rest
    ok (r ∷ reqs)

  unfoldable pub initialize : (text input : Bytes) → Result (List (Movie W) × List (Request W))
  unfolding scan_int
  initialize text input = do
    movies ← load_movies text
    number ← scan_int input
    let (num, rest) = count_of number input
    guard (leb num max_req) assertion
    reqs ← read_requests num rest
    ok (movies, reqs)

-- The files whose streams are open, by name.
abbrev pub is_open : Bytes → List File → Bool
is_open name [] = false
is_open name (g ∷ files) = is_same g.name name || is_open name files

-- No stream is closed before the end, so that two of one name write to one file; `shared` is what
-- they leave there.
module _ (shared : (name earlier later : Bytes) → Bytes) where
  unfoldable pub overwrite : File → List File → List File
  overwrite f [] = []
  overwrite f (g ∷ files) =
      let rest = overwrite f files in
      if is_same g.name f.name
      then record g { text = shared f.name g.text f.text } ∷ files
      else g ∷ rest

  unfoldable pub write_file : File → List File → List File
  unfolding overwrite
  write_file f files = if is_open f.name files then overwrite f files else f ∷ files

  -- What is there of the texts that were printed to files, latest first.
  unfoldable pub disk : List File → List File
  unfolding write_file
  disk [] = []
  disk (f ∷ files) = write_file f (disk files)

module _ (W : Type 0) ⦃d : Double W⦄ ⦃n : Numbers W⦄ where
  -- `main` of the threads, whose workers have called `Recommend` as `served` says: the files at the
  -- end.
  unfoldable pub tserver :
      (shared : (name earlier later : Bytes) → Bytes) (argc : ℕ)
      → Option Bytes
      → Bytes
      → List ℕ
      → Result (List File)
  unfolding disk
  tserver shared argc file input served = do
    guard (argc == 1) exited
    text ← fopen file
    (movies, reqs) ← initialize {W = W} text input
    printed ← calls movies reqs served
    ok (disk shared printed)

  -- `main` of the processes answers the request at `front`, which is 0 after one `pop`.
  unfoldable pub pserver : (argc : ℕ) → Option Bytes → Bytes → Result File
  pserver argc file input = do
    guard (argc == 1) exited
    text ← fopen file
    (movies, reqs) ← initialize {W = W} text input
    r ← must_read (get_elem? reqs 0)
    recommend_process movies r
