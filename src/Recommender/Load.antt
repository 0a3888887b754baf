-- ===== src/Recommender/Load.antt =====
-- server.c: how `initialize` reads the movies from the text of a file, line by line.
pub mod Tokens
pub mod Profile
pub mod Lines
pub mod Text
pub mod Requests
mod Tests
use sp.Base.{
  ℕ, zero, suc, ◌+◌, ◌-◌, Bool, true, false, List, [], ◌∷◌, Option, some, none, ltb, ◌==◌,
  if◌then◌else◌, length, take, get_or, map, Result, ok, err, guard, assertion, bad_access, exited,
  unfinished, ◌>>=◌, ◌>>◌,
}
use sp.Base.Text.{Bytes, until_nul}
use sp.Recommender.Double.{Double}
use sp.Recommender.Sort.{max_len}
use sp.Recommender.Serve.{Movie, Request, num_of_genre}

-- The functions of stdlib.h and math.h, and the division, that turn texts into profiles.
pub record Numbers (W : Type 0) : Type 0 where
  pub atoi : Bytes → ℕ
  pub strtod : Bytes → W
  pub sqrt : W → W
  pub div : W → W → W

abbrev pub max_movies : ℕ
max_movies = 70000

unfoldable pub skip : ℕ → Bytes → Bytes
skip d [] = []
skip d (c ∷ s) = let rest = skip d s in if c == d then rest else c ∷ s

-- The bytes before the delimiter, and those behind it.
unfoldable pub cut : ℕ → Bytes → Bytes × Bytes
cut d [] = ([], [])
cut d (c ∷ s) = let (t, rest) = cut d s in if c == d then ([], s) else (c ∷ t, rest)

abbrev pub cut_some : ℕ → Bytes → Option (Bytes × Bytes)
cut_some d [] = none
cut_some d (c ∷ s) = some (cut d (c ∷ s))

-- `strtok` with the delimiter `d`: the token, and the text that it keeps for the next call; `none`
-- is NULL, after which nothing is kept.
unfoldable pub strtok : ℕ → Bytes → Option (Bytes × Bytes)
unfolding skip cut
strtok d s = cut_some d (skip d s)

-- A use of a token that must not be NULL.
abbrev pub token : Option (Bytes × Bytes) → Result (Bytes × Bytes)
token none = err bad_access
token (some t) = ok t

-- At most `left` bytes, and none behind a newline.
unfoldable pub fgets : (left : ℕ) → Bytes → Bytes × Bytes
fgets zero s = ([], s)
fgets (suc left) [] = ([], [])
fgets (suc left) (c ∷ s) =
    let (line, rest) = fgets left s in if c == 10 then (c ∷ [], s) else (c ∷ line, rest)

module _ {W : Type 0} ⦃d : Double W⦄ ⦃n : Numbers W⦄ where
  -- The loop that fills `profile` and sums the squares, with `left` rounds to go.
  unfoldable pub read_profile : (left : ℕ) → Option (Bytes × Bytes) → W → Result (List W × W)
  read_profile zero t sum = ok ([], sum)
  read_profile (suc left) none sum = err bad_access
  read_profile (suc left) (some (t, rest)) sum = do
    let ret = n.strtod t
    (profile, total) ← read_profile left (strtok b',' rest) (d.add sum (d.mul ret ret))
    ok (ret ∷ profile, total)

  unfoldable pub normalize : W → List W → List W
  normalize sum profile =
      map (λ x. if d.eq sum d.zero_point then d.zero_point else n.div x sum) profile

  -- A profile is read by index.
  abbrev pub profile_of : List W → ℕ → W
  profile_of profile i = get_or profile i d.zero_point

  -- `read_request`, for the three values that `scanf` has read.
  unfoldable pub read_request : ℕ → Bytes → Bytes → Result (Request W)
  read_request id buf1 buf2 = do
    (profile, sum) ← read_profile num_of_genre (strtok b',' buf2) d.zero_point
    ok (record { id = id; keywords = buf1; profile = profile_of (normalize (n.sqrt sum) profile) })

  -- One round of the loop of `initialize`: id, title and genres of the C string in `chunk`.
  unfoldable pub load_line : Bytes → Result (Movie W)
  unfolding until_nul
  load_line chunk = do
    (id, s) ← token (strtok b' ' (until_nul chunk))
    (title, genres) ← token (strtok b'{' s)
    (profile, sum) ← read_profile num_of_genre (strtok b',' genres) d.zero_point
    ok (record {
      movie_id = n.atoi id;
      title = take (length title - 1) title;
      profile = profile_of (normalize (n.sqrt sum) profile);
    })

  -- The loop, where `cnt` movies are read already.
  unfoldable pub load_lines : (rounds cnt : ℕ) → Bytes → Result (List (Movie W))
  load_lines zero cnt s = err unfinished
  load_lines (suc rounds) cnt [] = ok []
  load_lines (suc rounds) cnt (c ∷ s) = do
    let (chunk, rest) = fgets (max_len - 1) (c ∷ s)
    guard (ltb cnt max_movies) assertion
    m ← load_line chunk
    movies ← load_lines rounds (cnt + 1) rest
    ok (m ∷ movies)

  -- The first row is passed over; each round reads a byte at least.
  unfoldable pub load_movies : Bytes → Result (List (Movie W))
  load_movies [] = err exited
  load_movies (c ∷ s) =
      let (_, rest) = fgets (max_len - 1) (c ∷ s) in load_lines (length rest + 1) 0 rest
