-- ===== src/Recommender/Load/Text.antt =====
-- The text of a file of movies: a first row, which is passed over, and a row for each movie.
use sp.Base.{
  ℕ, zero, suc, ◌+◌, ◌-◌, ◌≤◌, ◌<◌, ◌≡◌, ◌≢◌, refl, ap, ◌∙◌, sym, subst, List, [], ◌∷◌, ◌++◌,
  lt→ltb, not_eq, length, length-append, map, All, arith, ok,
}
use sp.Base.Text.{Bytes}
use sp.Recommender.Double.{Double}
use sp.Recommender.Sort.{max_len}
use sp.Recommender.Serve.{Movie, num_of_genre}
use sp.Recommender.Load.{Numbers, max_movies, fgets, load_line, load_lines, load_movies}
use sp.Recommender.Load.Tokens.{IsFree, IsToken}
use sp.Recommender.Load.Lines.{row, movie, load_line-row}

-- What a row is made of; the newline is part of the last field.
pub record Entry : Type 0 where
  pub id : Bytes
  pub title : Bytes
  pub last : ℕ
  pub fields : List Bytes

abbrev pub line_of : Entry → Bytes
line_of e = row e.id e.title e.last e.fields

-- A row without NUL that fits the buffer and has all parts.
pub record IsEntry (e : Entry) : Type 0 where
  pub id : IsToken b' ' e.id
  pub title : IsFree b'{' e.title
  pub last : e.last ≢ b'{'
  pub fields : All (IsToken b',') e.fields
  pub no_nul : All (λ c. c ≢ 0) (line_of e)
  pub all_genres : length e.fields ≡ num_of_genre
  pub body : Bytes
  pub one_line : IsFree 10 body
  pub ends : line_of e ≡ body ++ (10 ∷ [])
  pub fits : length body < max_len - 1

abbrev pub text_of : List Entry → Bytes
text_of [] = []
text_of (e ∷ es) = line_of e ++ text_of es

fgets-line :
    (left : ℕ) (l rest : Bytes)
    → IsFree 10 l
    → length l < left
    → fgets left ((l ++ (10 ∷ [])) ++ rest) ≡ (l ++ (10 ∷ []), rest)
unfolding fgets
fgets-line zero l rest h fits = absurd (omega arith)
fgets-line (suc left) [] rest h fits = refl
fgets-line (suc left) (c ∷ l) rest h fits =
    rw (fgets-line left l rest h.1 (omega arith), not_eq c 10 h.0)

ended_some : (l rest : Bytes) → (l ++ (10 ∷ [])) ++ rest ≢ []
ended_some [] rest = λ e. cc
ended_some (c ∷ l) rest = λ e. cc

text_long : (es : List Entry) → All IsEntry es → length es ≤ length (text_of es)
text_long [] h = omega arith
text_long (e ∷ es) h =
    let size = length-append (line_of e) (text_of es) in
    let line = ap length h.0.ends ∙ length-append h.0.body (10 ∷ []) in
    omega (arith, size, line, text_long es h.1)

module _ {W : Type 0} ⦃d : Double W⦄ ⦃n : Numbers W⦄ where
  abbrev pub movie_of : Entry → Movie W
  movie_of e = movie e.id e.title e.fields

  load_lines-step :
      (rounds cnt : ℕ) (s chunk rest : Bytes) (m : Movie W) (movies : List (Movie W))
      → s ≢ []
      → fgets (max_len - 1) s ≡ (chunk, rest)
      → cnt < max_movies
      → load_line chunk ≡ ok m
      → load_lines rounds (cnt + 1) rest ≡ ok movies
      → load_lines (suc rounds) cnt s ≡ ok (m ∷ movies)
  unfolding load_lines
  load_lines-step rounds cnt [] chunk rest m movies more got few h k = absurd (more refl)
  load_lines-step rounds cnt (c ∷ s) chunk rest m movies more got few h k =
      rw (got, lt→ltb cnt max_movies few, h, k) refl

  load_lines-text :
      (rounds cnt : ℕ) (es : List Entry)
      → All IsEntry es
      → length es < rounds
      → cnt + length es ≤ max_movies
      → load_lines rounds cnt (text_of es) ≡ ok (map movie_of es)
  unfolding load_lines
  load_lines-text zero cnt es h more room = absurd (omega arith)
  load_lines-text (suc rounds) cnt [] h more room = refl
  load_lines-text (suc rounds) cnt (e ∷ es) h more room =
      let i = h.0 in
      let read =
        load_line-row e.id e.title e.last e.fields i.id i.title i.last i.fields i.all_genres
          i.no_nul in
      let got =
        subst (λ l. fgets (max_len - 1) (l ++ text_of es) ≡ (l, text_of es)) (sym i.ends)
          (fgets-line (max_len - 1) i.body (text_of es) i.one_line i.fits) in
      load_lines-step rounds cnt (line_of e ++ text_of es) (line_of e) (text_of es) (movie_of e)
        (map movie_of es)
        (λ empty. ended_some i.body (text_of es) (ap (λ l. l ++ text_of es) (sym i.ends) ∙ empty))
        got (omega (arith, room)) read
        (load_lines-text rounds (cnt + 1) es h.1 (omega (arith, more)) (omega (arith, room)))

  load_movies-step :
      (s chunk rest : Bytes)
      → s ≢ []
      → fgets (max_len - 1) s ≡ (chunk, rest)
      → load_movies {W = W} s ≡ load_lines (length rest + 1) 0 rest
  unfolding load_movies
  load_movies-step [] chunk rest more got = absurd (more refl)
  load_movies-step (c ∷ s) chunk rest more got = rw got refl

  -- A file of a first row and up to 70000 rows of movies, each without NUL, with its newline
  -- shorter than the buffer and with an id, a title and nineteen genres, is read as these movies, in their order.
  pub load_movies-text :
      (first : Bytes) (es : List Entry)
      → IsFree 10 first
      → length first < max_len - 1
      → All IsEntry es
      → length es ≤ max_movies
      → load_movies ((first ++ (10 ∷ [])) ++ text_of es) ≡ ok (map movie_of es)
  load_movies-text first es hf fits h few =
      load_movies-step ((first ++ (10 ∷ [])) ++ text_of es) (first ++ (10 ∷ [])) (text_of es)
        (ended_some first (text_of es)) (fgets-line (max_len - 1) first (text_of es) hf fits)
      ∙ load_lines-text (length (text_of es) + 1) 0 es h (omega (arith, text_long es h))
          (omega (arith, few))
