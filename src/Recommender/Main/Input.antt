-- ===== src/Recommender/Main/Input.antt =====
-- The text of the requests: their number, and a line for each with its id, keywords and profile.
use sp.Base.{
  ℕ, ◌-◌, ◌^◌, ◌<◌, ◌≤◌, ◌≡◌, ◌≢◌, refl, ◌∙◌, List, [], ◌∷◌, ◌++◌, some, length, le→leb, take, map,
  All, false, arith, ok, ltb,
}
use sp.Base.Text.{Bytes, until_nul-whole}
use sp.Base.Decimal.{decimal}
use sp.Recommender.Double.{Double}
use sp.Recommender.Sort.{max_len}
use sp.Recommender.Serve.{Movie, Request, num_of_genre}
use sp.Recommender.Load.{Numbers, max_movies, normalize, profile_of, load_movies, read_request}
use sp.Recommender.Load.Tokens.{IsFree, IsToken, join}
use sp.Recommender.Load.Profile.{squares}
use sp.Recommender.Load.Requests.{read_request_lem}
use sp.Recommender.Load.Text.{Entry, IsEntry, text_of, movie_of, load_movies-text}
use sp.Recommender.Scan.{scan_int, scan_unsigned, scan_word}
use sp.Recommender.Scan.Laws.{
  IsEnd, IsWord, scan_word-append, scan_int-decimal, scan_unsigned-decimal,
}
use sp.Recommender.Main.{max_req, scan_request, read_requests, initialize}

-- What a line is made of.
pub record Query : Type 0 where
  pub id : ℕ
  pub keywords : Bytes
  pub fields : List Bytes

-- A line whose words have no NUL and fit the buffers, with nineteen numbers at least.
pub record IsQuery (q : Query) : Type 0 where
  pub id : q.id < 2 ^ 32
  pub keywords : IsWord (max_len - 1) q.keywords
  pub profile : IsWord (max_len - 1) (join b',' q.fields)
  pub keywords_no_nul : All (λ c. c ≢ 0) q.keywords
  pub profile_no_nul : All (λ c. c ≢ 0) (join b',' q.fields)
  pub fields : All (IsToken b',') q.fields
  pub all_genres : num_of_genre ≤ length q.fields

-- The lines, each behind the newline of the one before.
abbrev pub lines_of : List Query → Bytes
lines_of [] = 10 ∷ []
lines_of (q ∷ qs) =
    10 ∷ (decimal q.id ++ (b' ' ∷ (q.keywords ++ (b' ' ∷ (join b',' q.fields ++ lines_of qs)))))

abbrev pub input_of : List Query → Bytes
input_of qs = decimal (length qs) ++ lines_of qs

lines_of-IsEnd : (qs : List Query) → IsEnd (lines_of qs)
lines_of-IsEnd [] = refl
lines_of-IsEnd (q ∷ qs) = refl

module _ {W : Type 0} ⦃d : Double W⦄ ⦃n : Numbers W⦄ where
  -- The request that a line stands for: the first nineteen numbers, normalised.
  abbrev pub request_of : Query → Request W
  request_of q =
      let genres = take num_of_genre q.fields in
      record {
        id = q.id;
        keywords = q.keywords;
        profile =
            profile_of (normalize (n.sqrt (squares d.zero_point genres)) (map n.strtod genres));
      }

  scan_request_step :
      (input input1 input2 input3 : Bytes) (id : ℕ) (buf1 buf2 : Bytes) (r : Request W)
      → scan_unsigned input ≡ ok (some (id, input1))
      → scan_word (max_len - 1) input1 ≡ some (buf1, input2)
      → scan_word (max_len - 1) input2 ≡ some (buf2, input3)
      → All (λ c. c ≢ 0) buf1
      → All (λ c. c ≢ 0) buf2
      → read_request id buf1 buf2 ≡ ok r
      → scan_request input ≡ ok (r, input3)
  unfolding scan_request
  scan_request_step input input1 input2 input3 id buf1 buf2 r h e f z1 z2 g =
      rw (h, e, f, until_nul-whole buf1 z1, until_nul-whole buf2 z2, g) refl

  read_request-Query :
      (q : Query)
      → IsQuery q
      → read_request q.id q.keywords (join b',' q.fields) ≡ ok (request_of q)
  read_request-Query q i =
      let enough : ltb (length q.fields) num_of_genre ≡ false = ground (arith, i.all_genres) in
      read_request_lem q.id q.keywords q.fields i.fields ∙ rw enough refl

  scan_request-Query :
      (q : Query) (rest : Bytes)
      → IsQuery q
      → IsEnd rest
      → scan_request
          (10 ∷ (decimal q.id ++ (b' ' ∷ (q.keywords ++ (b' ' ∷ (join b',' q.fields ++ rest))))))
        ≡ ok (request_of q, rest)
  scan_request-Query q rest i e =
      let third = join b',' q.fields ++ rest in
      let second = q.keywords ++ (b' ' ∷ third) in
      scan_request_step (10 ∷ (decimal q.id ++ (b' ' ∷ second))) (b' ' ∷ second) (b' ' ∷ third) rest
        q.id q.keywords (join b',' q.fields) (request_of q)
        (scan_unsigned-decimal 10 q.id (b' ' ∷ second) refl i.id refl)
        (scan_word-append (max_len - 1) b' ' q.keywords (b' ' ∷ third) refl i.keywords refl)
        (scan_word-append (max_len - 1) b' ' (join b',' q.fields) rest refl i.profile e)
        i.keywords_no_nul i.profile_no_nul (read_request-Query q i)

  read_requests-lines_of :
      (qs : List Query)
      → All IsQuery qs
      → read_requests (length qs) (lines_of qs) ≡ ok (map request_of qs)
  unfolding read_requests
  read_requests-lines_of [] h = refl
  read_requests-lines_of (q ∷ qs) h =
      rw (scan_request-Query q (lines_of qs) h.0 (lines_of-IsEnd qs), read_requests-lines_of qs h.1)
        refl

  initialize_steps :
      (text input rest : Bytes) (num : ℕ) (movies : List (Movie W)) (reqs : List (Request W))
      → load_movies text ≡ ok movies
      → scan_int input ≡ ok (some (num, rest))
      → num ≤ max_req
      → read_requests num rest ≡ ok reqs
      → initialize text input ≡ ok (movies, reqs)
  unfolding initialize
  initialize_steps text input rest num movies reqs h e k f = rw (h, e, le→leb num max_req k, f) refl

  -- From a file of a first row and up to 70000 movies, each row without NUL, with its newline shorter
  -- than the buffer and with an id, a title and nineteen genres, and from the number of requests, up
  -- to 255, and a line for each with an id below 2 ^ 32, keywords and a list of nineteen numbers or
  -- more, both of 254 bytes at most, without white space and NUL, `initialize` has these movies and
  -- these requests, both in their order, with normalised profiles.
  pub initialize-text :
      (first : Bytes) (es : List Entry) (qs : List Query)
      → IsFree 10 first
      → length first < max_len - 1
      → All IsEntry es
      → length es ≤ max_movies
      → All IsQuery qs
      → length qs ≤ max_req
      → initialize ((first ++ (10 ∷ [])) ++ text_of es) (input_of qs)
        ≡ ok (map movie_of es, map request_of qs)
  initialize-text first es qs hf fits he few hq small =
      initialize_steps ((first ++ (10 ∷ [])) ++ text_of es) (input_of qs) (lines_of qs) (length qs)
        (map movie_of es) (map request_of qs) (load_movies-text first es hf fits he few)
        (scan_int-decimal (length qs) (lines_of qs) (omega (arith, small)) (lines_of-IsEnd qs))
        small (read_requests-lines_of qs hq)
