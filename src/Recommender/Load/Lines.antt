-- ===== src/Recommender/Load/Lines.antt =====
-- What a row of the file of movies has to look like, and that it is read as what it says.
use sp.Base.{
  ℕ, ◌-◌, ◌≡◌, ◌≢◌, refl, ap, ◌∙◌, subst, List, [], ◌∷◌, ◌++◌, some, length, length-append, take,
  map, All, All-append, arith, ok,
}
use sp.Base.Text.{Bytes, until_nul-whole}
use sp.Recommender.Double.{Double}
use sp.Recommender.Serve.{Movie, num_of_genre}
use sp.Recommender.Load.{Numbers, strtok, read_profile, normalize, profile_of, load_line}
use sp.Recommender.Load.Tokens.{IsFree, IsToken, join, strtok-append}
use sp.Recommender.Load.Profile.{squares, read_profile-all}

take_front : (s t : Bytes) → take (length s) (s ++ t) ≡ s
take_front [] t = refl
take_front (c ∷ s) t = ap (◌∷◌ c) (take_front s t)

but_last : (s : Bytes) (c : ℕ) → take (length (s ++ c ∷ []) - 1) (s ++ c ∷ []) ≡ s
but_last s c =
    ap (λ k. take k (s ++ c ∷ [])) (omega (arith, length-append s (c ∷ []))) ∙ take_front s (c ∷ [])

snoc_some : (s : Bytes) (c : ℕ) → s ++ c ∷ [] ≢ []
snoc_some [] c = λ e. cc
snoc_some (x ∷ s) c = λ e. cc

-- A row: the id, a space, the title, one more byte, a brace and the genres between commas; what
-- follows the last number is in the last field.
abbrev pub row : (id title : Bytes) (last : ℕ) (fields : List Bytes) → Bytes
row id title last fields = id ++ (b' ' ∷ ((title ++ (last ∷ [])) ++ (b'{' ∷ join b',' fields)))

module _ {W : Type 0} ⦃d : Double W⦄ ⦃n : Numbers W⦄ where
  -- The movie that a row stands for.
  abbrev pub movie : (id title : Bytes) (fields : List Bytes) → Movie W
  movie id title fields = record {
    movie_id = n.atoi id;
    title = title;
    profile = profile_of (normalize (n.sqrt (squares d.zero_point fields)) (map n.strtod fields));
  }

  load_line_steps :
      (chunk id s title genres : Bytes) (profile : List W) (sum : W)
      → All (λ c. c ≢ 0) chunk
      → strtok b' ' chunk ≡ some (id, s)
      → strtok b'{' s ≡ some (title, genres)
      → read_profile num_of_genre (strtok b',' genres) d.zero_point ≡ ok (profile, sum)
      → load_line chunk
        ≡ ok (record {
          movie_id = n.atoi id;
          title = take (length title - 1) title;
          profile = profile_of (normalize (n.sqrt sum) profile);
        })
  unfolding load_line
  load_line_steps chunk id s title genres profile sum z h e k =
      rw (until_nul-whole chunk z, h, e, k) refl

  -- A row without NUL with an id, a title and nineteen fields is read as that movie, its profile normalised.
  pub load_line-row :
      (id title : Bytes) (last : ℕ) (fields : List Bytes)
      → IsToken b' ' id
      → IsFree b'{' title
      → last ≢ b'{'
      → All (IsToken b',') fields
      → length fields ≡ num_of_genre
      → All (λ c. c ≢ 0) (row id title last fields)
      → load_line (row id title last fields) ≡ ok (movie id title fields)
  unfolding load_line
  load_line-row id title last fields hi ht hl hf len hz =
      let named : IsToken b'{' (title ++ last ∷ []) =
        (snoc_some title last, All-append (λ c. c ≢ b'{') title (last ∷ []) ht (hl, tt)) in
      let genres =
        subst
          (λ k.
            read_profile k (strtok b',' (join b',' fields)) d.zero_point
            ≡ ok (map n.strtod fields, squares d.zero_point fields))
          len (read_profile-all fields d.zero_point hf) in
      load_line_steps (row id title last fields) id
        ((title ++ (last ∷ [])) ++ (b'{' ∷ join b',' fields)) (title ++ last ∷ [])
        (join b',' fields) (map n.strtod fields) (squares d.zero_point fields) hz
        (strtok-append b' ' id ((title ++ (last ∷ [])) ++ (b'{' ∷ join b',' fields)) hi)
        (strtok-append b'{' (title ++ last ∷ []) (join b',' fields) named) genres
      ∙ ap
          (λ t. ok (record {
            movie_id = n.atoi id;
            title = t;
            profile =
                profile_of (normalize (n.sqrt (squares d.zero_point fields)) (map n.strtod fields));
          }))
          (but_last title last)
