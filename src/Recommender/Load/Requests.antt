-- ===== src/Recommender/Load/Requests.antt =====
-- What becomes of the profile of a request, which is a list of numbers between commas.
use sp.Base.{
  ℕ, ◌≡◌, refl, inl, inr, List, ltb, if◌then◌else◌, length, take, map, All, ok, err, bad_access,
  Bool-cases,
}
use sp.Base.Text.{Bytes}
use sp.Recommender.Double.{Double}
use sp.Recommender.Serve.{num_of_genre}
use sp.Recommender.Load.{Numbers, normalize, profile_of, read_request}
use sp.Recommender.Load.Tokens.{IsToken, join}
use sp.Recommender.Load.Profile.{squares, read_profile_lem}

module _ {W : Type 0} ⦃d : Double W⦄ ⦃n : Numbers W⦄ where
  -- A request whose third word is a list of fields between commas, none of them empty: with fewer
  -- than nineteen the server reads through NULL, and otherwise the first nineteen, normalised, are
  -- its profile.
  pub read_request_lem :
      (id : ℕ) (keywords : Bytes) (fields : List Bytes)
      → All (IsToken b',') fields
      → read_request id keywords (join b',' fields) ≡ (
          let genres = take num_of_genre fields in
          if ltb (length fields) num_of_genre
          then err bad_access
          else ok (record {
            id = id;
            keywords = keywords;
            profile =
                profile_of (normalize (n.sqrt (squares d.zero_point genres)) (map n.strtod genres));
          }))
  unfolding read_request
  read_request_lem id keywords fields h =
      let run = read_profile_lem num_of_genre fields d.zero_point h in
      elim (Bool-cases (ltb (length fields) num_of_genre)) [
        | inl short ↦ rw (run, short) refl
        | inr long ↦ rw (run, long) refl
      ]
