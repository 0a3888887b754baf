-- ===== src/Recommender/Load/Profile.antt =====
-- The loop that reads the numbers of a profile, on a list of fields between commas.
use sp.Base.{
  ℕ, zero, suc, ◌≡◌, refl, ap, ◌∙◌, inl, inr, false, List, [], ◌∷◌, some, none, ltb, lt→ltb,
  if◌then◌else◌, length, take, map, All, arith, Result, ok, err, bad_access, ◌>>=◌, Bool-cases,
}
use sp.Base.Text.{Bytes}
use sp.Recommender.Double.{Double}
use sp.Recommender.Load.{Numbers, strtok, read_profile}
use sp.Recommender.Load.Tokens.{IsToken, join, strtok-append, strtok_all}

strtok_empty : (d : ℕ) → strtok d [] ≡ none
unfolding strtok
strtok_empty d = refl

ltb-suc : (a b : ℕ) → ltb (suc a) (suc b) ≡ ltb a b
ltb-suc a b = ground arith

take_all : {A : Type 0} (xs : List A) → take (length xs) xs ≡ xs
take_all [] = refl
take_all (x ∷ xs) = ap (◌∷◌ x) (take_all xs)

ltb_refl : (a : ℕ) → ltb a a ≡ false
ltb_refl a = ground arith

module _ {W : Type 0} ⦃d : Double W⦄ ⦃n : Numbers W⦄ where
  -- The sum of the squares, from the left.
  abbrev pub squares : W → List Bytes → W
  squares sum [] = sum
  squares sum (t ∷ ts) = squares (d.add sum (d.mul (n.strtod t) (n.strtod t))) ts

  -- What is left to read for `left` entries of the profile.
  abbrev pub outcome : ℕ → List Bytes → W → Result (List W × W)
  outcome left fields sum =
      if ltb (length fields) left
      then err bad_access
      else ok (map n.strtod (take left fields), squares sum (take left fields))

  abbrev put_first : W → Result (List W × W) → Result (List W × W)
  put_first x r = do (profile, total) ← r; ok (x ∷ profile, total)

  outcome-suc :
      (left : ℕ) (t : Bytes) (ts : List Bytes) (sum : W)
      → put_first (n.strtod t) (outcome left ts (d.add sum (d.mul (n.strtod t) (n.strtod t))))
        ≡ outcome (suc left) (t ∷ ts) sum
  outcome-suc left t ts sum = elim (Bool-cases (ltb (length ts) left)) [
    | inl short ↦ rw (ltb-suc (length ts) left, short) refl
    | inr long ↦ rw (ltb-suc (length ts) left, long) refl
  ]

  read_profile_step :
      (left : ℕ) (t rest : Bytes) (sum : W)
      → read_profile (suc left) (some (t, rest)) sum
        ≡ put_first
            (n.strtod t)
            (read_profile left (strtok b',' rest) (d.add sum (d.mul (n.strtod t) (n.strtod t))))
  unfolding read_profile
  read_profile_step left t rest sum = refl

  pub read_profile_lem :
      (left : ℕ) (fields : List Bytes) (sum : W)
      → All (IsToken b',') fields
      → read_profile left (strtok b',' (join b',' fields)) sum ≡ outcome left fields sum
  unfolding read_profile
  read_profile_lem zero fields sum h = ground arith
  read_profile_lem (suc left) [] sum h =
      rw (strtok_empty b',', lt→ltb 0 (suc left) (omega arith)) refl
  read_profile_lem (suc left) (t ∷ []) sum h =
      ap (λ o. read_profile (suc left) o sum) (strtok_all b',' t h.0)
      ∙ ap (put_first (n.strtod t)) (read_profile_lem left [] _ tt)
      ∙ outcome-suc left t [] sum
  read_profile_lem (suc left) (t ∷ u ∷ ts) sum h =
      ap (λ o. read_profile (suc left) o sum) (strtok-append b',' t (join b',' (u ∷ ts)) h.0)
      ∙ ap (put_first (n.strtod t)) (read_profile_lem left (u ∷ ts) _ h.1)
      ∙ outcome-suc left t (u ∷ ts) sum

  -- As many fields as are asked for.
  pub read_profile-all :
      (fields : List Bytes) (sum : W)
      → All (IsToken b',') fields
      → read_profile (length fields) (strtok b',' (join b',' fields)) sum
        ≡ ok (map n.strtod fields, squares sum fields)
  read_profile-all fields sum h =
      read_profile_lem (length fields) fields sum h
      ∙ rw (ltb_refl (length fields), take_all fields) refl
