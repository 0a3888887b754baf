-- ===== src/Recommender/Sort.antt =====
-- lib.c: the selection sort that hands each place its title with a secret, and stops the program
-- where an assertion fails. The parallel arrays `movies` and `pts` are one list of rows, and the
-- part of them from an index on is the rest of that list.
pub mod Choice
pub mod Correct
use Prim.Native.Nat.{Ordering}
use sp.Base.{
  ℕ, zero, suc, ◌-◌, Bool, true, false, ◌&&◌, List, [], ◌∷◌, ◌++◌, ltb, leb, if◌then◌else◌, length,
  get_or, set, Result, ok, err, assertion, bad_access, guard, ◌>>=◌, ◌>>◌,
}
use sp.Base.Text.{Bytes, codes, strcmp}
use sp.Recommender.Double.{Double, ge}

pub record Row (W : Type 0) : Type 0 where
  pub title : Bytes
  pub pts : W

abbrev pub max_len : ℕ
max_len = 0xff

-- `"\t[It's top secret.]"`
abbrev pub secret_text : Bytes
secret_text = codes "[It's top secret.]"

abbrev pub secret : Bytes
secret = 9 ∷ secret_text

unfoldable pub add_secret : Bytes → Result Bytes
add_secret s = do guard (ltb (length s) max_len) assertion; ok (s ++ secret)

-- `strcmp(s, t) > 0`
abbrev pub is_above : Bytes → Bytes → Bool
is_above s t = elim (strcmp s t) [ Ordering.gt ↦ true | _ ↦ false ]

-- The variables of `argmax`; `title` is `movie[ret]`.
pub record Best (W : Type 0) : Type 0 where
  pub ret : ℕ
  pub title : Bytes
  pub max : W

module _ {W : Type 0} ⦃d : Double W⦄ where
  -- One round of the loop of `argmax`, at index `i`.
  unfoldable pub argmax_step : Row W → ℕ → Best W → Best W
  argmax_step r i b =
      if d.gt r.pts b.max
      then record { ret = i; title = r.title; max = r.pts }
      else (if d.eq r.pts b.max && is_above b.title r.title
          then record b { ret = i; title = r.title }
          else b)

  unfoldable pub argmax_loop : List (Row W) → ℕ → Best W → Best W
  unfolding argmax_step
  argmax_loop [] i b = b
  argmax_loop (r ∷ rest) i b = argmax_loop rest (suc i) (argmax_step r i b)

  -- The index counts from `start`, the head of the list.
  unfoldable pub argmax : List (Row W) → Result ℕ
  unfolding argmax_loop
  argmax [] = err assertion
  argmax (r ∷ rest) =
      let b = argmax_loop (r ∷ rest) 0 (record { ret = 0; title = r.title; max = d.minus_one }) in
      do guard (ge b.max d.zero_point) assertion; ok b.ret

-- `swap` of the first row and the row `idx` places on.
unfoldable pub swap {ℓ} : {A : Type ℓ} → List A → ℕ → List A
swap [] idx = []
swap (r ∷ rest) zero = r ∷ rest
swap (r ∷ rest) (suc idx) = get_or rest idx r ∷ set rest idx r

module _ {W : Type 0} where
  -- `movies[i] = add_secret(movies[i], strlen(movies[i]))`
  unfoldable pub mark : Row W → Result (Row W)
  unfolding add_secret
  mark r = do s ← add_secret r.title; ok (record r { title = s })

  -- The same at `size - 1`; with no row that is `movies[-1]`.
  unfoldable pub mark_last : List (Row W) → Result (List (Row W))
  unfolding mark
  mark_last [] = err bad_access
  mark_last (r ∷ []) = do s ← mark r; ok (s ∷ [])
  mark_last (r ∷ x ∷ rest) = do out ← mark_last (x ∷ rest); ok (r ∷ out)

module _ {W : Type 0} ⦃d : Double W⦄ where
  -- The loop of `sort`, by the rounds that are left.
  unfoldable pub rounds : ℕ → List (Row W) → Result (List (Row W))
  unfolding argmax swap mark mark_last
  rounds zero rest = mark_last rest
  rounds (suc n) rest = do
    idx ← argmax rest
    guard (ltb idx (length rest)) assertion
    elim (swap rest idx) [
      | [] ↦ err bad_access
      | r ∷ others ↦ do s ← mark r; out ← rounds n others; ok (s ∷ out)
    ]

  unfoldable pub sort : (num_of_movies : ℕ) → List (Row W) → Result (List (Row W))
  unfolding rounds
  sort num_of_movies rows = do
    guard (leb (length rows) num_of_movies) assertion
    rounds (length rows - 1) rows
