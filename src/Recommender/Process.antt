-- ===== src/Recommender/Process.antt =====
-- server.c, `mergeSort` of the processes. Titles live in shared buffers of `MAX_LEN` bytes, which
-- `strcpy` fills; a longer text would run over. A child that stops on a fault ends the model's run:
-- what its parent, which does not look at the child's status, makes of the memory is left out.
pub mod Correct
use sp.Base.{
  ℕ, zero, suc, ◌/◌, Bool, true, ◌&&◌, List, [], ◌∷◌, take, drop, length, ltb, Result, ok, guard,
  bad_access, ◌>>=◌, ◌>>◌,
}
use sp.Recommender.Double.{Double}
use sp.Recommender.Sort.{Row, sort, max_len}
use sp.Recommender.Merge.{merge}

module _ {W : Type 0} where
  unfoldable pub fits : List (Row W) → Bool
  fits [] = true
  fits (r ∷ rows) = ltb (length r.title) max_len && fits rows

  -- `strcpy` of each title into a buffer of `MAX_LEN` bytes.
  unfoldable pub strcpy_all : List (Row W) → Result (List (Row W))
  unfolding fits
  strcpy_all rows = do guard (fits rows) bad_access; ok rows

module _ {W : Type 0} ⦃d : Double W⦄ where
  -- A leaf sorts copies of the pointers, so its titles are `add_secret`'s; an upper level copies the
  -- titles that its two children left behind. Each writes its merge back into the shared buffers.
  unfoldable pub merge_sort : (levels num_of_movies : ℕ) → List (Row W) → Result (List (Row W))
  unfolding merge strcpy_all
  merge_sort zero num rows = do
    left ← sort num (take (length rows / 2) rows)
    right ← sort num (drop (length rows / 2) rows)
    strcpy_all (merge left right)
  merge_sort (suc levels) num rows = do
    left ← merge_sort levels num (take (length rows / 2) rows)
    right ← merge_sort levels num (drop (length rows / 2) rows)
    cpy_left ← strcpy_all left
    cpy_right ← strcpy_all right
    strcpy_all (merge cpy_left cpy_right)
