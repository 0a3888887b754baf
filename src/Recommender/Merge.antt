-- ===== src/Recommender/Merge.antt =====
-- server.c, `mergeSort` of the threads: the upper levels split the rows, the leaves call `sort` of
-- lib.c on each half, and every level merges its halves by the titles as `sort` left them.
pub mod Correct
use Prim.Native.Nat.{Ordering}
use sp.Base.{
  ℕ, zero, suc, ◌/◌, Bool, true, false, ◌&&◌, ◌||◌, List, [], ◌∷◌, take, drop, length, Result, ok,
  ◌>>=◌,
}
use sp.Base.Text.{Bytes, strcmp}
use sp.Recommender.Double.{Double}
use sp.Recommender.Sort.{Row, sort}

-- `depth`, `mergeThread`
abbrev pub depth : ℕ
depth = 5

abbrev pub merge_thread : ℕ
merge_thread = 32

-- `strcmp(s, t) < 0`
abbrev pub is_below : Bytes → Bytes → Bool
is_below s t = elim (strcmp s t) [ Ordering.lt ↦ true | _ ↦ false ]

module _ {W : Type 0} ⦃d : Double W⦄ where
  -- The test of the merge.
  unfoldable pub precedes : Row W → Row W → Bool
  precedes a b = d.gt a.pts b.pts || (d.eq a.pts b.pts && is_below a.title b.title)

  -- The three loops that fill `tmp_movies` and `tmp_pts`, from `key1` and `key2` on.
  unfoldable pub merge : List (Row W) → List (Row W) → List (Row W)
  unfolding precedes
  merge [] bs = bs
  merge (a ∷ ls) [] = a ∷ ls
  merge (a ∷ ls) (b ∷ bs) = elim (precedes a b) [
    | true ↦ a ∷ merge ls (b ∷ bs)
    | false ↦ b ∷ merge (a ∷ ls) bs
  ]

  -- `levels` is `depth - 1 - Input->depth`. The two threads of a level work on separate halves, and
  -- a fault in either ends the process.
  unfoldable pub merge_sort : (levels num_of_movies : ℕ) → List (Row W) → Result (List (Row W))
  unfolding merge
  merge_sort zero num rows = do
    left ← sort num (take (length rows / 2) rows)
    right ← sort num (drop (length rows / 2) rows)
    ok (merge left right)
  merge_sort (suc levels) num rows = do
    left ← merge_sort levels num (take (length rows / 2) rows)
    right ← merge_sort levels num (drop (length rows / 2) rows)
    ok (merge left right)
