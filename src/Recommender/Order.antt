-- ===== src/Recommender/Order.antt =====
-- The order of the recommendations: by falling score, and by title where scores are equal.
use sp.Base.{ℕ, ◌≡◌, Bool, true, false, ◌&&◌, ◌||◌, List, ltb, ◌==◌, if◌then◌else◌, arith}
use sp.Base.Text.{Bytes, strcmp_refl, eq_of_strcmp, strcmp_flip, strcmp_flip_lt, strcmp_trans}
use sp.Base.Sorted.{TotalOrder}
use sp.Base.Sorted
use sp.Recommender.Double.{Double, IsRanked}
use sp.Recommender.Sort.{Row, is_above}

abbrev pub Key : Type 0
Key = ℕ × Bytes

-- `a` may stand before `b`.
abbrev pub key_le : Key → Key → Bool
key_le a b = ltb b.0 a.0 || (a.0 == b.0 && (if is_above a.1 b.1 then false else true))

pub key_le_refl : (a : Key) → key_le a a ≡ true
key_le_refl (x, s) = ground (arith, strcmp_refl s)

pub key_le_total : (a b : Key) → key_le a b ≡ false → key_le b a ≡ true
key_le_total (x, s) (y, t) h = ground (arith, strcmp_flip s t)

pub key_le_trans : (a b c : Key) → key_le a b ≡ true → key_le b c ≡ true → key_le a c ≡ true
key_le_trans (x, s) (y, t) (z, u) p q = ground (arith, strcmp_trans s t u)

pub key_le_antisymm : (a b : Key) → key_le a b ≡ true → key_le b a ≡ true → a ≡ b
key_le_antisymm (x, s) (y, t) p q = ground (arith, strcmp_flip_lt s t, eq_of_strcmp s t)

abbrev pub key_order : TotalOrder Key
key_order = record {
  le = key_le;
  le_refl = key_le_refl;
  le_total = key_le_total;
  le_trans = key_le_trans;
  le_antisymm = key_le_antisymm;
}

module _ {W : Type 0} ⦃d : Double W⦄ (q : IsRanked W) where
  abbrev pub row_key : Row W → Key
  row_key r = (q.rank r.pts, r.title)

  abbrev pub RowLe : Row W → Row W → Type 0
  RowLe = Sorted.Le key_order row_key

  -- Highest score first, titles in alphabetical order within a score.
  abbrev pub IsRanking : List (Row W) → Type 0
  IsRanking = Sorted.IsSorted key_order row_key
