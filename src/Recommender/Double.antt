-- ===== src/Recommender/Double.antt =====
-- `double`: the constants, operations and tests that server.c and lib.c use. Its values are not
-- modelled; what the code relies on is IEEE 754's order of the values that are not NaN.
use sp.Base.{ℕ, ◌≤◌, ◌<◌, ◌≡◌, Bool, true, ◌||◌, ltb, ◌==◌}

pub record Double (W : Type 0) : Type 0 where
  pub minus_one : W
  pub zero_point : W
  pub gt : W → W → Bool
  pub eq : W → W → Bool
  pub add : W → W → W
  pub mul : W → W → W

-- `x >= y`
abbrev pub ge : {W : Type 0} ⦃d : Double W⦄ → W → W → Bool
ge ⦃d⦄ x y = d.gt x y || d.eq x y

-- The finitely many doubles that are not NaN are ranked by their value, -0.0 and 0.0 alike, and
-- the tests compare ranks.
pub record IsRanked (W : Type 0) ⦃d : Double W⦄ : Type 0 where
  pub is_number : W → Bool
  pub rank : W → ℕ
  pub gt_rank :
      (x y : W) → is_number x ≡ true → is_number y ≡ true → d.gt x y ≡ ltb (rank y) (rank x)
  pub eq_rank : (x y : W) → is_number x ≡ true → is_number y ≡ true → d.eq x y ≡ (rank x == rank y)
  pub minus_one_number : is_number d.minus_one ≡ true
  pub zero_point_number : is_number d.zero_point ≡ true
  pub minus_one_below : rank d.minus_one < rank d.zero_point

-- A score as the recommender expects it: a number, and none below 0.0.
pub record IsScore {W : Type 0} ⦃d : Double W⦄ (q : IsRanked W) (x : W) : Type 0 where
  pub number : q.is_number x ≡ true
  pub nonneg : q.rank d.zero_point ≤ q.rank x
