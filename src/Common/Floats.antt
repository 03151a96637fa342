-- ===== src/Common/Floats.antt =====
-- Go's float64, which the program computes expected values with: a type with the operations that
-- are used. A value of the type stands for a finite number.
use cribbager.Common.{ℕ, ◌≡◌, Bool, true, false}

pub record Floats : Type 1 where
  pub Float : Type 0
  -- `a > b`
  pub gt : Float → Float → Bool
  pub plus : Float → Float → Float
  pub minus : Float → Float → Float
  pub over : Float → Float → Float
  pub negated : Float → Float
  -- `float64(n)`
  pub of_int : ℕ → Float
  -- `0.001 * float64(n)`
  pub thousandths : ℕ → Float
  -- `v <= 1e-9`, `v < 1e-9`, and `math.Round(v*1e4) / 1e4`, the same with six decimals.
  pub negligible : Float → Bool
  pub below_epsilon : Float → Bool
  -- `v >= 0.90`
  pub at_least_90 : Float → Bool
  pub round4 : Float → Float
  pub round6 : Float → Float

-- What comparison, subtraction and rounding do on finite numbers.
pub record IsFinite (F : Floats) : Type 0 where
  pub asymmetric : (a b : F.Float) → F.gt a b ≡ true → F.gt b a ≡ false
  pub negatively_transitive :
      (a b c : F.Float) → F.gt b a ≡ false → F.gt c b ≡ false → F.gt c a ≡ false
  pub irreflexive : (a : F.Float) → F.gt a a ≡ false
  pub minus_self : (a : F.Float) → F.minus a a ≡ F.of_int 0
  pub zero_negligible : F.negligible (F.of_int 0) ≡ true
  pub zero_below_epsilon : F.below_epsilon (F.of_int 0) ≡ true
  pub round4_keeps_sign :
      (a : F.Float) → F.gt (F.of_int 0) a ≡ false → F.gt (F.of_int 0) (F.round4 a) ≡ false
  pub round6_keeps_sign :
      (a : F.Float) → F.gt (F.of_int 0) a ≡ false → F.gt (F.of_int 0) (F.round6 a) ≡ false
