-- ===== src/Double/Order.antt =====
-- What IEEE 754 says of `<=`: a preorder that is total on the numbers, NaN apart.
use keel_trader.Base.{◌≡◌, ◌⊎◌, true}
use keel_trader.Double.Defs.{Double, lt, is_finite}

infix 4 ◌≼◌
abbrev pub ◌≼◌ : {F : Type 0} ⦃d : Double F⦄ → F → F → Type 0
◌≼◌ ⦃d⦄ x y = d.le x y ≡ true

pub record IsOrdered (F : Type 0) ⦃d : Double F⦄ : Type 0 where
  pub refl_of_le : (x y : F) → x ≼ y → (x ≼ x) × (y ≼ y)
  pub le_trans : (x y z : F) → x ≼ y → y ≼ z → x ≼ z
  pub le_total : (x y : F) → x ≼ x → y ≼ y → (x ≼ y) ⊎ (y ≼ x)
  pub le_inf : (x : F) → x ≼ x → x ≼ d.inf

-- The mean of two numbers below a third is below it, if their sum does not overflow: rounding keeps
-- the order, and twice the greater of the two is exact.
pub record IsMean (F : Type 0) ⦃d : Double F⦄ : Type 0 where
  pub mean_lt :
      (x y t : F)
      → is_finite (d.add x y) ≡ true
      → lt x t ≡ true
      → lt y t ≡ true
      → lt (d.div (d.add x y) (d.lit 2 1)) t ≡ true

-- Subtracting one number keeps the order of two.
pub record IsShift (F : Type 0) ⦃d : Double F⦄ : Type 0 where
  pub sub_mono :
      (x y t : F)
      → is_finite x ≡ true
      → is_finite y ≡ true
      → is_finite t ≡ true
      → x ≼ y
      → d.sub x t ≼ d.sub y t
