-- ===== src/Double/Defs.antt =====
-- The operations on `float`, and what the program derives from them (`max`, `min`, `abs`, `_finite`).
use keel_trader.Base.{ℕ, Bool, not, ◌&&◌, Option, List, [], ◌∷◌, if◌then◌else◌}
use keel_trader.Base.Int.{ℤ}

pub record Double (F : Type 0) : Type 0 where
  pub nought : F
  pub one : F
  pub inf : F
  -- the literal or integer quotient n / d
  pub lit : ℕ → ℕ → F
  pub neg : F → F
  pub add : F → F → F
  pub sub : F → F → F
  pub mul : F → F → F
  pub div : F → F → F
  pub sqrt : F → F
  -- `int(x)`; `none` for NaN and the infinities, where it raises
  pub trunc : F → Option ℤ
  pub le : F → F → Bool

module _ {F : Type 0} ⦃d : Double F⦄ where
  abbrev pub le : F → F → Bool
  le x y = d.le x y

  abbrev pub lt : F → F → Bool
  lt x y = d.le x y && not (d.le y x)

  abbrev pub eq : F → F → Bool
  eq x y = d.le x y && d.le y x

  -- Python's `max(x, y)` and `min(x, y)`, which keep the first unless the second is beyond it.
  abbrev pub fmax : F → F → F
  fmax x y = if lt x y then y else x

  abbrev pub fmin : F → F → F
  fmin x y = if lt y x then y else x

  -- `abs(x)`
  abbrev pub fabs : F → F
  fabs x = if lt x d.nought then d.neg x else x

  -- `x == x and x not in (inf, -inf)`
  abbrev pub is_finite : F → Bool
  is_finite x = eq x x && not (eq x d.inf) && not (eq x (d.neg d.inf))

  -- `sum(xs)`, from the left, from 0
  sum_from : F → List F → F
  sum_from acc [] = acc
  sum_from acc (x ∷ xs) = sum_from (d.add acc x) xs

  unfoldable pub sum : List F → F
  unfolding sum_from
  sum xs = sum_from d.nought xs
