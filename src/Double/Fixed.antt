-- ===== src/Double/Fixed.antt =====
-- A concrete `float`: multiples of 10^-8, with NaN and the infinities. It runs the model on
-- inputs, and shows that the laws which theorems ask for can be met.
use Prim.Native.Nat.{◌/◌}
use keel_trader.Base.{
  ℕ, zero, suc, ◌+◌, ◌*◌, ◌≡◌, Bool, true, false, Option, none, some, arith, leb, ◌==◌,
  if◌then◌else◌,
}
use keel_trader.Base.Int.{ℤ, pos, negsuc, pos_part, neg_part, sub_ℕ, neg_ℤ, leb_ℤ}
use keel_trader.Double.Defs.{Double, lt, is_finite}
use keel_trader.Double.Order.{IsOrdered, IsMean, IsShift}

pub data Fixed : Type 0 where
  nan minus_inf plus_inf : Fixed
  num : ℤ → Fixed

abbrev unit : ℕ
unit = 100_000_000

abbrev magnitude : ℤ → ℕ
magnitude a = pos_part a + neg_part a

-- The sign of a product or a quotient over its magnitude.
abbrev signed : Bool → ℕ → ℤ
signed true n = pos n
signed false n = sub_ℕ 0 n

abbrev same_sign : ℤ → ℤ → Bool
same_sign (pos _) (pos _) = true
same_sign (negsuc _) (negsuc _) = true
same_sign _ _ = false

abbrev on_numbers : (ℤ → ℤ → Fixed) → Fixed → Fixed → Fixed
on_numbers f (num a) (num b) = f a b
on_numbers f _ _ = nan

abbrev fixed_neg : Fixed → Fixed
fixed_neg (num a) = num (neg_ℤ a)
fixed_neg minus_inf = plus_inf
fixed_neg plus_inf = minus_inf
fixed_neg nan = nan

abbrev fixed_add : Fixed → Fixed → Fixed
fixed_add = on_numbers λ a b. num (sub_ℕ (pos_part a + pos_part b) (neg_part a + neg_part b))

abbrev fixed_sub : Fixed → Fixed → Fixed
fixed_sub = on_numbers λ a b. num (sub_ℕ (pos_part a + neg_part b) (neg_part a + pos_part b))

abbrev fixed_mul : Fixed → Fixed → Fixed
fixed_mul = on_numbers λ a b. num (signed (same_sign a b) (magnitude a * magnitude b / unit))

abbrev fixed_div : Fixed → Fixed → Fixed
fixed_div = on_numbers λ a b.
    if magnitude b == 0
    then nan
    else num (signed (same_sign a b) (magnitude a * unit / magnitude b))

-- The integer square root by bisection: the greatest r below `hi` with r * r <= n.
abbrev sqrt_search : ℕ → ℕ → ℕ → ℕ → ℕ
sqrt_search zero n lo hi = lo
sqrt_search (suc f) n lo hi =
    let m = (lo + hi) / 2 in
    sqrt_search f n (if leb (m * m) n then m else lo) (if leb (m * m) n then hi else m)

abbrev fixed_sqrt : Fixed → Fixed
fixed_sqrt (num (pos n)) = num (pos (sqrt_search 64 (n * unit) 0 (n * unit + 1)))
fixed_sqrt _ = nan

abbrev fixed_trunc : Fixed → Option ℤ
fixed_trunc (num (pos n)) = some (pos (n / unit))
fixed_trunc (num (negsuc n)) = some (sub_ℕ 0 (suc n / unit))
fixed_trunc _ = none

abbrev fixed_le : Fixed → Fixed → Bool
fixed_le nan _ = false
fixed_le minus_inf nan = false
fixed_le minus_inf _ = true
fixed_le (num a) (num b) = leb_ℤ a b
fixed_le (num a) plus_inf = true
fixed_le (num a) _ = false
fixed_le plus_inf plus_inf = true
fixed_le plus_inf _ = false

instance abbrev pub fixed_double : Double Fixed
fixed_double = record {
  nought = num (pos 0);
  one = num (pos unit);
  inf = plus_inf;
  lit = λ n k. num (pos (n * unit / k));
  neg = fixed_neg;
  add = fixed_add;
  sub = fixed_sub;
  mul = fixed_mul;
  div = fixed_div;
  sqrt = fixed_sqrt;
  trunc = fixed_trunc;
  le = fixed_le;
}

fixed_refl_of_le :
    (x y : Fixed) → fixed_le x y ≡ true → (fixed_le x x ≡ true) × (fixed_le y y ≡ true)
fixed_refl_of_le x y h = ground arith

fixed_le_trans : (x y z : Fixed) → fixed_le x y ≡ true → fixed_le y z ≡ true → fixed_le x z ≡ true
fixed_le_trans x y z h k = ground arith

pub Fixed-IsOrdered : IsOrdered Fixed
Fixed-IsOrdered = record {
  refl_of_le = fixed_refl_of_le;
  le_trans = fixed_le_trans;
  le_total = λ x y h k. ground arith;
  le_inf = λ x h. ground arith;
}

fixed_mean_lt :
    (x y t : Fixed)
    → is_finite (fixed_add x y) ≡ true
    → lt x t ≡ true
    → lt y t ≡ true
    → lt (fixed_div (fixed_add x y) (num (pos (2 * unit / 1)))) t ≡ true
fixed_mean_lt (num a) (num b) t f h k = ground arith
fixed_mean_lt _ _ t f h k = ground arith

pub Fixed-IsMean : IsMean Fixed
Fixed-IsMean = record { mean_lt = fixed_mean_lt }

fixed_sub_mono :
    (x y t : Fixed)
    → is_finite x ≡ true
    → is_finite y ≡ true
    → is_finite t ≡ true
    → fixed_le x y ≡ true
    → fixed_le (fixed_sub x t) (fixed_sub y t) ≡ true
fixed_sub_mono (num a) (num b) (num c) p q r h = ground arith
fixed_sub_mono (num a) (num b) nan p q r h = ground arith
fixed_sub_mono (num a) (num b) minus_inf p q r h = ground arith
fixed_sub_mono (num a) (num b) plus_inf p q r h = ground arith
fixed_sub_mono (num a) nan t p q r h = ground arith
fixed_sub_mono (num a) minus_inf t p q r h = ground arith
fixed_sub_mono (num a) plus_inf t p q r h = ground arith
fixed_sub_mono nan y t p q r h = ground arith
fixed_sub_mono minus_inf y t p q r h = ground arith
fixed_sub_mono plus_inf y t p q r h = ground arith

pub Fixed-IsShift : IsShift Fixed
Fixed-IsShift = record { sub_mono = fixed_sub_mono }
