-- ===== src/Technical.antt =====
-- forecast/technical.py: the technical features of each bar of one symbol. `x ** 2` is the product
-- of x with itself, which is infinite where Python's power raises an `OverflowError`. The lists that the code fills by index are tables of functions of the index.
pub mod Causal
use keel_trader.Base.{
  ℕ, zero, suc, ◌+◌, ◌-◌, max, Bool, true, false, not, ◌&&◌, ◌||◌, List, [], ◌∷◌, ◌++◌,
  if◌then◌else◌, ltb, leb, ◌==◌, length, get_or, drop,
}
use keel_trader.Double.{Double, lt, fmax, fabs, sum}
use keel_trader.Outcome.{Result, ok, err, value_error}

-- The values of a function at `count` indices from `lo` on.
abbrev pub table : {A : Type 0} → (ℕ → A) → (lo count : ℕ) → List A
table f lo zero = []
table f lo (suc count) = f lo ∷ table f (lo + 1) count

module _ {F : Type 0} ⦃d : Double F⦄ where
  -- `_EPS`
  abbrev pub eps : F
  eps = d.lit 1 100_000_000

  abbrev pub vol_fallback : F
  vol_fallback = d.lit 1 100

  abbrev pub clip : F → F → F → F
  clip x lo hi = if lt x lo then lo else if lt hi x then hi else x

  -- `series[i]`, at an index in range
  abbrev pub at : List F → ℕ → F
  at series i = get_or series i (d.nought)

  -- The relative change between two values.
  abbrev pub change : F → F → F
  change prev next = if lt eps (fabs prev) then d.div (d.sub next prev) prev else d.nought

  -- `_pct_change(series, n)[i]`
  unfoldable pub pct_change : List F → ℕ → ℕ → F
  pct_change series n i = if ltb i n then d.nought else change (at series (i - n)) (at series i)

  -- The loop of `_rolling_mean`, with its deque and its running sum.
  unfoldable pub mean_loop : ℕ → List F → F → List F → List F
  mean_loop w window acc [] = []
  mean_loop w window acc (v ∷ series) =
      let full = window ++ (v ∷ []) in
      let pops = ltb w (length full) in
      let window' = if pops then drop 1 full else full in
      let acc' = if pops then d.sub (d.add acc v) (at full 0) else d.add acc v in
      d.div acc' (d.lit (length window') 1) ∷ mean_loop w window' acc' series

  unfoldable pub rolling_mean : List F → ℕ → List F
  rolling_mean series w = mean_loop w [] (d.nought) series

  -- `max(values)` of a list that is not empty, from its first value on.
  abbrev pub greatest : F → List F → F
  greatest m [] = m
  greatest m (x ∷ xs) = greatest (fmax m x) xs

  -- `_rolling_max(series, w)[i]`
  unfoldable pub rolling_max : List F → ℕ → ℕ → F
  rolling_max series w i =
      let lo = i + 1 - w in greatest (at series lo) (table (at series) (lo + 1) (i - lo))

  abbrev pub return_at : List F → ℕ → F
  return_at closes j = change (at closes (j - 1)) (at closes j)

  abbrev pub deviations : F → List F → List F
  deviations mean [] = []
  deviations mean (v ∷ vals) = let e = d.sub v mean in d.mul e e ∷ deviations mean vals

  -- The sample deviation of some values.
  abbrev pub sample_std : List F → F
  sample_std vals =
      let n = length vals in
      let mean = d.div (sum vals) (d.lit n 1) in
      if ltb n 2
      then vol_fallback
      else d.sqrt (d.div (sum (deviations mean vals)) (d.lit (n - 1) 1))

  -- `_rolling_std_of_returns(closes, w)[i]`
  unfoldable pub rolling_std_of_returns : List F → ℕ → ℕ → F
  rolling_std_of_returns closes w i =
      let lo = max 1 (i + 1 - w) in sample_std (table (return_at closes) lo (i + 1 - lo))

  -- `_true_range(highs, lows, closes)[i]`
  unfoldable pub true_range : List F → List F → List F → ℕ → F
  true_range highs lows closes i =
      let hl = d.sub (at highs i) (at lows i) in
      let pc = at closes (i - 1) in
      if i == 0
      then hl
      else fmax (fmax hl (fabs (d.sub (at highs i) pc))) (fabs (d.sub (at lows i) pc))

  abbrev pub half : F
  half = d.lit 1 2

  -- The distance of the close from a mean or a maximum.
  abbrev pub delta : F → F → F
  delta close base = d.div (d.sub close base) (fmax base eps)

  -- The row of one bar.
  unfoldable pub row_at : (highs lows closes : List F) → ℕ → List F
  row_at highs lows closes i =
      let tr = table (true_range highs lows closes) 0 (length closes) in
      let close = at closes i in
      clip (pct_change closes 1 i) (d.neg half) half
      ∷ clip (pct_change closes 24 i) (d.neg (d.one)) (d.one)
      ∷ rolling_std_of_returns closes 24 i
      ∷ clip (delta close (at (rolling_mean closes 24) i)) (d.neg half) half
      ∷ clip (delta close (at (rolling_mean closes 72) i)) (d.neg half) half
      ∷ clip (d.div (at (rolling_mean tr 24) i) (fmax close eps)) (d.nought) half
      ∷ clip (pct_change closes 72 i) (d.neg (d.one)) (d.one)
      ∷ clip (delta close (rolling_max closes 72 i)) (d.neg (d.one)) (d.nought)
      ∷ []

  unfoldable pub technical_features : (opens highs lows closes : List F) → Result (List (List F))
  technical_features opens highs lows closes =
      let n = length closes in
      if (length opens == n) && (length highs == n) && (length lows == n)
      then ok (table (row_at highs lows closes) 0 n)
      else err value_error
