-- ===== src/Build/Sample.antt =====
-- sim/make_sample_data.py: the market file of the samples. The draws of `random.Random(seed)` are
-- parameters, by the number of the draw.
use keel_trader.Base.{
  ℕ, zero, suc, ◌+◌, ◌*◌, List, [], ◌∷◌, ◌++◌, map, range, replicate, get_or, if◌then◌else◌,
}
use keel_trader.Base.Decimal.{decimal}
use keel_trader.Base.Text.{codes}
use keel_trader.Double.{Double, lt, eq, fmax, fmin, fabs}
use keel_trader.Outcome.{Result}
use keel_trader.MarketBin.{write_market_bin}
use keel_trader.MarketBin.Fields.{Bytes, FloatCodec}
use keel_trader.MarketBin.Blocks.{Row}

-- `gauss(0.0, sigma)` and `random()`
pub record Draws (F : Type 0) : Type 0 where
  pub gauss : (draw : ℕ) → (sigma : F) → F
  pub uniform : (draw : ℕ) → F

module _ {F : Type 0} ⦃d : Double F⦄ (rng : Draws F) where
  -- The prices of a symbol, one draw each, from a price and a draw on.
  unfoldable pub price_path : (n : ℕ) → (p drift : F) → (draw : ℕ) → List F
  price_path zero p drift draw = []
  price_path (suc n) p drift draw =
      let shock = rng.gauss draw (d.lit 12 1000) in
      let moved = d.mul p (d.add (d.add (d.one) drift) shock) in
      let next = if lt moved (d.one) then d.one else moved in
      next ∷ price_path n next drift (draw + 1)

  -- The features of a bar: zeros but for the return and its size.
  abbrev pub sample_features : (ret1 : F) → List F
  sample_features ret1 =
      replicate 8 (d.nought)
      ++ (fmax (d.neg (d.lit 5 10)) (fmin (d.lit 5 10) ret1) ∷ d.nought ∷ fabs ret1 ∷ [])
      ++ replicate 5 (d.nought)

  -- The bar and its features, from three draws on.
  abbrev pub sample_bar : (prev close : F) → (draw : ℕ) → List F × List F
  sample_bar prev close draw =
      let sigma = d.lit 4 1000 in
      let hi = d.mul (fmax prev close) (d.add (d.one) (fabs (rng.gauss draw sigma))) in
      let lo = d.mul (fmin prev close) (d.sub (d.one) (fabs (rng.gauss (draw + 1) sigma))) in
      let vol = d.add (d.lit 1000 1) (d.mul (rng.uniform (draw + 2)) (d.lit 500 1)) in
      let ret1 = if eq prev (d.nought) then d.nought else d.div (d.sub close prev) prev in
      (prev ∷ hi ∷ lo ∷ close ∷ vol ∷ [], sample_features ret1)

  unfoldable pub sample_bars : (prev : F) → (prices : List F) → (draw : ℕ) → List (List F × List F)
  sample_bars prev [] draw = []
  sample_bars prev (close ∷ prices) draw =
      sample_bar prev close draw ∷ sample_bars close prices (draw + 3)

  -- `_gen_symbol`; before the first close stands the first close itself.
  unfoldable pub gen_symbol : (n : ℕ) → (base drift : F) → (draw : ℕ) → List (List F × List F)
  gen_symbol n base drift draw =
      let prices = price_path n base drift draw in
      sample_bars (get_or prices 0 (d.nought)) prices (draw + n)

  -- The symbols one after another, four draws for each bar.
  abbrev pub sample_columns : (num_symbols num_timesteps : ℕ) → List (List (List F × List F))
  sample_columns num_symbols num_timesteps =
      map
        (λ i.
          gen_symbol num_timesteps (d.add (d.lit 100 1) (d.mul (d.lit 10 1) (d.lit i 1)))
            (d.add (d.lit 2 10_000) (d.mul (d.lit 1 10_000) (d.lit i 1))) (i * (4 * num_timesteps)))
        (range num_symbols)

  -- The columns as an array by time, of the one part or the other.
  abbrev pub sample_block :
      (List F × List F → List F)
      → (num_timesteps : ℕ) → List (List (List F × List F))
      → List (Row F)
  sample_block part num_timesteps columns =
      map (λ t. map (λ column. part (get_or column t ([], []))) columns) (range num_timesteps)

  -- `make_sample`
  unfoldable pub make_sample :
      FloatCodec F → (num_symbols num_timesteps features_per_sym : ℕ) → Result Bytes
  make_sample codec num_symbols num_timesteps features_per_sym =
      let columns = sample_columns num_symbols num_timesteps in
      write_market_bin codec (map (λ i. codes "SYM" ++ decimal i) (range num_symbols))
        (sample_block (λ b. b.1) num_timesteps columns)
        (sample_block (λ b. b.0) num_timesteps columns) num_timesteps features_per_sym 1
