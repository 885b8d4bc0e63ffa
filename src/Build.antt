-- ===== src/Build.antt =====
-- sim/kraken_data.py: from series to a market file, with the branch of sim/binpack.py on arrays. How
-- numpy rounds a float to single precision and lays it out is a codec that packs every float; the
-- forecasts are joined by Forecasts.
pub mod Shape
pub mod ReadBack
pub mod Sample
pub mod Forecasts
pub mod Joined
pub mod Timely
pub mod Early
pub mod Causal
pub mod Export
pub mod Merge
pub mod Times
pub mod Backed
pub mod Planned
use keel_trader.Base.{
  ℕ, zero, suc, Option, none, some, List, [], ◌∷◌, ◌++◌, map, length, range, replicate, get_or,
}
use keel_trader.Base.Text.{Text}
use keel_trader.Double.{Double}
use keel_trader.Outcome.{Result, ok, err, ◌>>=◌, each}
use keel_trader.Technical.{technical_features}
use keel_trader.MarketBin.{price_features, pack_header, pack_name, join}
use keel_trader.MarketBin.Fields.{Bytes, FloatCodec, pack_floats}
use keel_trader.MarketBin.Blocks.{Row, values}
use keel_trader.Forecast.{Cache}
use keel_trader.Build.Forecasts.{join_forecast_features}
use keel_trader.History.{Ohlcv, Series, Aligned, align_to_grid, price_block}

-- `_TECH_START`, `FEATURES_PER_SYM` and `VERSION`
abbrev pub tech_start : ℕ
tech_start = 8

abbrev pub features_per_sym : ℕ
features_per_sym = 16

abbrev pub bin_version : ℕ
bin_version = 1

module _ {F : Type 0} (codec : FloatCodec F) where
  -- The branch of `write_market_bin` on arrays: all their elements, in the order of memory.
  unfoldable pub write_arrays :
      (symbol_names : List Text) (features prices : List (Row F))
      (num_timesteps features_per_sym version : ℕ)
      → Result Bytes
  write_arrays symbol_names features prices num_timesteps features_per_sym version = do
    header ← pack_header (record {
      version = version;
      num_symbols = length symbol_names;
      num_timesteps = num_timesteps;
      features_per_sym = features_per_sym;
      price_features = price_features;
    })
    names ← each pack_name symbol_names
    feature_bytes ← pack_floats codec (values features)
    price_bytes ← pack_floats codec (values prices)
    ok (header ++ (join names ++ (feature_bytes ++ price_bytes)))

module _ {F : Type 0} ⦃d : Double F⦄ (codec : FloatCodec F) where
  -- The features of a symbol, by time: zeros for the forecasts and the technical ones.
  abbrev pub feature_column : List (Ohlcv F) → Result (List (List F))
  feature_column bars = do
    tech ←
        technical_features (map (λ b. codec.single (b.open_price)) bars)
          (map (λ b. codec.single (b.high)) bars) (map (λ b. codec.single (b.low)) bars)
          (map (λ b. codec.single (b.close)) bars)
    ok (map (λ row. replicate tech_start (d.nought) ++ map (codec.single) row) tech)

  -- Columns by symbol as an array by time.
  abbrev pub by_time : (n_t : ℕ) → List (List (List F)) → List (Row F)
  by_time n_t columns = map (λ t. map (λ column. get_or column t []) columns) (range n_t)

  unfoldable pub build_feature_block :
      Aligned F → (forecast_cache : Option (Cache F)) → Result (List (Row F))
  build_feature_block a forecast_cache = do
    columns ← each feature_column (a.prices)
    elim forecast_cache as (λ _. Result (List (Row F))) [
      | none ↦ ok (by_time (length (a.grid)) columns)
      | some cache ↦ join_forecast_features codec cache a (by_time (length (a.grid)) columns)
    ]

  unfoldable pub build_bin :
      Series F
      → (symbols : List Text) → (forecast_cache : Option (Cache F)) → (timeframe : Text)
      → Result Bytes
  build_bin series symbols forecast_cache timeframe = do
    a ← align_to_grid series symbols timeframe
    features ← build_feature_block a forecast_cache
    write_arrays codec (a.kept) features (price_block (codec.single) a) (length (a.grid))
        features_per_sym bin_version
