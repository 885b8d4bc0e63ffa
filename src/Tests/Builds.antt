-- ===== src/Tests/Builds.antt =====
-- A market file of the aligned hours of two symbols. The codec keeps the numbers that are not
-- negative to 32 bits.
use keel_trader.Base.{
  ℕ, ◌+◌, ◌*◌, ◌/◌, ◌%◌, ◌^◌, ◌≡◌, ◌<◌, ◌∙◌, ap, sym, refl, Option, some, List, [], ◌∷◌, arith,
  replicate, take, map,
}
use keel_trader.Base.Decimal.{decimal}
use keel_trader.Base.Int.{pos, pos_part}
use keel_trader.Base.Text.{codes}
use keel_trader.Double.Fixed.{Fixed, nan, minus_inf, plus_inf, num, fixed_double}
use keel_trader.Features.{feature_spec, names_of_kind, index, index_from}
use keel_trader.Outcome.{Result, ok, err, ◌>>=◌}
use keel_trader.MarketBin.{
  read_symbols, read_features, read_prices, write_market_bin, read_names, read_header, pack_header,
  pack_name, pack_block, pack_row, pack_cell,
}
use keel_trader.MarketBin.Fields.{Bytes, FloatCodec, digits_sum, pack_floats, pack_u32, unpack_u32}
use keel_trader.MarketBin.Blocks.{Row, map_block}
use keel_trader.Forecast.{Quantiles, Cache, path_of, load_forecast, assert_features_in_spec}
use keel_trader.History.{Aligned, price_block, flat_bar}
use keel_trader.Build.Forecasts.{
  join_forecast_features, join_from, load_both, forecast_column, write_column, row_at_time,
  forecast_cells,
}
use keel_trader.Build.Causal.{IsExtension, build_feature_block-IsExtension}
use keel_trader.Build.Joined.{cell_of}
use keel_trader.Build.Timely.{Reaches, join_forecast_features-Reaches}
use keel_trader.Technical.{technical_features}
use keel_trader.Build.{tech_start, build_feature_block, build_bin}
use keel_trader.Build.Sample.{Draws, make_sample, gen_symbol, sample_bars, price_path}
use keel_trader.Build.ReadBack.{build_bin-read}
use keel_trader.Tests.Samples.{btc, whole}
use keel_trader.Tests.Bars.{hour, bar, new, doge, aligned, is_aligned}

abbrev bits : Fixed → ℕ
bits (num z) = pos_part z % 2 ^ 32
bits _ = 0

abbrev pub word : Fixed → Option (ℕ × ℕ × ℕ × ℕ)
word x = let n = bits x in some (n % 256, n / 256 % 256, n / 65_536 % 256, n / 16_777_216 % 256)

abbrev pub number : ℕ × ℕ × ℕ × ℕ → Fixed
number (a, b, c, d) = num (pos (a + b * 256 + c * 65_536 + d * 16_777_216))

abbrev pub rounded : Fixed → Fixed
rounded x = num (pos (bits x))

bits-lt : (x : Fixed) → bits x < 2 ^ 32
bits-lt (num z) = omega arith
bits-lt nan = omega arith
bits-lt minus_inf = omega arith
bits-lt plus_inf = omega arith

pub number-word : (x : Fixed) (w : ℕ × ℕ × ℕ × ℕ) → word x ≡ some w → number w ≡ rounded x
number-word x w e =
    let n = bits x in
    let same_word : (n % 256, n / 256 % 256, n / 65_536 % 256, n / 16_777_216 % 256) ≡ w =
      ground arith in
    ap number (sym same_word) ∙ ap (λ q. num (pos q)) (digits_sum n (bits-lt x))

abbrev pub codec : FloatCodec Fixed
codec = record { pack = word; unpack = number; single = rounded; unpack-pack = number-word }

first_technical : index feature_spec (codes "return_1h") ≡ ok tech_start
unfolding index_from
first_technical = refl

abbrev pub value_of : {A : Type 0} → A → Result A → A
value_of a (ok b) = b
value_of a (err e) = a

-- The forecasts of BTC for its second hour, at both horizons; the other symbol has none.
abbrev forecast : Quantiles Fixed
forecast = record {
  timestamp = 7_200;
  predicted_close_p10 = whole 2;
  predicted_close_p50 = whole 6;
  predicted_close_p90 = whole 5;
  predicted_high_p50 = whole 9;
  predicted_low_p50 = whole 4;
}

abbrev cache : Cache Fixed
cache = (path_of btc 1, forecast ∷ []) ∷ (path_of btc 24, forecast ∷ []) ∷ []

abbrev features : List (Row Fixed)
unfolding build_feature_block
features = value_of [] (build_feature_block codec aligned (some cache))

made : build_feature_block codec aligned (some cache) ≡ ok features
unfolding build_feature_block technical_features join_forecast_features join_from load_both
    load_forecast decimal forecast_column write_column row_at_time forecast_cells names_of_kind
    assert_features_in_spec
made = refl

build_bin-read_example :
    (file : Bytes) × (build_bin codec new
        (btc ∷ codes "ETH/USD" ∷ doge ∷ [])
        (some cache)
        (codes "1h")
      ≡ ok file)
    × (read_symbols file ≡ ok (aligned.kept))
    × (read_features codec file ≡ ok (map_block rounded features))
    × (read_prices codec file ≡ ok (map_block rounded (price_block rounded aligned)))
build_bin-read_example =
    build_bin-read codec new (btc ∷ codes "ETH/USD" ∷ doge ∷ []) (some cache) (codes "1h") aligned
      features (λ x. refl) is_aligned made (omega arith) (omega arith) (omega arith)

-- The market without its last hour.
abbrev early : Aligned Fixed
early = record {
  kept = aligned.kept;
  grid = take 2 (aligned.grid);
  prices = map (take 2) (aligned.prices);
}

extension : IsExtension early aligned
extension = record {
  later = 3 * hour ∷ [];
  kept_lem = refl;
  grid_lem = refl;
  prices_lem = ((bar 4 ∷ [], refl), ((bar 7 ∷ [], refl), tt));
  whole = (refl, (refl, (refl, tt)));
  whole' = (refl, (refl, (refl, tt)));
}

abbrev early_features : List (Row Fixed)
unfolding build_feature_block
early_features = value_of [] (build_feature_block codec early (some cache))

made_early : build_feature_block codec early (some cache) ≡ ok early_features
unfolding build_feature_block technical_features join_forecast_features join_from load_both
    load_forecast decimal forecast_column write_column row_at_time forecast_cells names_of_kind
    assert_features_in_spec
made_early = refl

build_feature_block-IsExtension_example : cell_of features 1 0 ≡ cell_of early_features 1 0
build_feature_block-IsExtension_example =
    build_feature_block-IsExtension codec early aligned (some cache) 1 0 extension made_early made
      (omega arith) (omega arith)

-- An array of zeros, and what the join makes of it.
abbrev blank : List (Row Fixed)
blank = replicate 3 (replicate 2 (replicate 16 (whole 0)))

abbrev joined : List (Row Fixed)
unfolding join_forecast_features
joined = value_of [] (join_forecast_features codec cache aligned blank)

joins : join_forecast_features codec cache aligned blank ≡ ok joined
unfolding join_forecast_features join_from load_both load_forecast decimal forecast_column
    write_column row_at_time forecast_cells names_of_kind assert_features_in_spec
joins = refl

join_forecast_features-Reaches_example :
    Reaches codec cache btc (2 * hour) (flat_bar (whole 3)) (cell_of blank 1 0) (cell_of joined 1 0)
join_forecast_features-Reaches_example =
    join_forecast_features-Reaches codec cache aligned blank 1 0 joins (omega arith) refl refl refl
      refl

-- Draws that are always 0: the price drifts up by 0.02% a bar from 100.
abbrev still : Draws Fixed
still = record { gauss = λ draw sigma. num (pos 0); uniform = λ draw. num (pos 0) }

sampled : (make_sample still codec 1 2 16 >>= read_symbols) ≡ ok (codes "SYM0" ∷ [])
unfolding make_sample gen_symbol sample_bars price_path write_market_bin read_symbols read_names
    read_header pack_header pack_name pack_block pack_row pack_cell pack_floats pack_u32 unpack_u32
    decimal
sampled = refl
