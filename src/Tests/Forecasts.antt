-- ===== src/Tests/Forecasts.antt =====
-- A model that always forecasts the same, on three hours.
use keel_trader.Base.{ℕ, ◌+◌, ◌≡◌, refl, List, [], ◌∷◌, map, AllPairs, arith, replicate}
use keel_trader.Features.{feature_spec, names_of_kind}
use keel_trader.History.{Track}
use keel_trader.Outcome.{Result, ok}
use keel_trader.Forecast.{
  ForecastRow, Predict, quantiles_of, path_of, assert_no_leakage, write_cache, build_cache,
  build_files, load_forecast, anchors, forecast_rows, batches, rows_of, assert_features_in_spec,
}
use keel_trader.Forecast.Anchors.{IsAnchored, forecast_rows-IsAnchored}
use keel_trader.Forecast.Clean.{IsKept, build_cache-IsKept}
use keel_trader.Forecast.Stored.{load_forecast-write_cache}
use keel_trader.Tests.Samples.{btc}

abbrev series : Track ℕ
series = record {
  symbol = btc;
  timestamp = 0 ∷ 3600 ∷ 7200 ∷ [];
  close = 5 ∷ 6 ∷ 7 ∷ [];
  high = 5 ∷ 6 ∷ 7 ∷ [];
  low = 5 ∷ 6 ∷ 7 ∷ [];
}

abbrev constant : Predict ℕ
constant x n = map (λ c. replicate 3 (replicate n (1 ∷ 2 ∷ 3 ∷ []))) x

abbrev row : ℕ → ForecastRow ℕ
row t = record {
  symbol = btc;
  horizon = 1;
  timestamp = t;
  context_end = t;
  target_timestamp = t + 3600;
  predicted_close_p10 = 1;
  predicted_close_p50 = 2;
  predicted_close_p90 = 3;
  predicted_high_p50 = 2;
  predicted_low_p50 = 2;
}

abbrev rows : List (ForecastRow ℕ)
rows = row 3600 ∷ row 7200 ∷ []

forecasts : forecast_rows constant series 0 1 1 ≡ ok rows
unfolding forecast_rows batches rows_of
forecasts = refl

forecast_rows-IsAnchored_example :
    AllPairs (IsAnchored constant series 0 1) (anchors constant series 0 1) rows
    × (assert_no_leakage rows ≡ ok tt)
forecast_rows-IsAnchored_example = forecast_rows-IsAnchored constant series 0 1 1 forecasts

load_forecast-write_cache_example :
    ((write_cache btc 1 rows []).0 ≡ ok (path_of btc 1))
    × (load_forecast btc 1 ((write_cache btc 1 rows []).1) ≡ ok (map quantiles_of rows))
load_forecast-write_cache_example =
    load_forecast-write_cache btc 1 (row 3600) (row 7200 ∷ []) []
      ((forecast_rows-IsAnchored constant series 0 1 1 forecasts).1) (omega arith, tt)

abbrev forecaster : Track ℕ → ℕ → Result (List (ForecastRow ℕ))
forecaster s h = ok rows

built :
    build_cache feature_spec forecaster ((btc, series) ∷ []) (1 ∷ []) []
    ≡ (ok (path_of btc 1 ∷ []), (path_of btc 1, map quantiles_of rows) ∷ [])
unfolding build_cache build_files write_cache assert_no_leakage assert_features_in_spec
    names_of_kind
built = refl

build_cache-IsKept_example :
    IsKept forecaster
      ((btc, series, 1) ∷ [])
      []
      ((build_cache feature_spec forecaster ((btc, series) ∷ []) (1 ∷ []) []).1)
      (path_of btc 1)
build_cache-IsKept_example =
    build_cache-IsKept forecaster feature_spec ((btc, series) ∷ []) (1 ∷ []) [] (path_of btc 1)
