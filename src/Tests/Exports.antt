-- ===== src/Tests/Exports.antt =====
-- An export of BTC, whose third hour has no forecast, and of a symbol without files.
use keel_trader.Base.{ℕ, ◌≡◌, refl, none, some, List, [], ◌∷◌, if◌then◌else◌}
use keel_trader.Base.Decimal.{decimal}
use keel_trader.Base.Text.{codes, text_beq}
use keel_trader.Double.Fixed.{Fixed, fixed_double}
use keel_trader.Outcome.{ok}
use keel_trader.History.{Bars}
use keel_trader.Forecast.{Quantiles, Cache, path_of, load_forecast}
use keel_trader.Build.Export.{Pandas, DataRoot, loc, load_price_data, compute_features}
use keel_trader.Build.Forecasts.{load_both}
use keel_trader.Build.Merge.{Plan, plan_export, merge, load_symbol, add_symbol}
use keel_trader.Build.Planned.{IsPlan, plan_export-IsPlan}
use keel_trader.Tests.Samples.{btc, whole}
use keel_trader.Tests.Bars.{bar}

-- Bars that are in order, and windows that are not computed.
abbrev pandas : Pandas Fixed
pandas = record {
  sort_values = λ rows. rows;
  pandas_change = λ n xs. xs;
  window_mean = λ w xs. xs;
  window_std = λ w xs. xs;
  window_max = λ w xs. xs;
}

abbrev bars : Bars Fixed
bars = (3_600, bar 3) ∷ (7_200, bar 4) ∷ (10_800, bar 5) ∷ []

abbrev data_root : DataRoot Fixed
data_root = record { crypto = λ s. if text_beq s btc then some bars else none; stocks = λ s. none }

abbrev forecast_at : ℕ → Quantiles Fixed
forecast_at t = record {
  timestamp = t;
  predicted_close_p10 = whole 2;
  predicted_close_p50 = whole 6;
  predicted_close_p90 = whole 5;
  predicted_high_p50 = whole 9;
  predicted_low_p50 = whole 4;
}

abbrev forecasts : List (Quantiles Fixed)
forecasts = forecast_at 3_600 ∷ forecast_at 7_200 ∷ []

abbrev cache : Cache Fixed
cache = (path_of btc 1, forecasts) ∷ (path_of btc 24, forecasts) ∷ []

-- The first hour lies before the window, the last has no forecast.
abbrev plan : Plan Fixed
plan = record {
  valid_symbols = btc ∷ [];
  grid = 7_200 ∷ [];
  loaded =
      (
        btc,
        record {
          features = loc (3_600 ∷ 7_200 ∷ []) (compute_features pandas bars forecasts forecasts);
          prices = (3_600, bar 3) ∷ (7_200, bar 4) ∷ [];
        },
      )
      ∷ [];
}

planned : plan_export pandas cache data_root 1 (btc ∷ codes "X" ∷ []) (some 5_000) none ≡ ok plan
unfolding plan_export merge load_symbol add_symbol load_price_data load_both load_forecast decimal
planned = refl

plan_export-IsPlan_example : IsPlan pandas cache data_root 1 (some 5_000) none plan
plan_export-IsPlan_example =
    plan_export-IsPlan pandas cache data_root 1 (btc ∷ codes "X" ∷ []) (some 5_000) none plan
      planned
