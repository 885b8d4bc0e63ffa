-- ===== src/Build/Forecasts.antt =====
-- sim/kraken_data.py: `_join_forecast_features`, with the forecast columns of `compute_features` in
-- sim/export_data.py. A frame has the columns with which the cache is written, without a suffix for
-- the horizon. A value that is missing or NaN becomes 0, as `fillna(0.0)` has it.
use keel_trader.Base.{
  ℕ, zero, suc, ◌+◌, ◌*◌, ◌==◌, Bool, true, not, ◌&&◌, Option, none, some, List, [], ◌∷◌, ◌++◌, map,
  any, drop, if◌then◌else◌,
}
use keel_trader.Base.Text.{Text}
use keel_trader.Double.{Double, eq, fmax, fabs}
use keel_trader.Outcome.{Result, ok, err, value_error, file_not_found, ◌>>=◌}
use keel_trader.Features.{feature_spec}
use keel_trader.MarketBin.Fields.{FloatCodec}
use keel_trader.MarketBin.Blocks.{Row}
use keel_trader.History.{Ohlcv, Aligned}
use keel_trader.Forecast.{Quantiles, Cache, load_forecast, assert_features_in_spec}

-- The frames of both horizons, if they are there.
abbrev pub Frames : Type 0 → Type 0
Frames F = Option (List (Quantiles F) × List (Quantiles F))

module _ {F : Type 0} where
  -- The row of a frame at a time of the grid, in milliseconds; the frame's are seconds.
  unfoldable pub row_at_time : List (Quantiles F) → (ts_ms : ℕ) → Option (Quantiles F)
  row_at_time [] ts_ms = none
  row_at_time (q ∷ frame) ts_ms =
      let rest = row_at_time frame ts_ms in if q.timestamp * 1_000 == ts_ms then some q else rest

  -- Whether no time stands twice in the index, without which `reindex` raises.
  abbrev pub is_unique : List (Quantiles F) → Bool
  is_unique [] = true
  is_unique (q ∷ frame) = not (any (λ r. r.timestamp == q.timestamp) frame) && is_unique frame

  -- `feats[t, s, 0:8] = fc[t]`
  abbrev pub write_cell : (s : ℕ) → List F → Row F → Row F
  write_cell s fc [] = []
  write_cell zero fc (cell ∷ row) = (fc ++ drop 8 cell) ∷ row
  write_cell (suc s) fc (cell ∷ row) = cell ∷ write_cell s fc row

  -- `feats[:, s, 0:8] = fc`
  unfoldable pub write_column : (s : ℕ) → List (List F) → List (Row F) → List (Row F)
  write_column s [] feats = feats
  write_column s (fc ∷ column) [] = []
  write_column s (fc ∷ column) (row ∷ feats) = write_cell s fc row ∷ write_column s column feats

module _ {F : Type 0} ⦃d : Double F⦄ where
  abbrev pub fill_na : F → F
  fill_na x = if eq x x then x else d.nought

  -- `close.clip(lower=1e-8)`
  abbrev pub clipped : F → F
  clipped close = fmax close (d.lit 1 100_000_000)

  -- `(aligned - close) / close.clip(lower=1e-8)`
  abbrev pub delta_of : (aligned close : F) → F
  delta_of aligned close = fill_na (d.div (d.sub aligned close) (clipped close))

  -- The deltas of close, high and low.
  abbrev pub deltas : Option (Quantiles F) → (close : F) → List F
  deltas none close = d.nought ∷ d.nought ∷ d.nought ∷ []
  deltas (some q) close =
      delta_of (q.predicted_close_p50) close
      ∷ delta_of (q.predicted_high_p50) close
      ∷ delta_of (q.predicted_low_p50) close
      ∷ []

  -- `1.0 / (1.0 + spread / close.clip(lower=1e-8))`
  abbrev pub confidence : Option (Quantiles F) → (close : F) → F
  confidence none close = d.nought
  confidence (some q) close =
      let spread = fabs (d.sub (q.predicted_close_p90) (q.predicted_close_p10)) in
      fill_na (d.div (d.one) (d.add (d.one) (d.div spread (clipped close))))

  -- The forecast features of a bar, from the forecasts of both horizons at its time.
  unfoldable pub forecast_cells : (h1 h24 : Option (Quantiles F)) → (close : F) → List F
  forecast_cells h1 h24 close =
      deltas h1 close ++ (deltas h24 close ++ (confidence h1 close ∷ confidence h24 close ∷ []))

  -- The forecasts of a symbol: none where a file is missing.
  unfoldable pub load_both : Cache F → (symbol : Text) → Result (Frames F)
  load_both cache symbol = elim (load_forecast symbol 1 cache) as (λ _. Result (Frames F)) [
    | err file_not_found ↦ ok none
    | err e ↦ err e
    | ok fc_h1 ↦ elim (load_forecast symbol 24 cache) as (λ _. Result (Frames F)) [
      | err file_not_found ↦ ok none
      | err e ↦ err e
      | ok fc_h24 ↦
          if is_unique fc_h1 && is_unique fc_h24 then ok (some (fc_h1, fc_h24)) else err value_error
    ]
  ]

module _ {F : Type 0} ⦃d : Double F⦄ (codec : FloatCodec F) where
  -- The forecast features of a symbol, by time, rounded to single precision.
  unfoldable pub forecast_column :
      List (Quantiles F) × List (Quantiles F) → (grid : List ℕ) → List (Ohlcv F) → List (List F)
  forecast_column frames [] bars = []
  forecast_column frames (t ∷ grid) [] = []
  forecast_column (fc_h1, fc_h24) (t ∷ grid) (b ∷ bars) =
      map (codec.single)
        (forecast_cells (row_at_time fc_h1 t) (row_at_time fc_h24 t) (codec.single (b.close)))
      ∷ forecast_column (fc_h1, fc_h24) grid bars

  -- The column of a symbol, if its forecasts are there.
  abbrev pub write_symbol :
      (s : ℕ) (grid : List ℕ) → List (Ohlcv F) → Frames F → List (Row F) → List (Row F)
  write_symbol s grid bars none feats = feats
  write_symbol s grid bars (some frames) feats =
      write_column s (forecast_column frames grid bars) feats

  -- The loop over the symbols, from one on.
  unfoldable pub join_from :
      Cache F
      → (grid : List ℕ) → (s : ℕ) → (kept : List Text) → List (List (Ohlcv F))
      → List (Row F)
      → Result (List (Row F))
  join_from cache grid s [] prices feats = ok feats
  join_from cache grid s (sym ∷ kept) [] feats = ok feats
  join_from cache grid s (sym ∷ kept) (bars ∷ prices) feats = do
    found ← load_both cache sym
    join_from cache grid (s + 1) kept prices (write_symbol s grid bars found feats)

  -- `_join_forecast_features`
  unfoldable pub join_forecast_features : Cache F → Aligned F → List (Row F) → Result (List (Row F))
  join_forecast_features cache a feats = do
    _ ← assert_features_in_spec feature_spec
    join_from cache (a.grid) 0 (a.kept) (a.prices) feats
