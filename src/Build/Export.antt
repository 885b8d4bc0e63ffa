-- ===== src/Build/Export.antt =====
-- sim/export_data.py: from the files of hourly prices and the forecast cache to a market file. What
-- pandas computes is a parameter: its sort, in which bars of one time come in any order, and its
-- changes and rolling windows, which give NaN where there is no value yet. A frame is the list of
-- its rows by time, in seconds; the dates of the window are read already. A CSV has the columns
-- that `Ohlcv` has, a forecast frame those with which the cache is written.
use keel_trader.Base.{
  ℕ, suc, ◌*◌, ◌==◌, Bool, not, Option, none, some, List, [], ◌∷◌, ◌++◌, map, filter, any, ltb, leb,
  if◌then◌else◌,
}
use keel_trader.Base.Dict.{Dict}
use keel_trader.Base.Text.{Text, text_eq}
use keel_trader.Double.{Double, eq, fmax, fabs}
use keel_trader.Outcome.{Result, ok, err, file_not_found}
use keel_trader.Technical.{clip, delta, half, vol_fallback, at}
use keel_trader.History.{Ohlcv, Bars}
use keel_trader.Forecast.{Quantiles}
use keel_trader.Build.Forecasts.{row_at_time, forecast_cells, fill_na, clipped}

pub record Pandas (F : Type 0) : Type 0 where
  -- `df.sort_values("timestamp")`
  pub sort_values : Bars F → Bars F
  -- `pct_change(n)`
  pub pandas_change : ℕ → List F → List F
  -- `rolling(w, min_periods=1)`
  pub window_mean : ℕ → List F → List F
  pub window_std : ℕ → List F → List F
  pub window_max : ℕ → List F → List F

-- The CSV files below the root of the data, by symbol.
pub record DataRoot (F : Type 0) : Type 0 where
  pub crypto : Text → Option (Bars F)
  pub stocks : Text → Option (Bars F)

-- A symbol's rows at its valid times.
pub record Held (F : Type 0) : Type 0 where
  pub features : Dict ℕ (List F)
  pub prices : Bars F

abbrev pub is_time : ℕ → List ℕ → Bool
is_time t times = any (λ u. u == t) times

-- `xs.intersection(ys)` of indices that are in order
abbrev pub intersection : List ℕ → List ℕ → List ℕ
intersection xs ys = filter (λ t. is_time t ys) xs

-- `index.sort_values()`
abbrev pub time_into : ℕ → List ℕ → List ℕ
time_into t [] = t ∷ []
time_into t (u ∷ times) =
    let rest = time_into t times in if ltb u t then u ∷ rest else t ∷ u ∷ times

abbrev pub sort_times : List ℕ → List ℕ
sort_times [] = []
sort_times (t ∷ times) = time_into t (sort_times times)

-- `index[index >= start]` and `index[index <= end]`
abbrev pub date_filter : (start_date end_date : Option ℕ) → List ℕ → List ℕ
date_filter start_date end_date times =
    let from_start = elim start_date as (λ _. List ℕ) [
      | none ↦ times
      | some s ↦ filter (λ t. leb s t) times
    ] in
    elim end_date [ none ↦ from_start | some e ↦ filter (λ t. leb t e) from_start ]

abbrev pub index_of : {A : Type 0} → Dict ℕ A → List ℕ
index_of frame = map (λ r. r.0) frame

-- `frame.loc[times]`
abbrev pub loc : {A : Type 0} → List ℕ → Dict ℕ A → Dict ℕ A
loc times frame = filter (λ r. is_time (r.0) times) frame

module _ {F : Type 0} where
  -- `drop_duplicates(subset="timestamp", keep="last")`
  abbrev pub keep_last : Bars F → Bars F
  keep_last [] = []
  keep_last (row ∷ rows) =
      let rest = keep_last rows in if is_time (row.0) (index_of rows) then rest else row ∷ rest

  unfoldable pub load_price_data : Pandas F → (symbol : Text) → DataRoot F → Result (Bars F)
  load_price_data pandas symbol data_root =
      elim (data_root.crypto symbol) as (λ _. Result (Bars F)) [
        | some rows ↦ ok (keep_last (pandas.sort_values rows))
        | none ↦ elim (data_root.stocks symbol) as (λ _. Result (Bars F)) [
          | some rows ↦ ok (keep_last (pandas.sort_values rows))
          | none ↦ err file_not_found
        ]
      ]

  abbrev pub stamps : List (Quantiles F) → List ℕ
  stamps fc = map (λ q. q.timestamp) fc

  -- The times that the prices and both forecasts have.
  abbrev pub valid_idx : Bars F → (fc_h1 fc_h24 : List (Quantiles F)) → List ℕ
  valid_idx prices fc_h1 fc_h24 =
      intersection (intersection (index_of prices) (stamps fc_h1)) (stamps fc_h24)

module _ {F : Type 0} ⦃d : Double F⦄ where
  abbrev pub fill_with : F → F → F
  fill_with v x = if eq x x then x else v

  -- `max(axis=1)`, which skips NaN
  abbrev pub skip_max : F → F → F
  skip_max x y = if not (eq x x) then y else if not (eq y y) then x else fmax x y

  -- `tr`, beside the close before
  unfoldable pub true_ranges : (before : Option F) → List (Ohlcv F) → List F
  true_ranges before [] = []
  true_ranges none (b ∷ bars) = d.sub (b.high) (b.low) ∷ true_ranges (some (b.close)) bars
  true_ranges (some prev) (b ∷ bars) =
      skip_max (skip_max (d.sub (b.high) (b.low)) (fabs (d.sub (b.high) prev)))
        (fabs (d.sub (b.low) prev))
      ∷ true_ranges (some (b.close)) bars

module _ {F : Type 0} ⦃d : Double F⦄ (pandas : Pandas F) where
  -- The technical features of the bar at an index.
  unfoldable pub technical_row : List (Ohlcv F) → ℕ → List F
  technical_row bars t =
      let close = map (λ b. b.close) bars in
      let c = at close t in
      let change = λ (n : ℕ). fill_with (d.nought) (at (pandas.pandas_change n close) t) in
      let vol = at (pandas.window_std 24 (pandas.pandas_change 1 close)) t in
      let atr24 = at (pandas.window_mean 24 (true_ranges none bars)) t in
      map fill_na (
        clip (change 1) (d.neg half) half
        ∷ clip (change 24) (d.neg (d.one)) (d.one)
        ∷ fill_with vol_fallback vol
        ∷ clip (delta c (at (pandas.window_mean 24 close) t)) (d.neg half) half
        ∷ clip (delta c (at (pandas.window_mean 72 close) t)) (d.neg half) half
        ∷ clip (d.div atr24 (clipped c)) (d.nought) half
        ∷ clip (change 72) (d.neg (d.one)) (d.one)
        ∷ clip (delta c (at (pandas.window_max 72 close) t)) (d.neg (d.one)) (d.nought)
        ∷ [])

  -- The rows from an index on.
  unfoldable pub feature_rows :
      List (Ohlcv F) → (fc_h1 fc_h24 : List (Quantiles F)) → ℕ → Bars F → Dict ℕ (List F)
  feature_rows bars fc_h1 fc_h24 t [] = []
  feature_rows bars fc_h1 fc_h24 t ((ts, b) ∷ rows) =
      let ms = ts * 1_000 in
      (
        ts,
        forecast_cells (row_at_time fc_h1 ms) (row_at_time fc_h24 ms) (b.close)
            ++ technical_row bars t,
      )
      ∷ feature_rows bars fc_h1 fc_h24 (suc t) rows

  unfoldable pub compute_features : Bars F → (fc_h1 fc_h24 : List (Quantiles F)) → Dict ℕ (List F)
  compute_features price_df fc_h1 fc_h24 =
      feature_rows (map (λ r. r.1) price_df) fc_h1 fc_h24 0 price_df
