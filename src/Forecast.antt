-- ===== src/Forecast.antt =====
-- forecast/build_cache.py, with `forecast_rows` of forecast/chronos.py and `load_forecast` of
-- sim/export_data.py: the offline cache of forecasts. The model's predictions are a parameter; a
-- parquet file is its rows, under its path, which is a text; what is logged is left out.
pub mod Clean
pub mod Stored
pub mod Windows
pub mod Anchors
use keel_trader.Base.{
  ℕ, zero, suc, ◌+◌, ◌-◌, ◌*◌, ◌==◌, Bool, true, false, not, Option, none, some, List, [], ◌∷◌,
  ◌++◌, map, filter, any, get_elem?, take, drop, length, range_from, ltb, leb, same, if◌then◌else◌,
}
use keel_trader.Base.Decimal.{decimal}
use keel_trader.Base.Dict.{Dict, lookup, insert}
use keel_trader.Base.Text.{Text, codes, text_eq}
use keel_trader.Double.{Double, lt}
use keel_trader.Outcome.{
  Result, ok, err, value_error, key_error, index_error, file_not_found, at, ◌>>=◌,
}
use keel_trader.Features.{FeatureSpec, names, names_of_kind, forecast}
use keel_trader.History.{Track}

pub record ForecastRow (F : Type 0) : Type 0 where
  pub symbol : Text
  pub horizon : ℕ
  pub timestamp : ℕ
  pub context_end : ℕ
  pub target_timestamp : ℕ
  pub predicted_close_p10 : F
  pub predicted_close_p50 : F
  pub predicted_close_p90 : F
  pub predicted_high_p50 : F
  pub predicted_low_p50 : F

module _ {F : Type 0} where
  -- `CacheLeakageError` is a `ValueError`.
  unfoldable pub assert_no_leakage : List (ForecastRow F) → Result {0} Unit
  assert_no_leakage [] = ok tt
  assert_no_leakage (r ∷ rows) =
      let rest = assert_no_leakage rows in
      if ltb (r.timestamp) (r.context_end)
      then err value_error
      else if leb (r.target_timestamp) (r.timestamp)
      then err value_error
      else rest

-- `assert_features_in_spec`
unfoldable pub assert_features_in_spec : FeatureSpec → Result (List Text)
assert_features_in_spec spec =
    let missing = filter (λ n. not (any (same n) (names spec))) (names_of_kind spec forecast) in
    elim missing as (λ _. Result (List Text)) [
      | [] ↦ ok (names_of_kind spec forecast)
      | _ ∷ _ ↦ err value_error
    ]

pub record Checkpoint (F : Type 0) : Type 0 where
  pub name : Text
  pub mae : F
  pub sharpe : F

pub record ObjectiveDivergence (F : Type 0) : Type 0 where
  pub best_mae_checkpoint : Text
  pub best_sharpe_checkpoint : Text
  pub diverged : Bool
  pub mae_gap : F
  pub sharpe_gap : F

module _ {F : Type 0} ⦃d : Double F⦄ where
  -- `min(checkpoints, key=…)` and `max(checkpoints, key=…)`: the first of the best, from one in hand
  abbrev pub least_mae : Checkpoint F → List (Checkpoint F) → Checkpoint F
  least_mae c [] = c
  least_mae c (x ∷ xs) = least_mae (if lt (x.mae) (c.mae) then x else c) xs

  abbrev pub greatest_sharpe : Checkpoint F → List (Checkpoint F) → Checkpoint F
  greatest_sharpe c [] = c
  greatest_sharpe c (x ∷ xs) = greatest_sharpe (if lt (c.sharpe) (x.sharpe) then x else c) xs

  unfoldable pub measure_objective_divergence : List (Checkpoint F) → Result (ObjectiveDivergence F)
  measure_objective_divergence [] = err value_error
  measure_objective_divergence (c ∷ checkpoints) =
      let best_mae = least_mae c checkpoints in
      let best_sharpe = greatest_sharpe c checkpoints in
      ok (record {
        best_mae_checkpoint = best_mae.name;
        best_sharpe_checkpoint = best_sharpe.name;
        diverged = not (same (best_mae.name) (best_sharpe.name));
        mae_gap = d.sub (best_sharpe.mae) (best_mae.mae);
        sharpe_gap = d.sub (best_sharpe.sharpe) (best_mae.sharpe);
      })

-- `symbol.replace("/", "_")`
abbrev pub safe_symbol : Text → Text
safe_symbol = map λ c. if c == b'/' then b'_' else c

-- A row of a parquet file, under its time.
pub record Quantiles (F : Type 0) : Type 0 where
  pub timestamp : ℕ
  pub predicted_close_p10 : F
  pub predicted_close_p50 : F
  pub predicted_close_p90 : F
  pub predicted_high_p50 : F
  pub predicted_low_p50 : F

-- The files of the cache by their path below its root.
abbrev pub Cache : Type 0 → Type 0
Cache F = Dict Text (List (Quantiles F))

-- `f"h{horizon}/{safe_symbol(symbol)}.parquet"`
abbrev pub path_of : (symbol : Text) → (horizon : ℕ) → Text
path_of symbol horizon =
    codes "h" ++ (decimal horizon ++ (codes "/" ++ (safe_symbol symbol ++ codes ".parquet")))

module _ {F : Type 0} where
  -- `QUANTILE_COLUMNS` of a row
  abbrev pub quantiles_of : ForecastRow F → Quantiles F
  quantiles_of r = record {
    timestamp = r.timestamp;
    predicted_close_p10 = r.predicted_close_p10;
    predicted_close_p50 = r.predicted_close_p50;
    predicted_close_p90 = r.predicted_close_p90;
    predicted_high_p50 = r.predicted_high_p50;
    predicted_low_p50 = r.predicted_low_p50;
  }

  -- The frame that is written; without a row it has no column to index, a `KeyError`.
  abbrev pub frame_of : List (ForecastRow F) → Result (List (Quantiles F))
  frame_of [] = err key_error
  frame_of (r ∷ rows) = ok (map quantiles_of (r ∷ rows))

  -- `write_cache`: the path or the exception, and the files after.
  unfoldable pub write_cache :
      (symbol : Text) → (horizon : ℕ) → List (ForecastRow F) → Cache F → Result Text × Cache F
  write_cache symbol horizon rows cache = elim (assert_no_leakage rows) [
    | err e ↦ (err e, cache)
    | ok _ ↦ elim (frame_of rows) [
      | err e ↦ (err e, cache)
      | ok frame ↦ (ok (path_of symbol horizon), insert (path_of symbol horizon) frame cache)
    ]
  ]

  -- The two loops of `build_cache`, over a symbol, its series and a horizon at a time.
  unfoldable pub build_files :
      (forecast_rows : Track F → (horizon : ℕ) → Result (List (ForecastRow F)))
      → List (Text × Track F × ℕ)
      → Cache F
      → Result (List Text) × Cache F
  build_files forecast_rows [] cache = (ok [], cache)
  build_files forecast_rows ((sym, series, h) ∷ more) cache = elim (forecast_rows series h) [
    | err e ↦ (err e, cache)
    | ok rows ↦
        let (r, cache') = write_cache sym h rows cache in
        elim r [
          | err e ↦ (err e, cache')
          | ok path ↦
              let (rest, cache'') = build_files forecast_rows more cache' in
              (rest >>= λ paths. ok (path ∷ paths), cache'')
        ]
  ]

  abbrev pub jobs : Dict Text (Track F) → (horizons : List ℕ) → List (Text × Track F × ℕ)
  jobs [] horizons = []
  jobs ((sym, s) ∷ series) horizons = map (λ h. (sym, s, h)) horizons ++ jobs series horizons

  -- `build_cache`
  unfoldable pub build_cache :
      FeatureSpec
      → (forecast_rows : Track F → (horizon : ℕ) → Result (List (ForecastRow F)))
      → Dict Text (Track F)
      → (horizons : List ℕ) → Cache F
      → Result (List Text) × Cache F
  build_cache spec forecast_rows series horizons cache = elim (assert_features_in_spec spec) [
    | err e ↦ (err e, cache)
    | ok _ ↦ build_files forecast_rows (jobs series horizons) cache
  ]

  -- `df.sort_index()`
  abbrev pub index_insert : Quantiles F → List (Quantiles F) → List (Quantiles F)
  index_insert q [] = q ∷ []
  index_insert q (r ∷ rows) =
      let rest = index_insert q rows in
      if ltb (r.timestamp) (q.timestamp) then r ∷ rest else q ∷ r ∷ rows

  abbrev pub sort_index : List (Quantiles F) → List (Quantiles F)
  sort_index [] = []
  sort_index (q ∷ rows) = index_insert q (sort_index rows)

  unfoldable pub load_forecast :
      (symbol : Text) → (horizon : ℕ) → Cache F → Result (List (Quantiles F))
  load_forecast symbol horizon cache =
      elim (lookup (path_of symbol horizon) cache) as (λ _. Result (List (Quantiles F))) [
        | none ↦ err file_not_found
        | some frame ↦ ok (sort_index frame)
      ]

-- `HOUR_SECONDS`
abbrev pub hour_seconds : ℕ
hour_seconds = 3600

-- What the model is asked: for each anchor of a batch, close, high and low of its context; and its
-- answer: for each anchor, for each of the three, for each step ahead, the quantiles.
abbrev pub Predict : Type 0 → Type 0
Predict F = (x : List (List (List F))) → (prediction_length : ℕ) → List (List (List (List F)))

module _ {F : Type 0} (predict : Predict F) (series : Track F)
    -- `horizon - 1` and `context_length - 1`: both lengths are one at least
    (step before : ℕ) where
  -- `xs[i - context_length + 1:i + 1]`
  abbrev pub context : List F → ℕ → List F
  context xs i = take (suc before) (drop (i - before) xs)

  abbrev pub contexts : ℕ → List (List F)
  contexts i = context (series.close) i ∷ context (series.high) i ∷ context (series.low) i ∷ []

  -- The row of the anchor `i`, the `k`-th of its batch.
  abbrev pub row_of : (q : List (List (List (List F)))) → (k i : ℕ) → Result (ForecastRow F)
  row_of q k i = do
    e ← at q k
    close ← at e 0
    cp ← at close step
    high ← at e 1
    hp ← at high step
    low ← at e 2
    lp ← at low step
    t ← at (series.timestamp) i
    c10 ← at cp 0
    c50 ← at cp 1
    c90 ← at cp 2
    h50 ← at hp 1
    l50 ← at lp 1
    ok (record {
      symbol = series.symbol;
      horizon = suc step;
      timestamp = t;
      context_end = t;
      target_timestamp = t + suc step * hour_seconds;
      predicted_close_p10 = c10;
      predicted_close_p50 = c50;
      predicted_close_p90 = c90;
      predicted_high_p50 = h50;
      predicted_low_p50 = l50;
    })

  -- `for k, i in enumerate(batch)`
  unfoldable pub rows_of :
      (q : List (List (List (List F)))) → (k : ℕ) → List ℕ → Result (List (ForecastRow F))
  rows_of q k [] = ok []
  rows_of q k (i ∷ batch) = do r ← row_of q k i; rows ← rows_of q (k + 1) batch; ok (r ∷ rows)

  -- The loop over the batches, for so many at most.
  unfoldable pub batches : (chunk fuel : ℕ) → (anchors : List ℕ) → Result (List (ForecastRow F))
  batches chunk fuel [] = ok []
  batches chunk zero (i ∷ anchors) = ok []
  batches chunk (suc fuel) (i ∷ anchors) = do
    let batch = take chunk (i ∷ anchors)
    rows ← rows_of (predict (map contexts batch) (suc step)) 0 batch
    more ← batches chunk fuel (drop chunk (i ∷ anchors))
    ok (rows ++ more)

  abbrev pub anchors : List ℕ
  anchors = range_from before (length (series.close) - before)

  -- `forecast_rows`, with a chunk of one at least; `range` raises for none.
  unfoldable pub forecast_rows : (chunk : ℕ) → Result (List (ForecastRow F))
  forecast_rows zero = err value_error
  forecast_rows (suc chunk) = batches (suc chunk) (length anchors) anchors
