-- ===== src/Forecast/Clean.antt =====
-- forecast/build_cache.py: what the cache holds.
use keel_trader.Base.{
  ℕ, suc, get_elem?, ◌<◌, ◌≤◌, ◌≡◌, ◌⊎◌, refl, ◌∙◌, some, List, [], ◌∷◌, map, All, arith, same, inl,
  inr, Bool-cases,
}
use keel_trader.Base.Dict.{Dict, lookup, lookup-insert}
use keel_trader.Base.Text.{Text, text_eq, text_beq_iff}
use keel_trader.Features.{FeatureSpec}
use keel_trader.History.{Track}
use keel_trader.Outcome.{Result, ok, Result-cases}
use keel_trader.Forecast.{
  ForecastRow, Cache, path_of, quantiles_of, assert_no_leakage, assert_features_in_spec,
  write_cache, build_files, build_cache, jobs,
}

module _ {F : Type 0} where
  -- The row was made of inputs up to its time, and predicts a later one.
  abbrev pub IsClean : ForecastRow F → Type 0
  IsClean r = (r.context_end ≤ r.timestamp) × (r.timestamp < r.target_timestamp)

  pub assert_no_leakage-IsClean :
      (rows : List (ForecastRow F)) → assert_no_leakage rows ≡ ok tt → All IsClean rows
  unfolding assert_no_leakage
  assert_no_leakage-IsClean [] e = tt
  assert_no_leakage-IsClean (r ∷ rows) e =
      ((ground arith, ground arith), assert_no_leakage-IsClean rows (ground arith))

  pub IsClean-assert_no_leakage :
      (rows : List (ForecastRow F)) → All IsClean rows → assert_no_leakage rows ≡ ok tt
  unfolding assert_no_leakage
  IsClean-assert_no_leakage [] h = refl
  IsClean-assert_no_leakage (r ∷ rows) ((h, k), hs) =
      ground (arith, IsClean-assert_no_leakage rows hs)

  -- The file at a path is what it was, or the rows are clean and their frame was written to it.
  abbrev IsFiled :
      (symbol : Text) (horizon : ℕ)
      → List (ForecastRow F)
      → (before after : Cache F) → (path : Text) → Type 0
  IsFiled symbol horizon rows before after path =
      (lookup path after ≡ lookup path before)
      ⊎ ((path_of symbol horizon ≡ path)
          × All IsClean rows
          × (lookup path after ≡ some (map quantiles_of rows)))

  write_cache-IsFiled :
      (symbol : Text) (horizon : ℕ) (rows : List (ForecastRow F)) (cache : Cache F) (path : Text)
      → IsFiled symbol horizon rows cache ((write_cache symbol horizon rows cache).1) path
  unfolding write_cache assert_no_leakage
  write_cache-IsFiled symbol horizon [] cache path = inl refl
  write_cache-IsFiled symbol horizon (r ∷ rows) cache path =
      let p = path_of symbol horizon in
      let frame = map quantiles_of (r ∷ rows) in
      elim (Result-cases (assert_no_leakage (r ∷ rows))) [
        | inl (_, e) ↦ rw (e, write_cache) (inl refl)
        | inr (_, e) ↦ elim (Bool-cases (same path p)) [
          | inl b ↦
              let here : p ≡ path = ground (arith, b, text_beq_iff path p) in
              rw (e, write_cache)
                (inr (
                  here,
                  assert_no_leakage-IsClean (r ∷ rows) e,
                  ground (arith, lookup-insert p path frame cache),
                ))
          | inr b ↦ rw (e, write_cache) (inl (ground (arith, lookup-insert p path frame cache)))
        ]
      ]

module _ {F : Type 0} (forecaster : Track F → ℕ → Result (List (ForecastRow F))) where
  -- The file at a path holds the quantiles of all the rows that the forecaster gave for one of the
  -- jobs, whose file it is, and these rows are clean.
  pub record IsWritten (todo : List (Text × Track F × ℕ)) (after : Cache F) (path : Text)
      : Type 0 where
    pub n : ℕ
    pub symbol : Text
    pub series : Track F
    pub horizon : ℕ
    pub rows : List (ForecastRow F)
    pub is_job : get_elem? todo n ≡ some (symbol, series, horizon)
    pub is_path : path_of symbol horizon ≡ path
    pub forecasts : forecaster series horizon ≡ ok rows
    pub clean : All IsClean rows
    pub is_file : lookup path after ≡ some (map quantiles_of rows)

  -- The file at a path is what it was, or was written for one of the jobs.
  abbrev pub IsKept : List (Text × Track F × ℕ) → (before after : Cache F) → (path : Text) → Type 0
  IsKept todo before after path =
      (lookup path after ≡ lookup path before) ⊎ IsWritten todo after path

  -- A job before others.
  job-IsKept :
      (symbol : Text) (series : Track F) (horizon : ℕ) (more : List (Text × Track F × ℕ))
      (rows : List (ForecastRow F)) (a b c : Cache F) (path : Text)
      → forecaster series horizon ≡ ok rows
      → IsFiled symbol horizon rows a b path
      → IsKept more b c path
      → IsKept ((symbol, series, horizon) ∷ more) a c path
  job-IsKept symbol series horizon more rows a b c path f (inl e) (inl g) = inl (g ∙ e)
  job-IsKept symbol series horizon more rows a b c path f (inr (p, clean, e)) (inl g) =
      inr (record {
        n = 0;
        symbol = symbol;
        series = series;
        horizon = horizon;
        rows = rows;
        is_job = refl;
        is_path = p;
        forecasts = f;
        clean = clean;
        is_file = g ∙ e;
      })
  job-IsKept symbol series horizon more rows a b c path f first (inr w) = inr (record {
    n = suc (w.n);
    symbol = w.symbol;
    series = w.series;
    horizon = w.horizon;
    rows = w.rows;
    is_job = w.is_job;
    is_path = w.is_path;
    forecasts = w.forecasts;
    clean = w.clean;
    is_file = w.is_file;
  })

  build_files-IsKept :
      (todo : List (Text × Track F × ℕ)) (cache : Cache F) (path : Text)
      → IsKept todo cache ((build_files forecaster todo cache).1) path
  unfolding build_files
  build_files-IsKept [] cache path = inl refl
  build_files-IsKept ((sym, series, h) ∷ more) cache path =
      elim (Result-cases (forecaster series h)) [
        | inl (_, e) ↦ rw (e, build_files) (inl refl)
        | inr (rows, e) ↦
            let after = (write_cache sym h rows cache).1 in
            let first = write_cache-IsFiled sym h rows cache path in
            elim (Result-cases ((write_cache sym h rows cache).0)) [
              | inl (_, f) ↦
                  rw (e, f, build_files)
                    (job-IsKept sym series h more rows cache after after path e first (inl refl))
              | inr (p, f) ↦
                  rw (e, f, build_files)
                    (job-IsKept sym series h more rows cache after
                      ((build_files forecaster more after).1) path e first
                      (build_files-IsKept more after path))
            ]
      ]

  -- Whatever the forecaster gives, and also when the build ends with an exception, each file of the
  -- cache is what it was before, or it is the file of a symbol of the series and one of the
  -- horizons and holds the quantiles of just the rows that the forecaster gave for these, all of
  -- which were made of inputs up to their time and predict a later time.
  pub build_cache-IsKept :
      (spec : FeatureSpec) (series : Dict Text (Track F)) (horizons : List ℕ) (cache : Cache F)
      (path : Text)
      → IsKept
          (jobs series horizons)
          cache
          ((build_cache spec forecaster series horizons cache).1)
          path
  unfolding build_cache
  build_cache-IsKept spec series horizons cache path =
      elim (Result-cases (assert_features_in_spec spec)) [
        | inl (_, e) ↦ rw (e, build_cache) (inl refl)
        | inr (_, e) ↦ rw (e, build_cache) (build_files-IsKept (jobs series horizons) cache path)
      ]
