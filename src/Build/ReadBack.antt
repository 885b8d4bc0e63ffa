-- ===== src/Build/ReadBack.antt =====
-- sim/kraken_data.py: what is read of the file that was built.
use mathlib.Core.Path.{subst}
use keel_trader.Base.{
  ℕ, suc, ◌<◌, ◌^◌, ◌≡◌, refl, ap, sym, ◌∙◌, Option, none, some, List, [], ◌∷◌, map, filter, length,
  length-map, All, All-map_each, AllPairs, length-AllPairs, arith, inl, inr,
}
use keel_trader.Base.Text.{Text}
use keel_trader.Double.{Double}
use keel_trader.Outcome.{ok, Result-cases, Gives-ok, each, each-AllPairs}
use keel_trader.MarketBin.{write_market_bin, read_symbols, read_features, read_prices}
use keel_trader.MarketBin.Fields.{Bytes, FloatCodec, Packs}
use keel_trader.MarketBin.Table.{IsStored}
use keel_trader.MarketBin.Blocks.{Row, IsBlock, values, map_block, pack_block-values}
use keel_trader.MarketBin.RoundTrip.{IsMarket, read-write_market_bin}
use keel_trader.History.{Ohlcv, Series, Aligned, bars_of, has_bars, align_to_grid, price_block}
use keel_trader.History.Filling.{prices_on, IsAligned, align_to_grid-IsAligned}
use keel_trader.Build.{
  features_per_sym, write_arrays, feature_column, by_time, build_feature_block, build_bin,
}
use keel_trader.Forecast.{Cache}
use keel_trader.Build.Forecasts.{join_forecast_features}
use keel_trader.Build.Timely.{join_forecast_features-IsBlock}
use keel_trader.Build.Shape.{
  IsColumn, feature_column-IsColumn, by_time-IsBlock, price_block-IsBlock,
}

module _ {F : Type 0} (codec : FloatCodec F) where
  -- On blocks of the stated sizes the two branches of the writer agree.
  write_arrays-bin :
      (names : List Text) (features prices : List (Row F)) (nt fps version : ℕ)
      → IsMarket codec names features prices nt fps version
      → write_arrays codec names features prices nt fps version
        ≡ write_market_bin codec names features prices nt fps version
  unfolding write_arrays write_market_bin
  write_arrays-bin names features prices nt fps version m =
      rw
        (
          pack_block-values codec fps (length names) nt features (m.features_block),
          pack_block-values codec 5 (length names) nt prices (m.prices_block),
        )
        refl

  All-Packs : (xs : List F) → ((x : F) → Packs codec x) → All (Packs codec) xs
  All-Packs [] h = tt
  All-Packs (x ∷ xs) h = (h x, All-Packs xs h)

module _ {F : Type 0} ⦃d : Double F⦄ (codec : FloatCodec F) where
  length-prices_on :
      (series : Series F) (s : Text) (earlier grid : List ℕ)
      → length (prices_on (bars_of series s) earlier grid) ≡ length grid
  length-prices_on series s earlier [] = refl
  length-prices_on series s earlier (ts ∷ grid) =
      ap suc (length-prices_on series s (ts ∷ earlier) grid)

  columns-IsColumn :
      (n_t : ℕ) (prices : List (List (Ohlcv F))) (columns : List (List (List F)))
      → All (λ column. length column ≡ n_t) prices
      → AllPairs (λ bars column. IsColumn (length bars) column) prices columns
      → All (IsColumn n_t) columns
  columns-IsColumn n_t [] [] h g = tt
  columns-IsColumn n_t [] (c ∷ columns) h g = ground arith
  columns-IsColumn n_t (p ∷ prices) [] h g = tt
  columns-IsColumn n_t (p ∷ prices) (c ∷ columns) (h, hs) ((g, all), gs) =
      ((g ∙ h, all), columns-IsColumn n_t prices columns hs gs)

  -- The array before any forecast is joined.
  pub technical_rows-IsBlock :
      (a : Aligned F) (columns : List (List (List F)))
      → All (λ column. length column ≡ length (a.grid)) (a.prices)
      → each (feature_column codec) (a.prices) ≡ ok columns
      → IsBlock features_per_sym
          (length (a.prices))
          (length (a.grid))
          (by_time codec (length (a.grid)) columns)
  technical_rows-IsBlock a columns h f =
      let pairs =
        each-AllPairs (λ bars column. IsColumn (length bars) column) (feature_column codec)
          (λ bars column g.
            Gives-ok (IsColumn (length bars)) (feature_column-IsColumn codec bars) g)
          (a.prices) columns f in
      let same_length =
        length-AllPairs (λ bars column. IsColumn (length bars) column) (a.prices) columns pairs in
      subst
        (λ n.
          IsBlock features_per_sym n (length (a.grid)) (by_time codec (length (a.grid)) columns))
        (sym same_length)
        (by_time-IsBlock codec (length (a.grid)) columns
          (columns-IsColumn (length (a.grid)) (a.prices) columns h pairs))

  build_feature_block-IsBlock :
      (a : Aligned F) (forecast_cache : Option (Cache F)) (features : List (Row F))
      → All (λ column. length column ≡ length (a.grid)) (a.prices)
      → build_feature_block codec a forecast_cache ≡ ok features
      → IsBlock features_per_sym (length (a.prices)) (length (a.grid)) features
  unfolding build_feature_block
  build_feature_block-IsBlock a none features h e =
      elim (Result-cases (each (feature_column codec) (a.prices))) [
        | inl (_, f) ↦ ground arith
        | inr (columns, f) ↦
            let made : by_time codec (length (a.grid)) columns ≡ features = ground arith in
            subst (IsBlock features_per_sym (length (a.prices)) (length (a.grid))) made
              (technical_rows-IsBlock a columns h f)
      ]
  build_feature_block-IsBlock a (some cache) features h e =
      elim (Result-cases (each (feature_column codec) (a.prices))) [
        | inl (_, f) ↦ ground arith
        | inr (columns, f) ↦
            let block = by_time codec (length (a.grid)) columns in
            let made : join_forecast_features codec cache a block ≡ ok features = ground arith in
            Gives-ok (IsBlock features_per_sym (length (a.prices)) (length (a.grid)))
              (join_forecast_features-IsBlock codec cache a (length (a.prices)) (length (a.grid))
                block (technical_rows-IsBlock a columns h f))
              made
      ]

  columns-on :
      (series : Series F) (grid : List ℕ) (present : List Text)
      → All
          (λ column. length column ≡ length grid)
          (map (λ s. prices_on (bars_of series s) [] grid) present)
  columns-on series grid present =
      All-map_each (λ column. length column ≡ length grid) _ present
        (λ s. length-prices_on series s [] grid)

  -- As many columns as symbols, each as long as the grid.
  aligned_shape :
      (series : Series F) (present : List Text) (step : ℕ) (a : Aligned F)
      → IsAligned series present step a
      → (length (a.prices) ≡ length (a.kept))
        × All (λ column. length column ≡ length (a.grid)) (a.prices)
  aligned_shape series present step a (same_kept, same_prices, _) = (
    ap length same_prices ∙ length-map _ present ∙ sym (ap length same_kept),
    subst (All (λ column. length column ≡ length (a.grid))) (sym same_prices)
        (columns-on series (a.grid) present),
  )

  -- Where the series align, the features of the bars are made, with or without forecasts, the kept names are ones
  -- that the table holds, and the numbers of symbols and times fit into 32 bits, the file is
  -- written, for a codec that packs every float; and the readers give back the kept symbols, the
  -- features and the aligned prices, each float rounded to single precision.
  pub build_bin-read :
      (series : Series F) (symbols : List Text) (forecast_cache : Option (Cache F))
      (timeframe : Text) (a : Aligned F) (features : List (Row F))
      → ((x : F) → Packs codec x)
      → align_to_grid series symbols timeframe ≡ ok a
      → build_feature_block codec a forecast_cache ≡ ok features
      → All IsStored (a.kept)
      → length (a.kept) < 2 ^ 32
      → length (a.grid) < 2 ^ 32
      → (file : Bytes) × (build_bin codec series symbols forecast_cache timeframe ≡ ok file)
        × (read_symbols file ≡ ok (a.kept))
        × (read_features codec file ≡ ok (map_block (codec.single) features))
        × (read_prices codec file ≡ ok (map_block (codec.single) (price_block (codec.single) a)))
  unfolding build_bin
  build_bin-read series symbols forecast_cache timeframe a features packs e f stored few short =
      let (step, _, aligned) = align_to_grid-IsAligned series symbols timeframe e in
      let (wide, long) = aligned_shape series (filter (has_bars series) symbols) step a aligned in
      let prices = price_block (codec.single) a in
      let m : IsMarket codec (a.kept) features prices (length (a.grid)) 16 1 = record {
        stored = stored;
        features_block =
            subst (λ n. IsBlock 16 n (length (a.grid)) features) wide
              (build_feature_block-IsBlock a forecast_cache features long f);
        prices_block =
            subst (λ n. IsBlock 5 n (length (a.grid)) prices) wide (price_block-IsBlock codec a);
        features_pack = All-Packs codec (values features) packs;
        prices_pack = All-Packs codec (values prices) packs;
        version_fits = omega arith;
        symbols_fit = few;
        timesteps_fit = short;
        features_fit = omega arith;
      } in
      let (file, written, _, names, fs, ps) = read-write_market_bin codec m in
      (
        file,
        rw (e, f)
            (write_arrays-bin codec (a.kept) features prices (length (a.grid)) 16 1 m ∙ written),
        names,
        fs,
        ps,
      )
