-- ===== src/Forecast/Anchors.antt =====
-- forecast/chronos.py: the rows of a series.
use mathlib.Core.Path.{subst}
use keel_trader.Base.{
  ℕ, zero, suc, ◌+◌, ◌*◌, ◌≤◌, ◌≡◌, ◌∙◌, ap, sym, refl, some, List, [], ◌∷◌, ◌++◌, map, All,
  AllPairs, arith, length, take, drop, get_elem?, take-drop, length-drop,
}
use keel_trader.History.{Track}
use keel_trader.Outcome.{ok, at, Gives, Gives-bind, Gives-ok}
use keel_trader.Forecast.{
  ForecastRow, assert_no_leakage, Predict, row_of, rows_of, batches, anchors, contexts,
  forecast_rows, hour_seconds,
}
use keel_trader.Forecast.Windows.{
  windows, contexts-windows, All-take, All-drop, range_from-le, quantile-ok, Reads, IsForecast,
}
use keel_trader.Forecast.Clean.{IsClean, IsClean-assert_no_leakage}

module _ {F : Type 0} (predict : Predict F) (series : Track F) (step before : ℕ) where
  -- The row stands at the time of its anchor, which is the end of what it has seen, and its target
  -- is the horizon ahead.
  abbrev pub IsStamped : ℕ → ForecastRow F → Type 0
  IsStamped i r =
      (get_elem? (series.timestamp) i ≡ some (r.timestamp))
      × (r.context_end ≡ r.timestamp)
      × (r.target_timestamp ≡ r.timestamp + suc step * hour_seconds)
      × (r.horizon ≡ suc step)
      × (r.symbol ≡ series.symbol)

  -- The row of an anchor, with the model's answer to the windows up to it.
  abbrev pub IsAnchored : ℕ → ForecastRow F → Type 0
  IsAnchored i r = IsStamped i r × IsForecast predict series step before i r

  row_of_lem :
      (q : List (List (List (List F)))) (k i : ℕ)
      → Gives
          (λ r. IsStamped i r × Reads predict series step before q k r)
          (row_of predict series step before q k i)
  row_of_lem q k i =
      let P = λ (r : ForecastRow F). IsStamped i r × Reads predict series step before q k r in
      Gives-bind P (at q k) _ λ e g1. Gives-bind P (at e 0) _ λ close g2.
        Gives-bind P (at close step) _ λ cp g3. Gives-bind P (at e 1) _ λ high g4.
          Gives-bind P (at high step) _ λ hp g5. Gives-bind P (at e 2) _ λ low g6.
            Gives-bind P (at low step) _ λ lp g7. Gives-bind P (at (series.timestamp) i) _ λ t g.
              Gives-bind P (at cp 0) _ λ c10 a1. Gives-bind P (at cp 1) _ λ c50 a2.
                Gives-bind P (at cp 2) _ λ c90 a3. Gives-bind P (at hp 1) _ λ h50 a4.
                  Gives-bind P (at lp 1) _ λ l50 a5. (
                    (ground (arith, g), refl, refl, refl, refl),
                    (
                      quantile-ok predict series step before q k 0 0 g1 g2 g3 a1,
                      quantile-ok predict series step before q k 0 1 g1 g2 g3 a2,
                      quantile-ok predict series step before q k 0 2 g1 g2 g3 a3,
                      quantile-ok predict series step before q k 1 1 g1 g4 g5 a4,
                      quantile-ok predict series step before q k 2 1 g1 g6 g7 a5,
                    ),
                  )

  -- The rows of what is left of a batch.
  rows_of-IsAnchored :
      (all : List ℕ) (k : ℕ) (batch : List ℕ)
      → ((n : ℕ) → get_elem? all (k + n) ≡ get_elem? batch n)
      → Gives (AllPairs IsAnchored batch) (
          rows_of predict series step before
            (predict (map (windows predict series step before) all) (suc step))
            k
            batch)
  unfolding rows_of
  rows_of-IsAnchored all k [] h = tt
  rows_of-IsAnchored all k (i ∷ batch) h =
      let q = predict (map (windows predict series step before) all) (suc step) in
      Gives-bind (AllPairs IsAnchored (i ∷ batch)) (row_of predict series step before q k i) _
        λ r e.
          Gives-bind (AllPairs IsAnchored (i ∷ batch))
            (rows_of predict series step before q (k + 1) batch) _
            λ rows f.
              let (stamped, reads) = Gives-ok _ (row_of_lem q k i) e in
              let here : k + 0 ≡ k = omega arith in
              (
                (stamped, (all, k, ap (get_elem? all) (sym here) ∙ h 0, reads)),
                Gives-ok (AllPairs IsAnchored batch)
                    (rows_of-IsAnchored all (k + 1) batch λ n.
                      let e' : k + 1 + n ≡ k + suc n = omega arith in
                      ap (get_elem? all) e' ∙ h (suc n))
                    f,
              )

  AllPairs-append :
      (xs ys : List ℕ) (rows more : List (ForecastRow F))
      → AllPairs IsAnchored xs rows
      → AllPairs IsAnchored ys more
      → AllPairs IsAnchored (xs ++ ys) (rows ++ more)
  AllPairs-append [] ys [] more h g = g
  AllPairs-append [] ys (r ∷ rows) more h g = ground arith
  AllPairs-append (x ∷ xs) ys [] more h g = ground arith
  AllPairs-append (x ∷ xs) ys (r ∷ rows) more (h, hs) g = (h, AllPairs-append xs ys rows more hs g)

  batches-IsAnchored :
      (chunk fuel : ℕ) (xs : List ℕ)
      → length xs ≤ fuel
      → All (λ i. before ≤ i) xs
      → Gives (AllPairs IsAnchored xs) (batches predict series step before (suc chunk) fuel xs)
  unfolding batches
  batches-IsAnchored chunk fuel [] h g = tt
  batches-IsAnchored chunk zero (i ∷ xs) h g = ground arith
  batches-IsAnchored chunk (suc fuel) (i ∷ xs) h g =
      let batch = take (suc chunk) (i ∷ xs) in
      let left = drop (suc chunk) (i ∷ xs) in
      let q = predict (map (contexts predict series step before) batch) (suc step) in
      let asked =
        contexts-windows predict series step before batch
          (All-take (λ j. before ≤ j) (suc chunk) (i ∷ xs) g) in
      let rows_lem : Gives (AllPairs IsAnchored batch)
          (rows_of predict series step before q 0 batch) =
        subst
          (λ x.
            Gives (AllPairs IsAnchored batch)
              (rows_of predict series step before (predict x (suc step)) 0 batch))
          (sym asked)
          (rows_of-IsAnchored batch 0 batch
            λ n. let e : 0 + n ≡ n = omega arith in ap (get_elem? batch) e) in
      Gives-bind (AllPairs IsAnchored (i ∷ xs)) (rows_of predict series step before q 0 batch) _
        λ rows e.
          Gives-bind (AllPairs IsAnchored (i ∷ xs))
            (batches predict series step before (suc chunk) fuel left) _
            λ more f.
              subst (λ all. AllPairs IsAnchored all (rows ++ more)) (take-drop (suc chunk) (i ∷ xs))
                (AllPairs-append batch left rows more
                  (Gives-ok (AllPairs IsAnchored batch) rows_lem e)
                  (Gives-ok (AllPairs IsAnchored left)
                    (batches-IsAnchored chunk fuel left (omega (arith, h, length-drop chunk xs))
                      (All-drop (λ j. before ≤ j) (suc chunk) (i ∷ xs) g))
                    f))

  anchored-IsClean :
      (xs : List ℕ) (rows : List (ForecastRow F)) → AllPairs IsAnchored xs rows → All IsClean rows
  anchored-IsClean [] [] h = tt
  anchored-IsClean [] (r ∷ rows) h = ground arith
  anchored-IsClean (x ∷ xs) [] h = tt
  anchored-IsClean (x ∷ xs) (r ∷ rows) (((_, e, f, _, _), _), hs) =
      ((omega (arith, e), omega (arith, f)), anchored-IsClean xs rows hs)

  -- When the forecasts of a series return, there is one for each anchor in turn, however they are cut
  -- into batches: at the time of the anchor, with a target that is the horizon later, and with the
  -- quantiles that the model answers at the anchor's place when it is asked, for each anchor of a
  -- batch, with the closes, highs and lows up to that anchor, less those from before its context;
  -- so they pass the leakage check.
  pub forecast_rows-IsAnchored :
      (chunk : ℕ) {rows : List (ForecastRow F)}
      → forecast_rows predict series step before chunk ≡ ok rows
      → AllPairs IsAnchored (anchors predict series step before) rows
        × (assert_no_leakage rows ≡ ok tt)
  unfolding forecast_rows
  forecast_rows-IsAnchored zero h = ground arith
  forecast_rows-IsAnchored (suc chunk) {rows = rows} h =
      let xs = anchors predict series step before in
      let pairs =
        Gives-ok (AllPairs IsAnchored xs)
          (batches-IsAnchored chunk (length xs) xs (omega arith)
            (range_from-le before before _ (omega arith)))
          h in
      (pairs, IsClean-assert_no_leakage rows (anchored-IsClean xs rows pairs))
