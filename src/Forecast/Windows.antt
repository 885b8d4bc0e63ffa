-- ===== src/Forecast/Windows.antt =====
-- forecast/chronos.py: what the model is asked, told from the bars up to an anchor.
use keel_trader.Base.{
  ℕ, zero, suc, ◌+◌, ◌-◌, ◌≤◌, ◌≡◌, refl, ap, ◌∙◌, List, [], ◌∷◌, map, All, arith, take, drop,
  range_from, some, get_elem?,
}
use keel_trader.History.{Track}
use keel_trader.Outcome.{Result, ok, at, ◌>>=◌}
use keel_trader.Forecast.{ForecastRow, Predict, context, contexts}

module _ {A : Type 0} where
  take_nil : (n : ℕ) → take {A = A} n [] ≡ []
  take_nil zero = refl
  take_nil (suc n) = refl

  take_of_drop : (m n : ℕ) (xs : List A) → take n (drop m xs) ≡ drop m (take (m + n) xs)
  take_of_drop zero n xs = let e : n ≡ 0 + n = omega arith in ap (λ k. take k xs) e
  take_of_drop (suc m) n [] =
      let e : suc (m + n) ≡ suc m + n = omega arith in
      rw (take_nil n) (ap (λ k. drop (suc m) (take k [])) e)
  take_of_drop (suc m) n (x ∷ xs) =
      let e : suc (m + n) ≡ suc m + n = omega arith in
      take_of_drop m n xs ∙ ap (λ k. drop (suc m) (take k (x ∷ xs))) e

  pub All-take : (P : A → Type 0) (n : ℕ) (xs : List A) → All P xs → All P (take n xs)
  All-take P zero xs h = tt
  All-take P (suc n) [] h = tt
  All-take P (suc n) (x ∷ xs) (h, hs) = (h, All-take P n xs hs)

  pub All-drop : (P : A → Type 0) (n : ℕ) (xs : List A) → All P xs → All P (drop n xs)
  All-drop P zero xs h = h
  All-drop P (suc n) [] h = tt
  All-drop P (suc n) (x ∷ xs) (h, hs) = All-drop P n xs hs

pub range_from-le : (m start n : ℕ) → m ≤ start → All (λ i. m ≤ i) (range_from start n)
range_from-le m start zero h = tt
range_from-le m start (suc n) h = (h, range_from-le m (start + 1) n (omega (arith, h)))

module _ {F : Type 0} (predict : Predict F) (series : Track F) (step before : ℕ) where
  -- Of the values up to the anchor, the last ones.
  abbrev pub window : List F → ℕ → List F
  window xs i = drop (i - before) (take (i + 1) xs)

  abbrev pub windows : ℕ → List (List F)
  windows i = window (series.close) i ∷ window (series.high) i ∷ window (series.low) i ∷ []

  context-window :
      (xs : List F) (i : ℕ) → before ≤ i → context predict series step before xs i ≡ window xs i
  context-window xs i h =
      let n : i - before + suc before ≡ i + 1 = omega (arith, h) in
      rw (take_of_drop (i - before) (suc before) xs) (rw n refl)

  pub contexts-windows :
      (batch : List ℕ)
      → All (λ i. before ≤ i) batch
      → map (contexts predict series step before) batch ≡ map windows batch
  contexts-windows [] h = refl
  contexts-windows (i ∷ batch) (h, hs) =
      rw
        (
          context-window (series.close) i h,
          context-window (series.high) i h,
          context-window (series.low) i h,
        )
        (ap (λ rest. windows i ∷ rest) (contexts-windows batch hs))

  -- `q[k][c, horizon - 1][j]`
  abbrev pub quantile : (q : List (List (List (List F)))) → (k c j : ℕ) → Result F
  quantile q k c j = do e ← at q k; x ← at e c; s ← at x step; at s j

  pub quantile-ok :
      (q : List (List (List (List F)))) (k c j : ℕ) {e : List (List (List F))} {x : List (List F)}
      {s : List F} {v : F}
      → at q k ≡ ok e
      → at e c ≡ ok x
      → at x step ≡ ok s
      → at s j ≡ ok v
      → quantile q k c j ≡ ok v
  quantile-ok q k c j g1 g2 g3 g4 = rw g1 (rw g2 (rw g3 g4))

  -- The row has the quantiles of an answer of the model for the place `k` of a batch.
  abbrev pub Reads : (q : List (List (List (List F)))) → (k : ℕ) → ForecastRow F → Type 0
  Reads q k r =
      (quantile q k 0 0 ≡ ok (r.predicted_close_p10))
      × (quantile q k 0 1 ≡ ok (r.predicted_close_p50))
      × (quantile q k 0 2 ≡ ok (r.predicted_close_p90))
      × (quantile q k 1 1 ≡ ok (r.predicted_high_p50))
      × (quantile q k 2 1 ≡ ok (r.predicted_low_p50))

  -- The quantiles of the row are the model's answer to the windows up to the anchors of a batch, at
  -- the place of this anchor.
  abbrev pub IsForecast : ℕ → ForecastRow F → Type 0
  IsForecast i r =
      (batch : List ℕ) × (k : ℕ) × (get_elem? batch k ≡ some i)
      × Reads (predict (map windows batch) (suc step)) k r
