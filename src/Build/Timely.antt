-- ===== src/Build/Timely.antt =====
-- sim/kraken_data.py: the whole join, and the feature block with it.
use keel_trader.Base.{
  ℕ, zero, suc, ◌+◌, ◌*◌, ◌<◌, ◌≡◌, ◌∙◌, refl, sym, Option, none, some, List, [], ◌∷◌, get_elem?,
  length, arith, ◌==◌, Bool-cases, inl, inr,
}
use mathlib.Core.Path.{subst}
use keel_trader.Base.Text.{Text}
use keel_trader.Double.{Double}
use keel_trader.Outcome.{ok, Gives, Gives-map, Gives-ok, Result-cases}
use keel_trader.Features.{feature_spec}
use keel_trader.MarketBin.Fields.{FloatCodec}
use keel_trader.MarketBin.Blocks.{Row, IsBlock}
use keel_trader.History.{Ohlcv, Aligned}
use keel_trader.Forecast.{Quantiles, Cache, assert_features_in_spec}
use keel_trader.Build.Forecasts.{
  Frames, row_at_time, load_both, write_symbol, join_from, join_forecast_features,
}
use keel_trader.Build.Joined.{
  cell_of, joined_cell, write_symbol-IsBlock, write_symbol-other, write_symbol_self,
}

-- The forecast, if there is one, is that of the time.
abbrev pub IsAt : {F : Type 0} → (ts_ms : ℕ) → Option (Quantiles F) → Type 0
IsAt ts_ms none = Unit
IsAt ts_ms (some q) = q.timestamp * 1_000 ≡ ts_ms

row_at_time-IsAt :
    {F : Type 0} (frame : List (Quantiles F)) (ts_ms : ℕ) → IsAt ts_ms (row_at_time frame ts_ms)
unfolding row_at_time
row_at_time-IsAt [] ts_ms = tt
row_at_time-IsAt (q ∷ frame) ts_ms = elim (Bool-cases (q.timestamp * 1_000 == ts_ms)) [
  | inl b ↦ rw (b, row_at_time) (ground arith)
  | inr b ↦ rw (b, row_at_time) (row_at_time-IsAt frame ts_ms)
]

-- The forecasts of both horizons that a bar gets are those of its time.
abbrev pub IsTimely : {F : Type 0} → (ts_ms : ℕ) → Frames F → Type 0
IsTimely ts_ms none = Unit
IsTimely ts_ms (some (f1, f24)) =
    IsAt ts_ms (row_at_time f1 ts_ms) × IsAt ts_ms (row_at_time f24 ts_ms)

found-IsTimely : {F : Type 0} (ts_ms : ℕ) (found : Frames F) → IsTimely ts_ms found
found-IsTimely ts_ms none = tt
found-IsTimely ts_ms (some (f1, f24)) = (row_at_time-IsAt f1 ts_ms, row_at_time-IsAt f24 ts_ms)

get_elem?-lt {ℓ} :
    {A : Type ℓ} (xs : List A) (i : ℕ) {x : A} → get_elem? xs i ≡ some x → i < length xs
get_elem?-lt [] i e = cc
get_elem?-lt (y ∷ xs) zero e = omega arith
get_elem?-lt (y ∷ xs) (suc i) e = omega (arith, get_elem?-lt xs i e)

module _ {F : Type 0} ⦃d : Double F⦄ (codec : FloatCodec F) (cache : Cache F) where
  pub join_from-IsBlock :
      (grid : List ℕ) (s n nt : ℕ) (kept : List Text) (prices : List (List (Ohlcv F)))
      (feats : List (Row F))
      → IsBlock 16 n nt feats
      → Gives (IsBlock 16 n nt) (join_from codec cache grid s kept prices feats)
  unfolding join_from
  join_from-IsBlock grid s n nt [] prices feats b = b
  join_from-IsBlock grid s n nt (sym ∷ kept) [] feats b = b
  join_from-IsBlock grid s n nt (sym ∷ kept) (bars ∷ prices) feats b =
      elim (Result-cases (load_both cache sym)) [
        | inl (_, e) ↦ rw (e, join_from) tt
        | inr (found, e) ↦
            rw (e, join_from)
              (join_from-IsBlock grid (s + 1) n nt kept prices
                (write_symbol codec s grid bars found feats)
                (write_symbol-IsBlock codec s n nt grid bars found feats b))
      ]

  -- The columns before `s` stay.
  join_from-before :
      (grid : List ℕ) (s : ℕ) (kept : List Text) (prices : List (List (Ohlcv F)))
      (feats : List (Row F)) (t j : ℕ)
      → j < s
      → Gives
          (λ out. cell_of out t j ≡ cell_of feats t j)
          (join_from codec cache grid s kept prices feats)
  unfolding join_from
  join_from-before grid s [] prices feats t j h = refl
  join_from-before grid s (sym ∷ kept) [] feats t j h = refl
  join_from-before grid s (sym ∷ kept) (bars ∷ prices) feats t j h =
      elim (Result-cases (load_both cache sym)) [
        | inl (_, e) ↦ rw (e, join_from) tt
        | inr (found, e) ↦
            let next = write_symbol codec s grid bars found feats in
            let kept_cell : cell_of next t j ≡ cell_of feats t j =
              write_symbol-other codec s t j grid bars found feats (ground arith) in
            rw (e, join_from)
              (subst
                (λ z.
                  Gives (λ out. cell_of out t j ≡ z)
                    (join_from codec cache grid (s + 1) kept prices next))
                kept_cell (join_from-before grid (s + 1) kept prices next t j (omega (arith, h))))
      ]

  -- What is joined to the bar of a symbol at a time: the forecasts that the symbol's files hold for
  -- that very time, if both files are there, and nothing if one is missing.
  abbrev pub Reaches : (sym : Text) (ts_ms : ℕ) → Ohlcv F → (before after : List F) → Type 0
  Reaches sym ts_ms bar before after =
      (found : Frames F) × (load_both cache sym ≡ ok found)
      × IsTimely ts_ms found
      × (after ≡ joined_cell codec found ts_ms bar before)

  Reaches-after :
      (name : Text) (ts_ms : ℕ) (bar : Ohlcv F) (before after z : List F)
      → z ≡ before
      → Reaches name ts_ms bar z after
      → Reaches name ts_ms bar before after
  Reaches-after name ts_ms bar before after z e r = subst (λ q. Reaches name ts_ms bar q after) e r

  join_from-Reaches :
      (grid : List ℕ) (s n nt : ℕ) (kept : List Text) (prices : List (List (Ohlcv F)))
      (feats : List (Row F)) (t i j : ℕ) {ts_ms : ℕ} {name : Text} {bars : List (Ohlcv F)}
      {bar : Ohlcv F}
      → s + i ≡ j
      → IsBlock 16 n nt feats
      → get_elem? grid t ≡ some ts_ms
      → get_elem? kept i ≡ some name
      → get_elem? prices i ≡ some bars
      → get_elem? bars t ≡ some bar
      → t < nt
      → j < n
      → Gives
          (λ out. Reaches name ts_ms bar (cell_of feats t j) (cell_of out t j))
          (join_from codec cache grid s kept prices feats)
  unfolding join_from
  join_from-Reaches grid s n nt [] prices feats t i j q b g k p c h l = cc
  join_from-Reaches grid s n nt (first ∷ kept) [] feats t i j q b g k p c h l = cc
  join_from-Reaches grid s n nt (first ∷ kept) (column ∷ prices) feats t zero j {ts_ms} {name}
        {bars} {bar} q b g k p c h l =
      elim (Result-cases (load_both cache first)) [
        | inl (_, e) ↦ rw (e, join_from) tt
        | inr (found, e) ↦
            let next = write_symbol codec s grid column found feats in
            let here : s ≡ j = omega (arith, q) in
            let same_name : first ≡ name = cc in
            let same_bars : column ≡ bars = cc in
            let written : cell_of next t s ≡ joined_cell codec found ts_ms bar (cell_of feats t s) =
              write_symbol_self codec s t n nt grid column found feats g
                (subst (λ z. get_elem? z t ≡ some bar) (sym same_bars) c) b h
                (omega (arith, here, l)) in
            rw (e, join_from)
              (subst
                (λ z.
                  Gives (λ out. Reaches name ts_ms bar (cell_of feats t z) (cell_of out t z))
                    (join_from codec cache grid (s + 1) kept prices next))
                here
                (Gives-map (λ out. cell_of out t s ≡ cell_of next t s)
                  (λ out. Reaches name ts_ms bar (cell_of feats t s) (cell_of out t s))
                  (join_from codec cache grid (s + 1) kept prices next)
                  (λ out same_cell. (
                    found,
                    subst (λ z. load_both cache z ≡ ok found) same_name e,
                    found-IsTimely ts_ms found,
                    same_cell ∙ written,
                  ))
                  (join_from-before grid (s + 1) kept prices next t s (omega arith))))
      ]
  join_from-Reaches grid s n nt (first ∷ kept) (column ∷ prices) feats t (suc i) j {ts_ms} {name}
        {bars} {bar} q b g k p c h l =
      elim (Result-cases (load_both cache first)) [
        | inl (_, e) ↦ rw (e, join_from) tt
        | inr (found, e) ↦
            let next = write_symbol codec s grid column found feats in
            let same_cell : cell_of next t j ≡ cell_of feats t j =
              write_symbol-other codec s t j grid column found feats (ground arith) in
            rw (e, join_from)
              (Gives-map (λ out. Reaches name ts_ms bar (cell_of next t j) (cell_of out t j))
                (λ out. Reaches name ts_ms bar (cell_of feats t j) (cell_of out t j))
                (join_from codec cache grid (s + 1) kept prices next)
                (λ out r.
                  Reaches-after name ts_ms bar (cell_of feats t j) (cell_of out t j)
                    (cell_of next t j) same_cell r)
                (join_from-Reaches grid (s + 1) n nt kept prices next t i j (omega (arith, q))
                  (write_symbol-IsBlock codec s n nt grid column found feats b) g k p c h l))
      ]

  pub join_forecast_features-IsBlock :
      (a : Aligned F) (n nt : ℕ) (feats : List (Row F))
      → IsBlock 16 n nt feats
      → Gives (IsBlock 16 n nt) (join_forecast_features codec cache a feats)
  unfolding join_forecast_features
  join_forecast_features-IsBlock a n nt feats b =
      elim (Result-cases (assert_features_in_spec feature_spec)) [
        | inl (_, e) ↦ rw (e, join_forecast_features) tt
        | inr (_, e) ↦
            rw (e, join_forecast_features)
              (join_from-IsBlock (a.grid) 0 n nt (a.kept) (a.prices) feats b)
      ]

  -- When the forecasts are joined to an array of 16 features for each symbol and time, a bar gets
  -- just the forecasts that the files of its symbol hold for its own time, in the first eight
  -- features, rounded to single precision; a bar of a symbol with a missing file stays as it was,
  -- and the technical features of every bar stay.
  pub join_forecast_features-Reaches :
      (a : Aligned F) (feats : List (Row F)) {out : List (Row F)} (t s : ℕ) {ts_ms : ℕ}
      {name : Text} {bars : List (Ohlcv F)} {bar : Ohlcv F}
      → join_forecast_features codec cache a feats ≡ ok out
      → IsBlock 16 (length (a.kept)) (length (a.grid)) feats
      → get_elem? (a.grid) t ≡ some ts_ms
      → get_elem? (a.kept) s ≡ some name
      → get_elem? (a.prices) s ≡ some bars
      → get_elem? bars t ≡ some bar
      → Reaches name ts_ms bar (cell_of feats t s) (cell_of out t s)
  unfolding join_forecast_features
  join_forecast_features-Reaches a feats {out} t s {ts_ms} {name} {bars} {bar} e b g k p c =
      elim (Result-cases (assert_features_in_spec feature_spec)) [
        | inl (_, f) ↦ ground arith
        | inr (_, f) ↦
            let joined : join_from codec cache (a.grid) 0 (a.kept) (a.prices) feats ≡ ok out =
              ground arith in
            Gives-ok (λ out. Reaches name ts_ms bar (cell_of feats t s) (cell_of out t s))
              (join_from-Reaches (a.grid) 0 (length (a.kept)) (length (a.grid)) (a.kept) (a.prices)
                feats t s s (omega arith) b g k p c (get_elem?-lt (a.grid) t g)
                (get_elem?-lt (a.kept) s k))
              joined
      ]
