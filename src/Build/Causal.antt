-- ===== src/Build/Causal.antt =====
-- sim/kraken_data.py: that the features of a bar look at nothing later, forecasts included.
use keel_trader.Base.{
  ℕ, zero, suc, ◌<◌, ◌≡◌, ◌∙◌, refl, sym, ap, Option, none, some, List, [], ◌∷◌, ◌++◌, get_elem?,
  get_or, length, length-append, All, AllPairs, arith, inl, inr,
}
use mathlib.Core.Path.{subst}
use keel_trader.Base.Text.{Text}
use keel_trader.Double.{Double}
use keel_trader.Outcome.{ok, ok-injective, Result-cases, each, each-AllPairs}
use keel_trader.MarketBin.Fields.{FloatCodec}
use keel_trader.MarketBin.Blocks.{Row, IsBlock}
use keel_trader.History.{Ohlcv, Aligned}
use keel_trader.Forecast.{Cache}
use keel_trader.Build.{feature_column, by_time, build_feature_block}
use keel_trader.Build.Forecasts.{join_forecast_features}
use keel_trader.Build.Joined.{cell_of, joined_cell}
use keel_trader.Build.Timely.{Reaches, join_forecast_features-Reaches}
use keel_trader.Build.ReadBack.{technical_rows-IsBlock}
use keel_trader.Build.Early.{cell_of-by_time, feature_column-append}

-- The bars of a symbol with later ones appended.
abbrev pub Extends : {F : Type 0} → (bars longer : List (Ohlcv F)) → Type 0
Extends {F} bars longer = (more : List (Ohlcv F)) × (longer ≡ bars ++ more)

-- A market has its columns: one for each symbol kept, each as long as the grid.
abbrev pub IsWhole : {F : Type 0} → Aligned F → Type 0
IsWhole a =
    (length (a.prices) ≡ length (a.kept))
    × All (λ column. length column ≡ length (a.grid)) (a.prices)

-- A market of the same symbols with later times and their bars appended.
pub record IsExtension {F : Type 0} (a b : Aligned F) : Type 0 where
  pub later : List ℕ
  pub kept_lem : b.kept ≡ a.kept
  pub grid_lem : b.grid ≡ a.grid ++ later
  pub prices_lem : AllPairs Extends (a.prices) (b.prices)
  pub whole : IsWhole a
  pub whole' : IsWhole b

module _ {ℓ} {A : Type ℓ} where
  get_elem?-some : (xs : List A) (i : ℕ) → i < length xs → (x : A) × (get_elem? xs i ≡ some x)
  get_elem?-some [] i h = elim h [ ]
  get_elem?-some (x ∷ xs) zero h = (x, refl)
  get_elem?-some (x ∷ xs) (suc i) h = get_elem?-some xs i (omega (arith, h))

  get_elem?-append :
      (xs ys : List A) (i : ℕ) {x : A} → get_elem? xs i ≡ some x → get_elem? (xs ++ ys) i ≡ some x
  get_elem?-append [] ys i e = cc
  get_elem?-append (y ∷ xs) ys zero e = e
  get_elem?-append (y ∷ xs) ys (suc i) e = get_elem?-append xs ys i e

  get_elem?-All :
      (P : A → Type 0) (xs : List A) (i : ℕ) {x : A} → get_elem? xs i ≡ some x → All P xs → P x
  get_elem?-All P [] i e p = cc
  get_elem?-All P (y ∷ xs) zero {x} e (p, ps) = let same : y ≡ x = cc in subst P same p
  get_elem?-All P (y ∷ xs) (suc i) e (p, ps) = get_elem?-All P xs i e ps

get_elem?-AllPairs :
    {A B : Type 0} (R : A → B → Type 0) (xs : List A) (ys : List B) (i : ℕ) {x : A}
    → AllPairs R xs ys
    → get_elem? xs i ≡ some x
    → (y : B) × (get_elem? ys i ≡ some y) × R x y
get_elem?-AllPairs R [] ys i h e = cc
get_elem?-AllPairs R (z ∷ xs) [] i h e = elim h [ ]
get_elem?-AllPairs R (z ∷ xs) (y ∷ ys) zero {x} (h, hs) e =
    let same : z ≡ x = cc in (y, refl, subst (λ x. R x y) same h)
get_elem?-AllPairs R (z ∷ xs) (y ∷ ys) (suc i) (h, hs) e = get_elem?-AllPairs R xs ys i hs e

module _ {F : Type 0} ⦃d : Double F⦄ (codec : FloatCodec F) where
  -- The columns made of each of two markets, at a time of the first.
  columns-early :
      (n t s : ℕ) (ps qs : List (List (Ohlcv F))) (cs ds : List (List (List F)))
      → All (λ column. length column ≡ n) ps
      → AllPairs Extends ps qs
      → AllPairs (λ bars column. feature_column codec bars ≡ ok column) ps cs
      → AllPairs (λ bars column. feature_column codec bars ≡ ok column) qs ds
      → t < n
      → get_or (get_or ds s []) t [] ≡ get_or (get_or cs s []) t []
  columns-early n t s [] [] [] [] w x c e h = refl
  columns-early n t s [] [] [] (_ ∷ _) w x c e h = elim e [ ]
  columns-early n t s [] [] (_ ∷ _) ds w x c e h = elim c [ ]
  columns-early n t s [] (_ ∷ _) cs ds w x c e h = elim x [ ]
  columns-early n t s (p ∷ ps) [] cs ds w x c e h = elim x [ ]
  columns-early n t s (p ∷ ps) (q ∷ qs) [] ds w x c e h = elim c [ ]
  columns-early n t s (p ∷ ps) (q ∷ qs) (_ ∷ _) [] w x c e h = elim e [ ]
  columns-early n t zero (p ∷ ps) (q ∷ qs) (col ∷ cs) (long ∷ ds) (w, ws) ((more, x), xs) (c, cs')
        (e, es) h =
      feature_column-append codec p more col long t c
        (subst (λ z. feature_column codec z ≡ ok long) x e) (omega (arith, w, h))
  columns-early n t (suc s) (p ∷ ps) (q ∷ qs) (col ∷ cs) (long ∷ ds) (w, ws) (x, xs) (c, cs')
        (e, es) h =
      columns-early n t s ps qs cs ds ws xs cs' es h

  -- The arrays before any forecast is joined agree at the times of the first market.
  technical-early :
      (a b : Aligned F) (cs ds : List (List (List F))) (t s : ℕ)
      → IsExtension a b
      → each (feature_column codec) (a.prices) ≡ ok cs
      → each (feature_column codec) (b.prices) ≡ ok ds
      → t < length (a.grid)
      → cell_of (by_time codec (length (b.grid)) ds) t s
        ≡ cell_of (by_time codec (length (a.grid)) cs) t s
  technical-early a b cs ds t s x e f h =
      let G =
        λ (bars : List (Ohlcv F)) (column : List (List F)). feature_column codec bars ≡ ok column in
      let longer : t < length (b.grid) =
        omega (arith, h, ap length (x.grid_lem), length-append (a.grid) (x.later)) in
      cell_of-by_time codec (length (b.grid)) t s ds longer
      ∙ columns-early (length (a.grid)) t s (a.prices) (b.prices) cs ds (x.whole.1) (x.prices_lem)
          (each-AllPairs G (feature_column codec) (λ bars column g. g) (a.prices) cs e)
          (each-AllPairs G (feature_column codec) (λ bars column g. g) (b.prices) ds f) h
      ∙ sym (cell_of-by_time codec (length (a.grid)) t s cs h)

  -- What reaches a bar is determined.
  Reaches-same :
      (cache : Cache F) (name : Text) (ts_ms : ℕ) (bar : Ohlcv F) (before after after' : List F)
      → Reaches codec cache name ts_ms bar before after
      → Reaches codec cache name ts_ms bar before after'
      → after' ≡ after
  Reaches-same cache name ts_ms bar before after after' (f, e, _, p) (g, e', _, q) =
      let same : g ≡ f = ok-injective (sym e' ∙ e) in
      q ∙ ap (λ z. joined_cell codec z ts_ms bar before) same ∙ sym p

  module _ (a b : Aligned F) (x : IsExtension a b) where
    -- The joins to the two arrays agree at the times of the first market.
    joined-early :
        (cache : Cache F) (feats feats' out out' : List (Row F)) (t s : ℕ)
        → IsBlock 16 (length (a.kept)) (length (a.grid)) feats
        → IsBlock 16 (length (b.kept)) (length (b.grid)) feats'
        → cell_of feats' t s ≡ cell_of feats t s
        → join_forecast_features codec cache a feats ≡ ok out
        → join_forecast_features codec cache b feats' ≡ ok out'
        → t < length (a.grid)
        → s < length (a.kept)
        → cell_of out' t s ≡ cell_of out t s
    joined-early cache feats feats' out out' t s w w' same e e' h k =
        let (ts_ms, g) = get_elem?-some (a.grid) t h in
        let (name, n) = get_elem?-some (a.kept) s k in
        let (bars, p) = get_elem?-some (a.prices) s (omega (arith, k, x.whole.0)) in
        let long : length bars ≡ length (a.grid) =
          get_elem?-All (λ column. length column ≡ length (a.grid)) (a.prices) s p (x.whole.1) in
        let (bar, c) = get_elem?-some bars t (omega (arith, h, long)) in
        let (bars', p', (more, longer)) =
          get_elem?-AllPairs Extends (a.prices) (b.prices) s (x.prices_lem) p in
        let reached =
          join_forecast_features-Reaches codec cache a feats t s {ts_ms = ts_ms} {name = name}
            {bars = bars} {bar = bar} e w g n p c in
        let reached' =
          join_forecast_features-Reaches codec cache b feats' t s {ts_ms = ts_ms} {name = name}
            {bars = bars'} {bar = bar} e' w'
            (subst (λ z. get_elem? z t ≡ some ts_ms) (sym (x.grid_lem))
              (get_elem?-append (a.grid) (x.later) t g))
            (subst (λ z. get_elem? z s ≡ some name) (sym (x.kept_lem)) n) p'
            (subst (λ z. get_elem? z t ≡ some bar) (sym longer) (get_elem?-append bars more t c)) in
        Reaches-same cache name ts_ms bar (cell_of feats t s) (cell_of out t s) (cell_of out' t s)
          reached
          (subst (λ z. Reaches codec cache name ts_ms bar z (cell_of out' t s)) same reached')

    -- The array of a market before any forecast is joined has 16 features for each symbol kept.
    kept-IsBlock :
        (m : Aligned F) (cs : List (List (List F)))
        → IsWhole m
        → each (feature_column codec) (m.prices) ≡ ok cs
        → IsBlock 16 (length (m.kept)) (length (m.grid)) (by_time codec (length (m.grid)) cs)
    kept-IsBlock m cs (count, long) e =
        subst (λ n. IsBlock 16 n (length (m.grid)) (by_time codec (length (m.grid)) cs)) count
          (technical_rows-IsBlock codec m cs long e)

  -- The features of a bar look at nothing later: with later times and their bars appended to a
  -- market of the same symbols, and with the same forecast cache or none, the features of every
  -- symbol at every time that was there are as before, the technical ones and the forecasts.
  pub build_feature_block-IsExtension :
      (a b : Aligned F) (forecast_cache : Option (Cache F)) {out out' : List (Row F)} (t s : ℕ)
      → IsExtension a b
      → build_feature_block codec a forecast_cache ≡ ok out
      → build_feature_block codec b forecast_cache ≡ ok out'
      → t < length (a.grid)
      → s < length (a.kept)
      → cell_of out' t s ≡ cell_of out t s
  unfolding build_feature_block
  build_feature_block-IsExtension a b forecast_cache {out} {out'} t s x e e' h k =
      elim (Result-cases (each (feature_column codec) (a.prices))) [
        | inl (_, f) ↦ ground arith
        | inr (cs, f) ↦ elim (Result-cases (each (feature_column codec) (b.prices))) [
          | inl (_, g) ↦ ground arith
          | inr (ds, g) ↦ both forecast_cache cs ds f g e e'
        ]
      ]
    where
      both :
          (forecast_cache : Option (Cache F)) (cs ds : List (List (List F)))
          → each (feature_column codec) (a.prices) ≡ ok cs
          → each (feature_column codec) (b.prices) ≡ ok ds
          → build_feature_block codec a forecast_cache ≡ ok out
          → build_feature_block codec b forecast_cache ≡ ok out'
          → cell_of out' t s ≡ cell_of out t s
      both none cs ds f g e e' =
          let first : by_time codec (length (a.grid)) cs ≡ out = ground arith in
          let second : by_time codec (length (b.grid)) ds ≡ out' = ground arith in
          ap (λ z. cell_of z t s) (sym second)
          ∙ technical-early a b cs ds t s x f g h
          ∙ ap (λ z. cell_of z t s) first
      both (some cache) cs ds f g e e' =
          let first = by_time codec (length (a.grid)) cs in
          let second = by_time codec (length (b.grid)) ds in
          let e1 : join_forecast_features codec cache a first ≡ ok out = ground arith in
          let e2 : join_forecast_features codec cache b second ≡ ok out' = ground arith in
          joined-early a b x cache first second out out' t s (kept-IsBlock a b x a cs (x.whole) f)
            (kept-IsBlock a b x b ds (x.whole') g) (technical-early a b cs ds t s x f g h) e1 e2 h k
