-- ===== src/Build/Early.antt =====
-- sim/kraken_data.py: the technical features of series that grow by later bars.
use keel_trader.Base.{
  ℕ, zero, suc, ◌+◌, ◌<◌, ◌≡◌, ◌∙◌, refl, sym, ap, List, [], ◌∷◌, ◌++◌, map, range_from, take,
  replicate, get_or, length, length-map, arith, inl, inr,
}
use mathlib.Core.List.{map-append}
use mathlib.Core.Path.{subst}
use keel_trader.Double.{Double}
use keel_trader.Outcome.{Result, ok, Result-cases}
use keel_trader.Technical.{technical_features}
use keel_trader.Technical.Causal.{technical_features-append}
use keel_trader.MarketBin.Fields.{FloatCodec}
use keel_trader.History.{Ohlcv}
use keel_trader.Build.{tech_start, feature_column, by_time}
use keel_trader.Build.Joined.{cell_of}

module _ {A B : Type 0} where
  get_or-map :
      (f : A → B) (xs : List A) (i : ℕ) (a : A) (b : B)
      → f a ≡ b
      → get_or (map f xs) i b ≡ f (get_or xs i a)
  get_or-map f [] i a b h = sym h
  get_or-map f (x ∷ xs) zero a b h = refl
  get_or-map f (x ∷ xs) (suc i) a b h = get_or-map f xs i a b h

  -- Two lists of one beginning, mapped, are the same there.
  get_or-map-take :
      (f : A → B) (n i : ℕ) (xs ys : List A) (b : B)
      → take n xs ≡ ys
      → i < n
      → get_or (map f xs) i b ≡ get_or (map f ys) i b
  get_or-map-take f zero i xs ys b e h = elim h [ ]
  get_or-map-take f (suc n) i [] ys b e h = ap (λ z. get_or (map f z) i b) e
  get_or-map-take f (suc n) zero (x ∷ xs) ys b e h = ap (λ z. get_or (map f z) 0 b) e
  get_or-map-take f (suc n) (suc i) (x ∷ xs) [] b e h = ground arith
  get_or-map-take f (suc n) (suc i) (x ∷ xs) (y ∷ ys) b e h =
      get_or-map-take f n i xs ys b (ground arith) (omega (arith, h))

module _ {B : Type 0} where
  get_or-map-range_from :
      (f : ℕ → B) (start n i : ℕ) (b : B)
      → i < n
      → get_or (map f (range_from start n)) i b ≡ f (start + i)
  get_or-map-range_from f start zero i b h = elim h [ ]
  get_or-map-range_from f start (suc n) zero b h = ap f (omega arith)
  get_or-map-range_from f start (suc n) (suc i) b h =
      get_or-map-range_from f (start + 1) n i b (omega (arith, h)) ∙ ap f (omega arith)

module _ {F : Type 0} ⦃d : Double F⦄ (codec : FloatCodec F) where
  -- What `by_time` puts at a time and a symbol.
  pub cell_of-by_time :
      (n t s : ℕ) (columns : List (List (List F)))
      → t < n
      → cell_of (by_time codec n columns) t s ≡ get_or (get_or columns s []) t []
  cell_of-by_time n t s columns h =
      let at_time = λ (t : ℕ). map (λ (column : List (List F)). get_or column t []) columns in
      ap (λ (row : List (List F)). get_or row s [])
        (get_or-map-range_from at_time 0 n t [] h ∙ ap at_time (omega arith))
      ∙ get_or-map (λ (column : List (List F)). get_or column t []) columns s [] [] refl

  -- The technical features of some bars.
  abbrev tech_of : List (Ohlcv F) → Result (List (List F))
  tech_of bars =
      technical_features (map (λ b. codec.single (b.open_price)) bars)
        (map (λ b. codec.single (b.high)) bars) (map (λ b. codec.single (b.low)) bars)
        (map (λ b. codec.single (b.close)) bars)

  tech_of-append :
      (bars more : List (Ohlcv F))
      → tech_of (bars ++ more)
        ≡ technical_features
            (map (λ b. codec.single (b.open_price)) bars
              ++ map (λ b. codec.single (b.open_price)) more)
            (map (λ b. codec.single (b.high)) bars ++ map (λ b. codec.single (b.high)) more)
            (map (λ b. codec.single (b.low)) bars ++ map (λ b. codec.single (b.low)) more)
            (map (λ b. codec.single (b.close)) bars ++ map (λ b. codec.single (b.close)) more)
  tech_of-append bars more = simp map-append

  -- A row of the array from a row of technical features.
  abbrev wide_row : List F → List F
  wide_row row = replicate tech_start (d.nought) ++ map (codec.single) row

  pub feature_column-append :
      (bars more : List (Ohlcv F)) (column longer : List (List F)) (t : ℕ)
      → feature_column codec bars ≡ ok column
      → feature_column codec (bars ++ more) ≡ ok longer
      → t < length bars
      → get_or longer t [] ≡ get_or column t []
  feature_column-append bars more column longer t e f h = elim (Result-cases (tech_of bars)) [
    | inl (_, g) ↦ ground arith
    | inr (rows, g) ↦ elim (Result-cases (tech_of (bars ++ more))) [
      | inl (_, k) ↦ ground arith
      | inr (rows', k) ↦
          let closes = map (λ (b : Ohlcv F). codec.single (b.close)) bars in
          let (begin, _) =
            technical_features-append _ _ _ closes _ _ _ _ g (sym (tech_of-append bars more) ∙ k) in
          let same_begin : take (length bars) rows' ≡ rows =
            subst (λ n. take n rows' ≡ rows) (length-map (λ b. codec.single (b.close)) bars)
              begin in
          let short : map wide_row rows ≡ column = ground arith in
          let long : map wide_row rows' ≡ longer = ground arith in
          ap (λ z. get_or z t []) (sym long)
          ∙ get_or-map-take wide_row (length bars) t rows' rows [] same_begin h
          ∙ ap (λ z. get_or z t []) short
    ]
  ]
