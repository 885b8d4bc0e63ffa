-- ===== src/Build/Shape.antt =====
-- sim/kraken_data.py: the shapes of the arrays that are built.
use keel_trader.Base.{
  ℕ, zero, suc, ◌+◌, ◌<◌, ◌≡◌, refl, ap, ◌∙◌, List, [], map, length, range, range-lt, length-range,
  length-map, get_or-All, All, All-of-map, All-map_each, arith, ◌==◌, ◌&&◌, inl, inr, Bool-cases,
}
use keel_trader.Double.{Double}
use keel_trader.Outcome.{Gives, Gives-bind, Gives-ok}
use keel_trader.Technical.{technical_features, row_at, table}
use keel_trader.MarketBin.Fields.{FloatCodec}
use keel_trader.MarketBin.Blocks.{IsRow, IsBlock}
use keel_trader.History.{Ohlcv, Aligned, price_block}
use keel_trader.Build.{features_per_sym, feature_column, by_time}

module _ {F : Type 0} ⦃d : Double F⦄ where
  table-rows :
      (highs lows closes : List F) (lo n : ℕ)
      → (length (table (row_at highs lows closes) lo n) ≡ n)
        × All (λ r. length r ≡ 8) (table (row_at highs lows closes) lo n)
  unfolding row_at
  table-rows highs lows closes lo zero = (refl, tt)
  table-rows highs lows closes lo (suc n) =
      let (k, all) = table-rows highs lows closes (lo + 1) n in (ap suc k, (refl, all))

  -- A column of the features: a row of the width for each time.
  abbrev pub IsColumn : (n_t : ℕ) → List (List F) → Type 0
  IsColumn n_t column = (length column ≡ n_t) × All (λ r. length r ≡ features_per_sym) column

  technical_features-rows :
      (opens highs lows closes : List F)
      → Gives
          (λ tech. (length tech ≡ length closes) × All (λ r. length r ≡ 8) tech)
          (technical_features opens highs lows closes)
  unfolding technical_features
  technical_features-rows opens highs lows closes =
      let n = length closes in
      elim (Bool-cases ((length opens == n) && (length highs == n) && (length lows == n))) [
        | inl b ↦ rw (b, technical_features) (table-rows highs lows closes 0 n)
        | inr b ↦ rw (b, technical_features) tt
      ]

  module _ (codec : FloatCodec F) where
    pub feature_column-IsColumn :
        (bars : List (Ohlcv F)) → Gives (IsColumn (length bars)) (feature_column codec bars)
    feature_column-IsColumn bars =
        let closes = map (λ b. codec.single (b.close)) bars in
        Gives-bind (IsColumn (length bars)) (technical_features _ _ _ closes) _ λ tech e.
          let (k, all) =
            Gives-ok (λ t. (length t ≡ length closes) × All (λ r. length r ≡ 8) t)
              (technical_features-rows _ _ _ closes) e in
          (
            length-map _ tech ∙ k ∙ length-map _ bars,
            All-of-map (λ r. length r ≡ 16) (λ r. length r ≡ 8) _ tech
                (λ r h. omega (arith, h, length-map (codec.single) r)) all,
          )

    pub by_time-IsBlock :
        (n_t : ℕ) (columns : List (List (List F)))
        → All (IsColumn n_t) columns
        → IsBlock features_per_sym (length columns) n_t (by_time codec n_t columns)
    by_time-IsBlock n_t columns h = (
      length-map _ (range n_t) ∙ length-range n_t,
      All-of-map (IsRow features_per_sym (length columns)) (λ t. t < n_t) _ (range n_t)
          (λ t k. (
            length-map _ columns,
            All-of-map (λ r. length r ≡ 16) (IsColumn n_t) _ columns
                (λ column (e, all).
                  get_or-All (λ r. length r ≡ 16) column t [] (omega (arith, e, k)) all)
                h,
          ))
          (range-lt n_t),
    )

    pub price_block-IsBlock :
        (a : Aligned F)
        → IsBlock 5 (length (a.prices)) (length (a.grid)) (price_block (codec.single) a)
    price_block-IsBlock a = (
      length-map _ (range (length (a.grid))) ∙ length-range (length (a.grid)),
      All-of-map (IsRow 5 (length (a.prices))) (λ t. t < length (a.grid)) _
          (range (length (a.grid)))
          (λ t k. (
            length-map _ (a.prices),
            All-map_each (λ c. length c ≡ 5) _ (a.prices) (λ column. refl),
          ))
          (range-lt (length (a.grid))),
    )
