-- ===== src/History/Merging.antt =====
-- sim/kraken_data.py: merging series.
use mathlib.Core.Path.{sym as path_sym}
use keel_trader.Base.{
  ℕ, nat_eq, ◌≡◌, refl, ◌∙◌, Option, none, some, List, [], ◌∷◌, All, arith, inl, inr, Bool-cases,
  Option-cases, same, if◌then◌else◌,
}
use keel_trader.Base.Dict.{lookup, insert, update, IsDict, lookup-insert, lookup-update}
use keel_trader.Base.Text.{Text, text_eq, text_beq_iff}
use keel_trader.History.{Ohlcv, Bars, Series, bars_of, merge_into, merge_from, merge_series}

module _ {F : Type 0} (sym : Text) (ts : ℕ) where
  -- The bar of the symbol at the time.
  abbrev pub bar_at : Series F → Option (Ohlcv F)
  bar_at series = lookup ts (bars_of series sym)

  -- The first of two, if there is one.
  abbrev pub or_else : Option (Ohlcv F) → Option (Ohlcv F) → Option (Ohlcv F)
  or_else (some b) other = some b
  or_else none other = other

  -- The bar of the last source that has one.
  abbrev pub last_bar : List (Series F) → Option (Ohlcv F)
  last_bar [] = none
  last_bar (src ∷ sources) = or_else (last_bar sources) (bar_at src)

-- Python's dicts, of dicts.
abbrev pub IsSeries : {F : Type 0} → Series F → Type 0
IsSeries series = IsDict series × All (λ e. IsDict (e.1)) series

module _ {F : Type 0} (sym : Text) (ts : ℕ) where
  bar_at-insert :
      (s : Text) (bars : Bars F) (out : Series F)
      → bar_at sym ts (insert s bars out)
        ≡ (if same sym s then lookup ts bars else bar_at sym ts out)
  bar_at-insert s bars out = ground (arith, lookup-insert s sym bars out)

  merge_into-bar_at :
      (out src : Series F)
      → IsSeries src
      → bar_at sym ts (merge_into out src) ≡ or_else sym ts (bar_at sym ts src) (bar_at sym ts out)
  unfolding merge_into
  merge_into-bar_at out [] h = refl
  merge_into-bar_at out ((s, bars) ∷ src) ((fresh, h), (g, gs)) =
      let merged = update (bars_of out s) bars in
      merge_into-bar_at (insert s merged out) src (h, gs) ∙ elim (Bool-cases (same sym s)) [
        | inl b ↦
            let e : s ≡ sym = path_sym ((text_beq_iff sym s).0 b) in
            ground (arith, bar_at-insert s merged out, lookup-update ts (bars_of out s) bars g, e)
        | inr b ↦ ground (arith, bar_at-insert s merged out)
      ]

  merge_from-last_bar :
      (out : Series F) (sources : List (Series F))
      → All IsSeries sources
      → bar_at sym ts (merge_from out sources)
        ≡ or_else sym ts (last_bar sym ts sources) (bar_at sym ts out)
  merge_from-last_bar out [] h = refl
  merge_from-last_bar out (src ∷ sources) (h, hs) =
      merge_from-last_bar (merge_into out src) sources hs
      ∙ elim (Option-cases (last_bar sym ts sources)) [
        | inl e ↦ rw e (merge_into-bar_at out src h)
        | inr (b, e) ↦ rw e refl
      ]

  -- For sources without a symbol or a time twice, which no dict has, the merged series has for each
  -- symbol and time the bar of the last source that has one, and none where no source has one.
  pub merge_series-last_bar :
      (sources : List (Series F))
      → All IsSeries sources
      → bar_at sym ts (merge_series sources) ≡ last_bar sym ts sources
  unfolding merge_series
  merge_series-last_bar sources h =
      merge_from-last_bar [] sources h
      ∙ elim (Option-cases (last_bar sym ts sources)) [ inl e ↦ rw e refl | inr (b, e) ↦ rw e refl ]
