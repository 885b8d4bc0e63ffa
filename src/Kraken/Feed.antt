-- ===== src/Kraken/Feed.antt =====
-- core/kraken_feed.py: a snapshot of the public feed, whose two calls are parameters; and the default
-- score of core/kraken_paper.py, from the technical features of the bars.
use keel_trader.Base.{
  ◌-◌, Option, none, some, List, [], ◌∷◌, map, if◌then◌else◌, ltb, length, get_or,
}
use keel_trader.Base.Dict.{Dict, insert}
use keel_trader.Base.Text.{Text, text_eq}
use keel_trader.Double.{Double, eq, fmax}
use keel_trader.Outcome.{Result, ok, err}
use keel_trader.Technical.{technical_features}
use keel_trader.Kraken.{Bar}

-- The last price and the close of a ticker, if it has them.
pub record Ticker (F : Type 0) : Type 0 where
  pub last : Option F
  pub close : Option F

module _ {F : Type 0} ⦃d : Double F⦄ where
  -- `x or y`, where 0 counts as nothing
  abbrev pub or_else : Option F → F → F
  or_else none y = y
  or_else (some x) y = if eq x (d.nought) then y else x

  -- The last bar but one, or the only one.
  abbrev pub closed_bar : Bar F → List (Bar F) → Bar F
  closed_bar b [] = b
  closed_bar b (c ∷ []) = b
  closed_bar b (c ∷ e ∷ bars) = closed_bar c (e ∷ bars)

  -- `KrakenPublicFeed.snapshot`, over the feed's symbols
  unfoldable pub snapshot :
      (fetch_ohlcv : Text → List (Bar F))
      → (fetch_ticker : Text → Ticker F) → List Text
      → Dict Text (Bar F × F)
      → Dict Text (Bar F × F)
  snapshot fetch_ohlcv fetch_ticker [] out = out
  snapshot fetch_ohlcv fetch_ticker (name ∷ symbols) out =
      let ticker = fetch_ticker name in
      let out' = elim (fetch_ohlcv name) as (λ _. Dict Text (Bar F × F)) [
        | [] ↦ out
        | b ∷ bars ↦
            let bar = closed_bar b bars in
            insert name (bar, or_else (ticker.last) (or_else (ticker.close) (bar.close))) out
      ] in
      snapshot fetch_ohlcv fetch_ticker symbols out'

  -- The features of the last row.
  abbrev pub last_of : List (List F) → List F
  last_of rows = get_or rows (length rows - 1) []

  unfoldable pub momentum_score : List (Bar F) → Result (F × F)
  momentum_score bars =
      let o = map (λ b. b.«open») bars in
      let h = map (λ b. b.high) bars in
      let l = map (λ b. b.low) bars in
      let c = map (λ b. b.close) bars in
      if ltb (length bars) 2
      then ok (d.nought, d.lit 1 10_000)
      else elim (technical_features o h l c) as (λ _. Result (F × F)) [
        | err e ↦ err e
        | ok rows ↦
            let feats = last_of rows in
            ok (get_or feats 1 (d.nought), fmax (get_or feats 5 (d.nought)) (d.lit 1 10_000))
      ]
