-- ===== src/Kraken/Loop.antt =====
-- core/kraken_paper.py: `run_loop` and `summary`. The feed answers by the number of the tick, and
-- the clock is set by it too; an exception of the feed is left out, and so is the ledger's path.
use keel_trader.Base.{ℕ, zero, suc, ◌+◌, map, length}
use keel_trader.Base.Dict.{Dict}
use keel_trader.Base.Text.{Text}
use keel_trader.Double.{Double}
use keel_trader.Outcome.{Result, ok, err}
use keel_trader.Kraken.{Bar, TraderConfig, Trader, FillPrice, ScoreFn, step}

pub record Summary (F : Type 0) : Type 0 where
  pub realized_pnl : F
  pub open_positions : Dict Text F
  pub n_fills : ℕ

-- `KrakenPaperTrader.summary`
abbrev pub summary : {F : Type 0} → Trader F → Summary F
summary t = record {
  realized_pnl = t.realized_pnl;
  open_positions = map (λ e. (e.0, e.1.qty)) (t.held);
  n_fills = length (t.fills);
}

-- A feed: the prices of each tick, and when it was.
pub record Feed (F : Type 0) : Type 0 where
  pub prices : (tick : ℕ) → Dict Text (Bar F)
  pub time : (tick : ℕ) → F

module _ {F : Type 0} ⦃d : Double F⦄ (fill_price : FillPrice F) (cfg : TraderConfig F)
    (score_fn : ScoreFn F) (feed : Feed F) where
  abbrev pub at_time : F → Trader F → Trader F
  at_time now t = record t { world = record t.world { now = now } }

  -- The ticks left, from one on.
  unfoldable pub ticks_from : (i left : ℕ) → Trader F → Result {0} Unit × Trader F
  ticks_from i zero t = (ok tt, t)
  ticks_from i (suc left) t =
      let (r, t') = step fill_price cfg score_fn (feed.prices i) (at_time (feed.time i) t) in
      elim r as (λ _. Result {0} Unit × Trader F) [
        | err e ↦ (err e, t')
        | ok events ↦ ticks_from (i + 1) left t'
      ]

  -- `run_loop`
  unfoldable pub run_loop : (ticks : ℕ) → Trader F → Result (Summary F) × Trader F
  run_loop ticks t =
      let (r, t') = ticks_from 0 ticks t in
      (elim r as (λ _. Result (Summary F)) [ err e ↦ err e | ok _ ↦ ok (summary t') ], t')
