-- ===== src/Kraken/Account.antt =====
-- core/kraken_paper.py: the books of a whole run of the paper trader.
use keel_trader.Base.{◌+◌, ◌≡◌, List, ◌++◌, map, length, All}
use keel_trader.Double.{Double}
use keel_trader.Outcome.{Result, ok, err}
use keel_trader.Singleton.State.{World}
use keel_trader.Kraken.{PaperFill, TraderConfig, Trader, FillPrice, ScoreFn}
use keel_trader.Kraken.Collect.{order_of, IsFilled}
use keel_trader.Kraken.Ledger.{Books}
use keel_trader.Kraken.Loop.{Feed, Summary}

module _ {F : Type 0} ⦃d : Double F⦄ (fill_price : FillPrice F) (cfg : TraderConfig F)
    (score_fn : ScoreFn F) (feed : Feed F) where
  -- The books after some ticks, of which none has raised.
  abbrev Ran : Trader F → Result {0} Unit × Trader F → Type 0
  Ran t (err e, u) = Unit
  Ran t (ok _, u) = (events : List (PaperFill F)) × Books fill_price cfg t (ok events, u)

  -- What a run of a new trader leaves behind, if it ends with a summary.
  abbrev pub Balances : World F → Result (Summary F) × Trader F → Type 0
  Balances w (err e, t) = Unit
  Balances w (ok s, t) =
      (t.world.filled ≡ w.filled ++ map order_of (t.ledger))
      × (t.fills ≡ t.ledger)
      × (length (t.world.filled) ≡ length (w.filled) + s.n_fills)
      × All IsFilled (t.ledger)
