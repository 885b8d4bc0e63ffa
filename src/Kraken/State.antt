-- ===== src/Kraken/State.antt =====
-- core/kraken_paper.py: the state of the paper trader, its bars, and the loops' way of collecting
-- events.
use keel_trader.Base.{
  ℕ, ◌-◌, Bool, Option, none, some, List, [], ◌∷◌, ◌++◌, length, drop, or_default,
}
use keel_trader.Base.Dict.{Dict, lookup, insert}
use keel_trader.Base.Text.{Text, text_eq}
use keel_trader.Outcome.{Result, ok, err}
use keel_trader.Singleton.State.{World}
use keel_trader.Strategy.{StrategyConfig}

-- core/kraken_feed.py
pub record Bar (F : Type 0) : Type 0 where
  pub «open» : F
  pub high : F
  pub low : F
  pub close : F
  pub volume : F
  pub ts_ms : ℕ

pub record PaperFill (F : Type 0) : Type 0 where
  pub ts : F
  pub symbol : Text
  pub side : Text
  pub qty : F
  pub decision_price : F
  pub fill_price : F
  pub realized_pnl : F

-- The value of `_held` under a symbol.
pub record Holding (F : Type 0) : Type 0 where
  pub qty : F
  pub entry_fill : F

pub record TraderConfig (F : Type 0) : Type 0 where
  pub strategy_cfg : StrategyConfig F
  pub equity : F
  pub slippage_bps : F
  pub fill_buffer_bps : F
  pub fee_rate : F
  pub history : ℕ

-- The process and the trader.
pub record Trader (F : Type 0) : Type 0 where
  pub world : World F
  pub bars : Dict Text (List (Bar F))
  pub held : Dict Text (Holding F)
  pub realized_pnl : F
  pub fills : List (PaperFill F)
  pub ledger : List (PaperFill F)

-- The fill of the C engine: the bar, the target, the buffer, the slippage, and whether to buy.
abbrev pub FillPrice : Type 0 → Type 0
FillPrice F = Bar F → (target buffer_bps slippage_bps : F) → (is_buy : Bool) → F

abbrev pub ScoreFn : Type 0 → Type 0
ScoreFn F = Text → List (Bar F) → F × F

-- A loop that collects events and that an exception ends; the events so far are then lost.
abbrev pub collect :
    {F A : Type 0}
    → (A → Trader F → Result (Option (PaperFill F)) × Trader F)
    → List A
    → List (PaperFill F)
    → Trader F
    → Result (List (PaperFill F)) × Trader F
collect act [] events t = (ok events, t)
collect act (a ∷ rest) events t =
    let (r, t') = act a t in
    elim r [
      | err e ↦ (err e, t')
      | ok none ↦ collect act rest events t'
      | ok (some ev) ↦ collect act rest (events ++ (ev ∷ [])) t'
    ]

-- `_bars[sym].append(bar)`, and the oldest dropped beyond the history.
abbrev pub add_bar :
    {F : Type 0} → ℕ → Dict Text (List (Bar F)) → Text × Bar F → Dict Text (List (Bar F))
add_bar history bars (name, bar) =
    let more = or_default (lookup name bars) [] ++ (bar ∷ []) in
    insert name (drop (length more - history) more) bars

abbrev pub add_bars :
    {F : Type 0} → ℕ → Dict Text (List (Bar F)) → Dict Text (Bar F) → Dict Text (List (Bar F))
add_bars history bars [] = bars
add_bars history bars (e ∷ snapshot) = add_bars history (add_bar history bars e) snapshot
