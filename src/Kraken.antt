-- ===== src/Kraken.antt =====
-- core/kraken_paper.py: the forward test on live prices, with every fill resolved locally by the C
-- engine, and core/kraken_executor.py's gates. The engine's `fill_price` and the score of a symbol
-- are parameters; the ledger is what `_persist` has written.
mod State
pub mod Collect
pub mod Ledger
pub mod Feed
pub mod Loop
pub mod Account
pub mod Executor
pub use State.*
use keel_trader.Base.{
  ℕ, ◌-◌, Bool, true, false, not, ◌&&◌, ◌||◌, Option, none, some, List, [], ◌∷◌, ◌++◌, map,
  if◌then◌else◌, length, drop, or_default,
}
use keel_trader.Base.Dict.{Dict, lookup, contains, insert, erase, update}
use keel_trader.Base.Text.{Text, text_eq}
use keel_trader.Double.{Double, le}
use keel_trader.Config.{live_trading_enabled}
use keel_trader.Outcome.{Result, ok, err, live_forbidden, key_error, zero_division}
use keel_trader.Singleton.State.{World, Order, Done}
use keel_trader.Broker.{paper_execute, submit_order, buy, sell}
use keel_trader.Strategy.{SymbolSignal, Position, StrategyConfig, decide}

-- `KrakenPaperTrader.__post_init__`
unfoldable pub make_trader : {F : Type 0} ⦃d : Double F⦄ → World F → Result (Trader F)
make_trader ⦃d⦄ w =
    if w.paper
    then ok (record {
      world = w;
      bars = [];
      held = [];
      realized_pnl = d.nought;
      fills = [];
      ledger = [];
    })
    else err live_forbidden

-- `KrakenExecutor.__post_init__`
unfoldable pub make_kraken_executor : {F : Type 0} → Bool → World F → Result Done
make_kraken_executor allow_live w =
    if not allow_live || not (live_trading_enabled (w.env)) then err live_forbidden else ok tt

module _ {F : Type 0} ⦃d : Double F⦄ (fill_price : FillPrice F) (cfg : TraderConfig F) where
  -- `_fill`
  abbrev pub fill : Bar F → F → Bool → F
  fill bar target is_buy = fill_price bar target (cfg.fill_buffer_bps) (cfg.slippage_bps) is_buy

  unfoldable pub simulate_entry :
      Text → F → Bar F → F → Trader F → Result (Option (PaperFill F)) × Trader F
  simulate_entry name qty bar price t =
      let entry_fill = fill bar price true in
      let (r, w') = submit_order paper_execute name buy qty price (t.world) in
      let entered : Trader F = record t {
        world = w';
        held = insert name (record { qty = qty; entry_fill = entry_fill }) (t.held);
      } in
      let event : PaperFill F = record {
        ts = t.world.now;
        symbol = name;
        side = buy;
        qty = qty;
        decision_price = price;
        fill_price = entry_fill;
        realized_pnl = d.nought;
      } in
      if le entry_fill (d.nought)
      then (ok none, t)
      else elim r [ err e ↦ (err e, record t { world = w' }) | ok _ ↦ (ok (some event), entered) ]

  -- The gain of a round trip after the fees on both legs.
  abbrev pub net_of : (qty entry_fill sell_fill : F) → F
  net_of qty entry_fill sell_fill =
      d.sub (d.mul qty (d.sub sell_fill entry_fill))
        (d.mul (d.mul (cfg.fee_rate) qty) (d.add entry_fill sell_fill))

  -- A sale of what is held.
  unfoldable pub exit_holding :
      Text → Holding F → Bar F → F → Trader F → Result (Option (PaperFill F)) × Trader F
  exit_holding name h bar price t =
      let sell_fill = fill bar price false in
      let (r, w') = submit_order paper_execute name sell (h.qty) price (t.world) in
      let net = net_of (h.qty) (h.entry_fill) sell_fill in
      let event : PaperFill F = record {
        ts = t.world.now;
        symbol = name;
        side = sell;
        qty = h.qty;
        decision_price = price;
        fill_price = sell_fill;
        realized_pnl = net;
      } in
      if le sell_fill (d.nought) then (ok none, t) else elim r [
        | err e ↦ (err e, record t { world = w' })
        | ok _ ↦ (
          ok (some event),
          record t {
            world = w';
            held = erase name (t.held);
            realized_pnl = d.add (t.realized_pnl) net;
          },
        )
      ]

  unfoldable pub simulate_exit :
      Text → Bar F → F → Trader F → Result (Option (PaperFill F)) × Trader F
  simulate_exit name bar price t = elim (lookup name (t.held)) [
    | none ↦ (if le (fill bar price false) (d.nought) then ok none else err key_error, t)
    | some h ↦ exit_holding name h bar price t
  ]

  -- One turn of each loop of `step`; the price is the bar's close (`_exec_price`).
  unfoldable pub exit_turn :
      Dict Text F → Dict Text (Bar F) → Text → Trader F → Result (Option (PaperFill F)) × Trader F
  exit_turn targets snapshot name t =
      if contains name targets then (ok none, t) else elim (lookup name snapshot) [
        | none ↦ (ok none, t)
        | some bar ↦ simulate_exit name bar (bar.close) t
      ]

  unfoldable pub enter_turn :
      Dict Text (Bar F) → Text × F → Trader F → Result (Option (PaperFill F)) × Trader F
  enter_turn snapshot (name, weight) t =
      if contains name (t.held) then (ok none, t) else elim (lookup name snapshot) [
        | none ↦ (err key_error, t)
        | some bar ↦
            let price = bar.close in
            if le price (d.nought)
            then (ok none, t)
            else simulate_entry name (d.div (d.mul weight (cfg.equity)) price) bar price t
      ]

  -- `_persist` and `fills.extend`
  abbrev pub persist : List (PaperFill F) → Trader F → Trader F
  persist events t = record t { fills = t.fills ++ events; ledger = t.ledger ++ events }

  abbrev pub names : {A : Type 0} → Dict Text A → List Text
  names b = map (λ e. e.0) b

  -- The two loops and the ledger, once the targets are known.
  unfoldable pub trade :
      Dict Text F → Dict Text (Bar F) → Trader F → Result (List (PaperFill F)) × Trader F
  trade targets snapshot t =
      let (r, t') = collect (exit_turn targets snapshot) (names (t.held)) [] t in
      elim r [
        | err e ↦ (err e, t')
        | ok events ↦
            let (r', t'') = collect (enter_turn snapshot) targets events t' in
            elim r' [ err e ↦ (err e, t'') | ok all ↦ (ok all, persist all t'') ]
      ]

  abbrev pub signal_of : ScoreFn F → Dict Text (List (Bar F)) → Text × Bar F → SymbolSignal F
  signal_of score_fn bars (name, _) =
      let (score, vol) = score_fn name (or_default (lookup name bars) []) in
      record { symbol = name; score = score; volatility = vol }

  -- The signals of the snapshot's symbols that have bars.
  abbrev pub signals_of :
      ScoreFn F → Dict Text (List (Bar F)) → Dict Text (Bar F) → List (SymbolSignal F)
  signals_of score_fn bars [] = []
  signals_of score_fn bars ((name, bar) ∷ more) =
      let rest = signals_of score_fn bars more in
      elim (or_default (lookup name bars) []) [
        | [] ↦ rest
        | _ ∷ _ ↦ signal_of score_fn bars (name, bar) ∷ rest
      ]

  -- `KrakenPaperTrader.step`
  unfoldable pub step :
      ScoreFn F → Dict Text (Bar F) → Trader F → Result (List (PaperFill F)) × Trader F
  step score_fn snapshot t =
      let bars = add_bars (cfg.history) (t.bars) snapshot in
      let t' : Trader F = record t { bars = bars } in
      elim (decide (cfg.strategy_cfg) (signals_of score_fn bars snapshot)) [
        | err e ↦ (err e, t')
        | ok ps ↦ trade (update [] (map (λ p. (p.symbol, p.weight)) ps)) snapshot t'
      ]
