-- ===== src/Runner.antt =====
-- core/paper_runner.py: the decision loop that rehearses the guards on paper. The injected `submit`
-- is a sink whose record is part of the state; the orders that `step` returns are those that it
-- adds there. `prices.get` is a function.
pub mod Held
pub mod Rehearsal
use keel_trader.Base.{
  Bool, true, false, not, Option, none, some, List, [], ◌∷◌, ◌++◌, map, if◌then◌else◌,
}
use keel_trader.Base.Dict.{Dict, contains, insert, erase, update}
use keel_trader.Base.Text.{Text, text_eq}
use keel_trader.Double.{Double}
use keel_trader.Outcome.{Result, ok, err, live_forbidden}
use keel_trader.Singleton.State.{World, Done}
use keel_trader.Singleton.Buys.{record_buy_price}
use keel_trader.Singleton.Guard.{no_args, guard_sell}
use keel_trader.Broker.{buy, sell}
use keel_trader.Strategy.{SymbolSignal, Position, StrategyConfig, decide}

pub record PaperOrder (F : Type 0) : Type 0 where
  pub symbol : Text
  pub side : Text
  pub price : F
  pub target_weight : F

-- The process, the targets held, and what the sink has been given.
pub record Desk (F : Type 0) : Type 0 where
  pub world : World F
  pub held : Dict Text F
  pub submitted : List (PaperOrder F)

abbrev pub DeskAction : Type 0 → Type 0
DeskAction F = Desk F → Result Done × Desk F

-- A `for` loop that an exception ends.
abbrev pub each : {F A : Type 0} → (A → DeskAction F) → List A → DeskAction F
each act [] k = (ok tt, k)
each act (a ∷ rest) k =
    let (r, k') = act a k in elim r [ err e ↦ (err e, k') | ok _ ↦ each act rest k' ]

abbrev pub keys : {F : Type 0} → Dict Text F → List Text
keys held = map (λ e. e.0) held

abbrev pub targets_of : {F : Type 0} → List (Position F) → Dict Text F
targets_of ps = update [] (map (λ p. (p.symbol, p.weight)) ps)

-- `PaperRunner.__post_init__`
unfoldable pub make_runner : {F : Type 0} → World F → Result (Desk F)
make_runner w =
    if w.paper then ok (record { world = w; held = []; submitted = [] }) else err live_forbidden

module _ {F : Type 0} ⦃d : Double F⦄ (prices : Text → Option F) where
  -- One turn of the loop over the names held.
  unfoldable pub exit_one : Dict Text F → Text → DeskAction F
  exit_one targets sym k = elim (prices sym) [
    | none ↦ (ok tt, k)
    | some price ↦
        let (r, w') = guard_sell no_args sym sell price (k.world) in
        let sold : PaperOrder F = record {
          symbol = sym;
          side = sell;
          price = price;
          target_weight = d.nought;
        } in
        if contains sym targets then (ok tt, k) else elim r [
          | err e ↦ (err e, record k { world = w' })
          | ok _ ↦ (
            ok tt,
            record {
              world = w';
              held = erase sym (k.held);
              submitted = k.submitted ++ (sold ∷ []);
            },
          )
        ]
  ]

  -- One turn of the loop over the targets.
  unfoldable pub enter_one : Text × F → DeskAction F
  enter_one (sym, weight) k = elim (prices sym) [
    | none ↦ (ok tt, k)
    | some price ↦
        let (r, w') = record_buy_price sym price (k.world) in
        let bought : PaperOrder F = record {
          symbol = sym;
          side = buy;
          price = price;
          target_weight = weight;
        } in
        if contains sym (k.held)
        then (ok tt, record k { held = insert sym weight (k.held) })
        else elim r [
          | err e ↦ (err e, record k { world = w' })
          | ok _ ↦ (
            ok tt,
            record {
              world = w';
              held = insert sym weight (k.held);
              submitted = k.submitted ++ (bought ∷ []);
            },
          )
        ]
  ]

  -- The two loops, once the targets are known.
  unfoldable pub rebalance : Dict Text F → DeskAction F
  rebalance targets k =
      let (r, k') = each (exit_one targets) (keys (k.held)) k in
      elim r [ err e ↦ (err e, k') | ok _ ↦ each enter_one targets k' ]

  -- `PaperRunner.step`
  unfoldable pub step : StrategyConfig F → List (SymbolSignal F) → DeskAction F
  step cfg signals k = elim (decide cfg signals) [
    | err e ↦ (err e, k)
    | ok ps ↦ rebalance (targets_of ps) k
  ]
