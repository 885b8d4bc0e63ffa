-- ===== src/Kraken/Ledger.antt =====
-- core/kraken_paper.py: the books of the paper trader after a step.
use keel_trader.Base.{
  ◌≡◌, ◌∙◌, refl, sym, ap, true, false, List, [], ◌++◌, map, All, Bool-cases, Option-cases, inl,
  inr,
}
use mathlib.Core.Path.{subst}
use keel_trader.Base.Dict.{Dict, lookup, contains, update}
use keel_trader.Base.Text.{Text, text_eq}
use keel_trader.Double.{Double, le}
use keel_trader.Outcome.{Result, ok, err, Result-cases}
use keel_trader.Broker.{paper_execute, submit_order, buy, sell}
use keel_trader.Broker.Submit.{submit_order-ok}
use keel_trader.Strategy.{decide}
use keel_trader.Kraken.{
  Bar, PaperFill, Holding, TraderConfig, Trader, FillPrice, ScoreFn, collect, simulate_entry,
  exit_holding, simulate_exit, exit_turn, enter_turn, fill, trade, names, persist, signals_of, step,
  add_bars,
}
use keel_trader.Kraken.Collect.{
  order_of, IsFilled, Executed, Executed-nil, Executed-append, Turns, Collects, collect-Collects,
}

module _ {F : Type 0} ⦃d : Double F⦄ (fill_price : FillPrice F) (cfg : TraderConfig F) where
  simulate_entry-Turns :
      (name : Text) (qty : F) (bar : Bar F) (price : F) (t : Trader F)
      → Turns t (simulate_entry fill_price cfg name qty bar price t)
  unfolding simulate_entry
  simulate_entry-Turns name qty bar price t =
      elim (Bool-cases (le (fill fill_price cfg bar price true) (d.nought))) [
        | inl b ↦ rw (b, simulate_entry) (Executed-nil t)
        | inr b ↦
            elim (Result-cases ((submit_order paper_execute name buy qty price (t.world)).0)) [
              | inl (x, f) ↦ rw (b, f, simulate_entry) tt
              | inr (o, f) ↦
                  rw (b, f, simulate_entry)
                    (record {
                      executed_lem = (submit_order-ok name buy qty price (t.world) f).1;
                      fills_lem = refl;
                      ledger_lem = refl;
                      filled_lem = (b, tt);
                    })
            ]
      ]

  exit_holding-Turns :
      (name : Text) (h : Holding F) (bar : Bar F) (price : F) (t : Trader F)
      → Turns t (exit_holding fill_price cfg name h bar price t)
  unfolding exit_holding
  exit_holding-Turns name h bar price t =
      elim (Bool-cases (le (fill fill_price cfg bar price false) (d.nought))) [
        | inl b ↦ rw (b, exit_holding) (Executed-nil t)
        | inr b ↦
            elim (Result-cases ((submit_order paper_execute name sell (h.qty) price (t.world)).0)) [
              | inl (x, f) ↦ rw (b, f, exit_holding) tt
              | inr (o, f) ↦
                  rw (b, f, exit_holding)
                    (record {
                      executed_lem = (submit_order-ok name sell (h.qty) price (t.world) f).1;
                      fills_lem = refl;
                      ledger_lem = refl;
                      filled_lem = (b, tt);
                    })
            ]
      ]

  simulate_exit-Turns :
      (name : Text) (bar : Bar F) (price : F) (t : Trader F)
      → Turns t (simulate_exit fill_price cfg name bar price t)
  unfolding simulate_exit
  simulate_exit-Turns name bar price t = elim (Option-cases (lookup name (t.held))) [
    | inl e ↦ elim (Bool-cases (le (fill fill_price cfg bar price false) (d.nought))) [
      | inl b ↦ rw (e, b, simulate_exit) (Executed-nil t)
      | inr b ↦ rw (e, b, simulate_exit) tt
    ]
    | inr (h, e) ↦ rw (e, simulate_exit) (exit_holding-Turns name h bar price t)
  ]

  exit_turn-Turns :
      (targets : Dict Text F) (snapshot : Dict Text (Bar F)) (name : Text) (t : Trader F)
      → Turns t (exit_turn fill_price cfg targets snapshot name t)
  unfolding exit_turn
  exit_turn-Turns targets snapshot name t = elim (Bool-cases (contains name targets)) [
    | inl b ↦ rw (b, exit_turn) (Executed-nil t)
    | inr b ↦ elim (Option-cases (lookup name snapshot)) [
      | inl e ↦ rw (b, e, exit_turn) (Executed-nil t)
      | inr (bar, e) ↦ rw (b, e, exit_turn) (simulate_exit-Turns name bar (bar.close) t)
    ]
  ]

  enter_turn-Turns :
      (snapshot : Dict Text (Bar F)) (target : Text × F) (t : Trader F)
      → Turns t (enter_turn fill_price cfg snapshot target t)
  unfolding enter_turn
  enter_turn-Turns snapshot (name, weight) t = elim (Bool-cases (contains name (t.held))) [
    | inl b ↦ rw (b, enter_turn) (Executed-nil t)
    | inr b ↦ elim (Option-cases (lookup name snapshot)) [
      | inl e ↦ rw (b, e, enter_turn) tt
      | inr (bar, e) ↦ elim (Bool-cases (le (bar.close) (d.nought))) [
        | inl z ↦ rw (b, e, z, enter_turn) (Executed-nil t)
        | inr z ↦
            rw (b, e, z, enter_turn)
              (simulate_entry-Turns name (d.div (d.mul weight (cfg.equity)) (bar.close)) bar
                (bar.close) t)
      ]
    ]
  ]

  -- The books after a step that returns: the executor has seen just the orders of the fills, in
  -- their order, the fills are in the record and in the ledger, and each has a positive price.
  abbrev pub Books : Trader F → Result (List (PaperFill F)) × Trader F → Type 0
  Books t (err e, t') = Unit
  Books t (ok events, t') =
      (t'.world.filled ≡ t.world.filled ++ map order_of events)
      × (t'.fills ≡ t.fills ++ events)
      × (t'.ledger ≡ t.ledger ++ events)
      × All IsFilled events

  persist-Books :
      (t u : Trader F) (events : List (PaperFill F)) (r : Result (List (PaperFill F)) × Trader F)
      → Executed t u events
      → Collects u events r
      → Books t (elim (r.0) as (λ _. Result (List (PaperFill F)) × Trader F) [
        | err e ↦ (err e, r.1)
        | ok all ↦ (ok all, persist fill_price cfg all (r.1))
      ])
  persist-Books t u events (err e, v) a h = tt
  persist-Books t u events (ok all, v) a (more, e, b) =
      let both = Executed-append t u v events more a b in
      (
        both.executed_lem ∙ ap (λ z. t.world.filled ++ map order_of z) (sym e),
        ap (λ z. z ++ all) (both.fills_lem),
        ap (λ z. z ++ all) (both.ledger_lem),
        subst (All IsFilled) (sym e) (both.filled_lem),
      )

  trade-Books :
      (targets : Dict Text F) (snapshot : Dict Text (Bar F)) (t : Trader F)
      → Books t (trade fill_price cfg targets snapshot t)
  unfolding trade
  trade-Books targets snapshot t =
      enter t
        (collect (exit_turn fill_price cfg targets snapshot) (names fill_price cfg (t.held)) [] t)
        (collect-Collects (exit_turn fill_price cfg targets snapshot)
          (exit_turn-Turns targets snapshot) (names fill_price cfg (t.held)) [] t)
    where
      enter :
          (t : Trader F) (r : Result (List (PaperFill F)) × Trader F)
          → Collects t [] r
          → Books t (elim (r.0) as (λ _. Result (List (PaperFill F)) × Trader F) [
            | err e ↦ (err e, r.1)
            | ok events ↦
                (elim ((collect (enter_turn fill_price cfg snapshot) targets events (r.1)).0)
                  as (λ _. Result (List (PaperFill F)) × Trader F) [
                    | err e ↦ (
                      err e,
                      (collect (enter_turn fill_price cfg snapshot) targets events (r.1)).1,
                    )
                    | ok all ↦ (
                      ok all,
                      persist fill_price cfg all
                          ((collect (enter_turn fill_price cfg snapshot) targets events (r.1)).1),
                    )
                  ])
          ])
      enter t (err e, u) h = tt
      enter t (ok events, u) (more, e, a) =
          persist-Books t u events (collect (enter_turn fill_price cfg snapshot) targets events u)
            (subst (Executed t u) (sym e) a)
            (collect-Collects (enter_turn fill_price cfg snapshot) (enter_turn-Turns snapshot)
              targets events u)

  -- A step of the paper trader that returns has executed, through the guarded broker, just the
  -- orders of the fills that it returns, in their order; the fills are appended to the record and
  -- to the ledger, and the engine gave each of them a fill, a price that is not 0 or below.
  pub step-Books :
      (score_fn : ScoreFn F) (snapshot : Dict Text (Bar F)) (t : Trader F)
      → Books t (step fill_price cfg score_fn snapshot t)
  unfolding step
  step-Books score_fn snapshot t =
      let bars = add_bars (cfg.history) (t.bars) snapshot in
      let signals = signals_of fill_price cfg score_fn bars snapshot in
      elim (Result-cases (decide (cfg.strategy_cfg) signals)) [
        | inl (e, f) ↦ rw (f, step) tt
        | inr (ps, f) ↦
            rw (f, step)
              (trade-Books (update [] (map (λ p. (p.symbol, p.weight)) ps)) snapshot
                (record t { bars = bars }))
      ]
