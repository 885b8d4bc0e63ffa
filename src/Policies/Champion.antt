-- ===== src/Policies/Champion.antt =====
-- models/xgb/backtest.py: what the policy of the strategy does.
use keel_trader.Base.{
  range, range-lt, ℕ, ◌+◌, ◌<◌, true, ◌&&◌, some, List, [], ◌∷◌, arith, ◌≡◌, ◌∙◌, ◌⊎◌, inl, inr,
  All, same, ltb, Bool-cases, ap,
}
use keel_trader.Base.Text.{text_eq, text_beq_iff}
use keel_trader.Base.Decimal.{decimal, read_decimal, read_decimal-decimal}
use keel_trader.Double.{Double, le, lt}
use keel_trader.Outcome.{at, Result, ok, Result-cases, each}
use keel_trader.Strategy.{SymbolSignal, Position, StrategyConfig, is_eligible, decide}
use keel_trader.Strategy.Decide.{IsDecided, decide-IsDecided}
use keel_trader.Policies.{ScoreFn, symbol_features, signal_of, top_of, action_of, strategy_policy}
use keel_trader.Policies.Order.{each-any}

module _ {F : Type 0} ⦃d : Double F⦄ where
  All-top_of :
      (P : Position F → Type 0) (p : Position F) (ps : List (Position F))
      → P p
      → All P ps
      → P (top_of p ps)
  All-top_of P p [] h hs = h
  All-top_of P p (q ∷ qs) h (g, gs) = elim (Bool-cases (lt (p.weight) (q.weight))) [
    | inl b ↦ rw b (All-top_of P q qs g gs)
    | inr b ↦ rw b (All-top_of P p qs h gs)
  ]

  -- The long action of a symbol that clears the conviction: its score is positive and at the
  -- threshold or above, and the environment has the action.
  abbrev pub IsConvinced :
      (ℕ → Result F) → StrategyConfig F → (n_symbols num_actions a : ℕ) → Type 0
  IsConvinced score cfg n_symbols num_actions a =
      (s : ℕ) × (x : F) × (s < n_symbols)
      × (a ≡ 1 + s)
      × (a < num_actions)
      × (score s ≡ ok x)
      × (lt (d.nought) x ≡ true)
      × (le (cfg.conviction_threshold) x ≡ true)

  signal_of-score :
      (score : ScoreFn F) (vol_idx per : ℕ) (obs : List F) (s : ℕ) (g : SymbolSignal F)
      → signal_of score vol_idx per obs s ≡ ok g
      → (score (symbol_features obs s per) ≡ ok (g.score)) × (g.symbol ≡ decimal s)
  signal_of-score score vol_idx per obs s g e =
      elim (Result-cases (score (symbol_features obs s per))) [
        | inl (_, f) ↦ ground arith
        | inr (x, f) ↦ elim (Result-cases (at (symbol_features obs s per) vol_idx)) [
          | inl (_, k) ↦ ground arith
          | inr (v, k) ↦ ground arith
        ]
      ]

  action_of-decided :
      (score : ScoreFn F) (n per vol_idx num_actions : ℕ) (cfg : StrategyConfig F) (obs : List F)
      (signals : List (SymbolSignal F)) (p : Position F) (ps : List (Position F)) (a : ℕ)
      → each (signal_of score vol_idx per obs) (range n) ≡ ok signals
      → decide cfg signals ≡ ok (p ∷ ps)
      → action_of (p ∷ ps) num_actions ≡ ok a
      → (a ≡ 0) ⊎ IsConvinced (λ s. score (symbol_features obs s per)) cfg n num_actions a
  action_of-decided score n per vol_idx num_actions cfg obs signals p ps a e f h =
      let (decided, _) = decide-IsDecided cfg signals f in
      let (_, _, among) = All-top_of (IsDecided cfg signals) p ps (decided.0) (decided.1) in
      let (s, g, bound, made, kept) =
        each-any (λ s. s < n) (signal_of score vol_idx per obs)
          (λ s. same (s.symbol) ((top_of p ps).symbol) && is_eligible cfg s) (range n) (range-lt n)
          e among in
      let (scored, named) = signal_of-score score vol_idx per obs s g made in
      let named_top : (top_of p ps).symbol ≡ decimal s =
        ground (arith, text_beq_iff (g.symbol) ((top_of p ps).symbol)) in
      let read : read_decimal ((top_of p ps).symbol) ≡ some s =
        ap read_decimal named_top ∙ read_decimal-decimal s in
      let positive : lt (d.nought) (g.score) ≡ true = ground arith in
      let convinced : le (cfg.conviction_threshold) (g.score) ≡ true = ground arith in
      elim (Bool-cases (ltb (1 + s) num_actions)) [
        | inl b ↦ inr (s, g.score, bound, ground arith, ground arith, scored, positive, convinced)
        | inr b ↦ inl (ground arith)
      ]

  positions_lem :
      (score : ScoreFn F) (n per vol_idx num_actions : ℕ) (cfg : StrategyConfig F) (obs : List F)
      (signals : List (SymbolSignal F)) (ps : List (Position F)) (a : ℕ)
      → each (signal_of score vol_idx per obs) (range n) ≡ ok signals
      → decide cfg signals ≡ ok ps
      → action_of ps num_actions ≡ ok a
      → (a ≡ 0) ⊎ IsConvinced (λ s. score (symbol_features obs s per)) cfg n num_actions a
  positions_lem score n per vol_idx num_actions cfg obs signals [] a e f h = inl (ground arith)
  positions_lem score n per vol_idx num_actions cfg obs signals (p ∷ ps) a e f h =
      action_of-decided score n per vol_idx num_actions cfg obs signals p ps a e f h

  -- When the policy gives an action, it is the flat one, or the long one of a symbol whose score is
  -- positive and at the threshold of the configuration or above, and one that the environment has.
  pub strategy_policy-IsConvinced :
      (score : ScoreFn F) (n_symbols features_per_sym vol_idx num_actions : ℕ)
      (cfg : StrategyConfig F) (obs : List F) {a : ℕ}
      → strategy_policy score n_symbols features_per_sym vol_idx cfg obs num_actions ≡ ok a
      → (a ≡ 0)
        ⊎ IsConvinced
            (λ s. score (symbol_features obs s features_per_sym))
            cfg
            n_symbols
            num_actions
            a
  unfolding strategy_policy
  strategy_policy-IsConvinced score n per vol_idx num_actions cfg obs {a = a} e =
      elim (Result-cases (each (signal_of score vol_idx per obs) (range n))) [
        | inl (_, f) ↦ ground arith
        | inr (signals, f) ↦ elim (Result-cases (decide cfg signals)) [
          | inl (_, g) ↦ ground arith
          | inr (positions, g) ↦
              positions_lem score n per vol_idx num_actions cfg obs signals positions a f g
                (ground arith)
        ]
      ]
