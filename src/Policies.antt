-- ===== src/Policies.antt =====
-- The policies that are judged in the simulator (research/policies.py, models/xgb/backtest.py,
-- research/feature_search.py, research/walkforward.py): functions of the observation and of the
-- number of actions, which is all that they read of the environment. The score by a trained model
-- is a parameter, as are the draws of `random.Random(seed)`.
pub mod Order
pub mod LongShort
pub mod Champion
pub mod Valid
use keel_trader.Base.{
  ℕ, zero, suc, ◌+◌, ◌*◌, Bool, true, false, not, ◌&&◌, ◌||◌, Option, none, some, List, [], ◌∷◌,
  map, get_elem?, range, take, drop, length, ltb, leb, ◌==◌, if◌then◌else◌,
}
use keel_trader.Base.Int.{ℤ, pos, negsuc}
use keel_trader.Base.Decimal.{decimal, read_decimal}
use keel_trader.Base.Text.{Text, codes}
use keel_trader.Double.{Double, le, lt, eq, fabs, sum}
use keel_trader.Outcome.{
  Result, ok, err, value_error, index_error, zero_division, or_error, ◌>>=◌, each, at,
}
use keel_trader.Features.{index, feature_spec}
use keel_trader.Strategy.{SymbolSignal, Position, StrategyConfig, decide}

-- `Policy`
abbrev pub Policy : Type 0 → Type 0
Policy F = List F → (num_actions : ℕ) → Result ℕ

-- `ScoreFn`
abbrev pub ScoreFn : Type 0 → Type 0
ScoreFn F = List F → Result F

-- The end of every policy: the action, unless the environment has fewer.
abbrev pub in_range : (action num_actions : ℕ) → ℕ
in_range action num_actions = if ltb action num_actions then action else 0

module _ {F : Type 0} where
  unfoldable pub always_flat : Policy F
  always_flat obs num_actions = ok 0

  unfoldable pub long_symbol : ℕ → Policy F
  long_symbol sym obs num_actions = ok (if leb num_actions (1 + sym) then 1 else 1 + sym)

  -- `random_policy`, at one of its draws; `randrange(0)` raises.
  unfoldable pub random_policy : (randrange : (draw n : ℕ) → ℕ) → (draw : ℕ) → Policy F
  random_policy randrange draw obs num_actions =
      if num_actions == 0 then err value_error else ok (randrange draw num_actions)

  -- `_symbol_features`
  abbrev pub symbol_features : List F → (s features_per_sym : ℕ) → List F
  symbol_features obs s features_per_sym = take features_per_sym (drop (s * features_per_sym) obs)

  unfoldable pub baseline_score_fn : Result (ScoreFn F)
  baseline_score_fn = do
    idx ← index feature_spec (codes "chronos_close_delta_h24")
    ok (λ feats. at feats idx)

module _ {F : Type 0} ⦃d : Double F⦄ where
  -- A whole number as a float.
  abbrev pub of_int : ℤ → F
  of_int (pos n) = d.lit n 1
  of_int (negsuc n) = d.neg (d.lit (suc n) 1)

  -- `_score_fn` of the search for features
  unfoldable pub score_fn : (feat_idx : ℕ) (sign : ℤ) → ScoreFn F
  score_fn feat_idx sign feats = do x ← at feats feat_idx; ok (d.mul (of_int sign) x)

  -- One turn of the loop on the symbols.
  abbrev pub signal_of :
      ScoreFn F → (vol_idx features_per_sym : ℕ) → List F → ℕ → Result (SymbolSignal F)
  signal_of score vol_idx features_per_sym obs s = do
    x ← score (symbol_features obs s features_per_sym)
    vol ← at (symbol_features obs s features_per_sym) vol_idx
    ok (record { symbol = decimal s; score = x; volatility = fabs vol })

  -- `max(positions, key=…)`, the first of the greatest weight
  abbrev pub top_of : Position F → List (Position F) → Position F
  top_of p [] = p
  top_of p (q ∷ qs) = top_of (if lt (p.weight) (q.weight) then q else p) qs

  -- The end of the policy, from the positions on.
  abbrev pub action_of : List (Position F) → (num_actions : ℕ) → Result ℕ
  action_of [] num_actions = ok 0
  action_of (p ∷ ps) num_actions = do
    sym ← or_error (read_decimal ((top_of p ps).symbol)) value_error
    ok (in_range (1 + sym) num_actions)

  -- `make_strategy_policy`, with the index of the volatility
  unfoldable pub strategy_policy :
      ScoreFn F → (n_symbols features_per_sym vol_idx : ℕ) → StrategyConfig F → Policy F
  strategy_policy score n_symbols features_per_sym vol_idx cfg obs num_actions = do
    signals ← each (signal_of score vol_idx features_per_sym obs) (range n_symbols)
    positions ← decide cfg signals
    action_of positions num_actions

  unfoldable pub make_strategy_policy :
      ScoreFn F → (n_symbols features_per_sym : ℕ) → StrategyConfig F → Result (Policy F)
  make_strategy_policy score n_symbols features_per_sym cfg = do
    vol_idx ← index feature_spec (codes "atr_pct_24h")
    ok (strategy_policy score n_symbols features_per_sym vol_idx cfg)

  -- The loop of `make_long_short_policy`: the best symbol so far, if any, and its score.
  unfoldable pub strongest :
      (score : ℕ → Result F) → (best_sym : Option ℕ) → F → List ℕ → Result (Option ℕ × F)
  strongest score best_sym best_score [] = ok (best_sym, best_score)
  strongest score best_sym best_score (s ∷ ss) = do
    sc ← score s
    let better = lt (fabs best_score) (fabs sc) in
        strongest score (if better then some s else best_sym) (if better then sc else best_score) ss

  abbrev pub direction : (n_symbols num_actions : ℕ) → Option ℕ × F → ℕ
  direction n_symbols num_actions (none, best_score) = 0
  direction n_symbols num_actions (some best_sym, best_score) =
      if eq best_score (d.nought)
      then 0
      else in_range (if lt (d.nought) best_score then 1 + best_sym else 1 + n_symbols + best_sym)
          num_actions

  unfoldable pub make_long_short_policy : ScoreFn F → (n_symbols features_per_sym : ℕ) → Policy F
  make_long_short_policy score n_symbols features_per_sym obs num_actions = do
    best ←
        strongest (λ s. score (symbol_features obs s features_per_sym)) none (d.nought)
          (range n_symbols)
    ok (direction n_symbols num_actions best)

  -- `max(range(n), key=…)` and `min(range(n), key=…)`: the first symbol of the greatest, or least,
  -- value, from one in hand and the values of the symbols from `s` on.
  abbrev pub first_max : (best : ℕ) → F → (s : ℕ) → List F → ℕ × F
  first_max best v s [] = (best, v)
  first_max best v s (w ∷ ws) =
      let beyond = lt v w in
      first_max (if beyond then s else best) (if beyond then w else v) (s + 1) ws

  abbrev pub first_min : (best : ℕ) → F → (s : ℕ) → List F → ℕ × F
  first_min best v s [] = (best, v)
  first_min best v s (w ∷ ws) =
      let beyond = lt w v in
      first_min (if beyond then s else best) (if beyond then w else v) (s + 1) ws

  -- The part past the list of the volatilities. The mean of none raises.
  unfoldable pub rank_trade : (n_symbols : ℕ) → List F → (num_actions : ℕ) → Result ℕ
  rank_trade n_symbols [] num_actions = err zero_division
  rank_trade n_symbols (v ∷ vs) num_actions =
      let mean = d.div (sum (v ∷ vs)) (d.lit (length (v ∷ vs)) 1) in
      let (hi, v_hi) = first_max 0 v 1 vs in
      let (lo, v_lo) = first_min 0 v 1 vs in
      let dev_hi = d.sub v_hi mean in
      let dev_lo = d.sub mean v_lo in
      ok (
        if le dev_hi (d.nought) && le dev_lo (d.nought)
        then 0
        else in_range (if le dev_lo dev_hi then 1 + n_symbols + hi else 1 + lo) num_actions)

  unfoldable pub make_xsvol_policy : (vol_idx n_symbols features_per_sym : ℕ) → Policy F
  make_xsvol_policy vol_idx n_symbols features_per_sym obs num_actions = do
    vols ← each (λ s. at obs (s * features_per_sym + vol_idx)) (range n_symbols)
    rank_trade n_symbols vols num_actions
