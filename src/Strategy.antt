-- ===== src/Strategy.antt =====
-- models/xgb/strategy.py: from scores to target weights. Symbols are the keys of dicts in insertion
-- order, as there; `sorted` by (-score, symbol) is a stable insertion sort with that key's `<`.
pub mod Sizing
pub mod Picks
pub mod Decide
use keel_trader.Base.{
  ℕ, zero, suc, Bool, true, false, not, ◌&&◌, ◌||◌, Option, none, some, List, [], ◌∷◌, map,
  if◌then◌else◌, filter, take, length, or_default,
}
use keel_trader.Base.Int.{ℤ, pos_part}
use keel_trader.Base.Dict.{Dict, lookup, insert, update}
use keel_trader.Base.Text.{Text, text_eq, text_lt}
use keel_trader.Double.{Double, le, lt, eq, fmax, sum}
use keel_trader.Outcome.{Result, ok, or_error, zero_division, out_of_turns, ◌>>=◌}

pub record SymbolSignal (F : Type 0) : Type 0 where
  pub symbol : Text
  pub score : F
  pub volatility : F

pub record Position (F : Type 0) : Type 0 where
  pub symbol : Text
  pub weight : F

pub record StrategyConfig (F : Type 0) : Type 0 where
  pub conviction_threshold : F
  pub max_positions : ℤ
  pub gross_exposure : F
  pub max_position_weight : F
  pub min_volatility : F

abbrev pub values : {F : Type 0} → Dict Text F → List F
values b = map (λ e. e.1) b

-- As many turns of the loop as there are names, and one.
abbrev pub turns : {F : Type 0} → Dict Text F → ℕ
turns raw = suc (length raw)

module _ {F : Type 0} ⦃d : Double F⦄ where
  abbrev pub is_eligible : StrategyConfig F → SymbolSignal F → Bool
  is_eligible cfg s = le (cfg.conviction_threshold) (s.score) && lt (d.nought) (s.score)

  unfoldable pub filter_by_conviction :
      StrategyConfig F → List (SymbolSignal F) → List (SymbolSignal F)
  filter_by_conviction cfg signals = filter (is_eligible cfg) signals

  -- `(-s.score, s.symbol) < (-t.score, t.symbol)`: the first parts that differ decide.
  abbrev pub ranks_before : SymbolSignal F → SymbolSignal F → Bool
  ranks_before s t =
      if eq (d.neg (s.score)) (d.neg (t.score))
      then text_lt (s.symbol) (t.symbol)
      else lt (d.neg (s.score)) (d.neg (t.score))

  abbrev pub rank_insert : SymbolSignal F → List (SymbolSignal F) → List (SymbolSignal F)
  rank_insert s [] = s ∷ []
  rank_insert s (t ∷ ts) = if ranks_before t s then t ∷ rank_insert s ts else s ∷ t ∷ ts

  abbrev pub ranked : List (SymbolSignal F) → List (SymbolSignal F)
  ranked [] = []
  ranked (s ∷ ts) = rank_insert s (ranked ts)

  unfoldable pub select_picks : StrategyConfig F → List (SymbolSignal F) → List (SymbolSignal F)
  select_picks cfg signals = take (pos_part (cfg.max_positions)) (ranked signals)

  -- `1.0 / max(s.volatility, cfg.min_volatility)`
  abbrev pub inverse_vol : StrategyConfig F → SymbolSignal F → Option F
  inverse_vol cfg s =
      let v = fmax (s.volatility) (cfg.min_volatility) in
      if eq v (d.nought) then none else some (d.div (d.one) v)

  -- The dict `raw`, from the left; `none` is the `ZeroDivisionError`.
  unfoldable pub raw_weights :
      StrategyConfig F → List (SymbolSignal F) → Dict Text F → Option (Dict Text F)
  raw_weights cfg [] raw = some raw
  raw_weights cfg (s ∷ ss) raw = elim (inverse_vol cfg s) [
    | none ↦ none
    | some w ↦ raw_weights cfg ss (insert (s.symbol) w raw)
  ]

  -- `rem_budget * (w / rem_total)`
  abbrev pub alloc : (rem_budget rem_total : F) → F → F
  alloc rem_budget rem_total w = d.mul rem_budget (d.div w rem_total)

  -- `alloc > cap + 1e-12`
  abbrev pub overflows : (limit rem_budget rem_total : F) → Text × F → Bool
  overflows limit rem_budget rem_total e =
      lt (d.add limit (d.lit 1 1_000_000_000_000)) (alloc rem_budget rem_total (e.1))

  abbrev pub newly_capped : (limit rem_budget rem_total : F) → Dict Text F → Dict Text F
  newly_capped limit b t remaining =
      map (λ e. (e.0, limit)) (filter (overflows limit b t) remaining)

  abbrev pub uncapped : (limit rem_budget rem_total : F) → Dict Text F → Dict Text F
  uncapped limit b t remaining = filter (λ e. not (overflows limit b t e)) remaining

  abbrev pub proportional : (rem_budget rem_total : F) → Dict Text F → Dict Text F
  proportional b t remaining = map (λ e. (e.0, alloc b t (e.1))) remaining

  -- The `while` loop, with at most so many turns; `none` is running out of them.
  unfoldable pub allocate :
      ℕ → (limit budget : F) → (capped remaining : Dict Text F) → Option (Dict Text F)
  allocate zero limit budget capped remaining = none
  allocate (suc turns) limit budget capped [] = some capped
  allocate (suc turns) limit budget capped (e ∷ more) =
      let remaining = e ∷ more in
      let rem_total = sum (values remaining) in
      let rem_budget = d.sub budget (sum (values capped)) in
      let newly = newly_capped limit rem_budget rem_total remaining in
      let rest =
        allocate turns limit budget (update capped newly)
          (uncapped limit rem_budget rem_total remaining) in
      if le rem_budget (d.nought) || le rem_total (d.nought) then some capped else elim newly [
        | [] ↦ some (update capped (proportional rem_budget rem_total remaining))
        | _ ∷ _ ↦ rest
      ]

  -- `Position(s.symbol, capped.get(s.symbol, 0.0))`
  abbrev pub position_of : Dict Text F → SymbolSignal F → Position F
  position_of weights s = record {
    symbol = s.symbol;
    weight = or_default (lookup (s.symbol) weights) (d.nought);
  }

  -- The positions of the picks under their weights; those of no weight are dropped.
  abbrev pub positions : List (SymbolSignal F) → Dict Text F → List (Position F)
  positions picks weights = filter (λ p. lt (d.nought) (p.weight)) (map (position_of weights) picks)

  -- The picks, with their raw weights.
  unfoldable pub size_picks :
      StrategyConfig F → List (SymbolSignal F) → Dict Text F → Result (List (Position F))
  size_picks cfg picks raw = if le (sum (values raw)) (d.nought) then ok [] else (do
    weights ←
        or_error (allocate (turns raw) (cfg.max_position_weight) (cfg.gross_exposure) [] raw)
          out_of_turns
    ok (positions picks weights))

  unfoldable pub inverse_vol_weights :
      StrategyConfig F → List (SymbolSignal F) → Result (List (Position F))
  inverse_vol_weights cfg [] = ok []
  inverse_vol_weights cfg (s ∷ ss) = do
    raw ← or_error (raw_weights cfg (s ∷ ss) []) zero_division
    size_picks cfg (s ∷ ss) raw

  -- `decide`, with the configuration given
  unfoldable pub decide : StrategyConfig F → List (SymbolSignal F) → Result (List (Position F))
  decide cfg signals = inverse_vol_weights cfg (select_picks cfg (filter_by_conviction cfg signals))
