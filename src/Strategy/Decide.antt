-- ===== src/Strategy/Decide.antt =====
-- models/xgb/strategy.py: the whole decision.
use mathlib.Core.Path.{subst}
use keel_trader.Base.{
  ◌≡◌, ◌∙◌, sym, ◌≤◌, refl, true, false, ◌&&◌, List, [], ◌∷◌, any, length, All, All-map, arith,
  Bool-cases, Option-cases, inl, inr, same, is_some, is_some-eq,
}
use keel_trader.Base.Int.{pos_part}
use keel_trader.Base.Dict.{Dict, insert}
use keel_trader.Base.Text.{Text, text_eq}
use keel_trader.Double.{Double, le, lt, eq, fmax, sum}
use keel_trader.Double.Order.{IsOrdered}
use keel_trader.Outcome.{ok, ok-injective}
use keel_trader.Strategy.{
  SymbolSignal, Position, StrategyConfig, is_eligible, filter_by_conviction, select_picks,
  raw_weights, size_picks, inverse_vol_weights, decide, allocate, values, turns, positions,
}
use keel_trader.Strategy.Sizing.{IsCapped, allocate_ends, allocate-AllCapped}
use keel_trader.Strategy.Picks.{
  IsSized, positions-IsSized, length-positions, length-select_picks, select_picks-eligible,
}

module _ {F : Type 0} ⦃d : Double F⦄ where
  -- The sizing ends, and its positions are within their bounds.
  size_picks-IsSized :
      (cfg : StrategyConfig F) (picks : List (SymbolSignal F)) (raw : Dict Text F)
      → (ps : List (Position F)) × (size_picks cfg picks raw ≡ ok ps)
        × All (IsSized (cfg.max_position_weight) picks) ps
        × (length ps ≤ length picks)
  unfolding size_picks
  size_picks-IsSized cfg picks raw =
      let limit = cfg.max_position_weight in
      let (weights, e) =
        is_some-eq (allocate (turns raw) limit (cfg.gross_exposure) [] raw)
          (allocate_ends (turns raw) limit (cfg.gross_exposure) [] raw (omega arith)) in
      let kept =
        allocate-AllCapped (turns raw) limit (cfg.gross_exposure) [] raw (λ k v f. ground arith)
          e in
      elim (Bool-cases (le (sum (values raw)) (d.nought))) [
        | inl b ↦ ([], rw b refl, tt, omega arith)
        | inr b ↦ (
          positions picks weights,
          rw b (rw e refl),
          positions-IsSized limit weights picks kept,
          length-positions picks weights,
        )
      ]

  -- A position is sized within its bounds for a symbol that some signal recommends.
  abbrev pub IsDecided : StrategyConfig F → List (SymbolSignal F) → Position F → Type 0
  IsDecided cfg signals p =
      (lt (d.nought) (p.weight) ≡ true)
      × IsCapped (cfg.max_position_weight) (p.weight)
      × (any (λ s. same (s.symbol) (p.symbol) && is_eligible cfg s) signals ≡ true)

  weights-IsSized :
      (cfg : StrategyConfig F) (picks : List (SymbolSignal F)) {ps : List (Position F)}
      → inverse_vol_weights cfg picks ≡ ok ps
      → All (IsSized (cfg.max_position_weight) picks) ps × (length ps ≤ length picks)
  unfolding inverse_vol_weights
  weights-IsSized cfg [] e = ground arith
  weights-IsSized cfg (s ∷ ss) {ps} e = elim (Option-cases (raw_weights cfg (s ∷ ss) [])) [
    | inl f ↦ ground arith
    | inr (raw, f) ↦
        let (qs, g, all, few) = size_picks-IsSized cfg (s ∷ ss) raw in
        let same_ps : qs ≡ ps = ok-injective (sym g ∙ (rw f at e)) in
        subst
          (λ z. All (IsSized (cfg.max_position_weight) (s ∷ ss)) z × (length z ≤ length (s ∷ ss)))
          same_ps (all, few)
  ]

  -- When `decide` returns, there are no more positions than allowed; each has a positive weight,
  -- which is the cap or does not exceed the cap by more than the tolerance of 1e-12; and the symbol
  -- of each is that of a signal with a positive score at the threshold or above.
  pub decide-IsDecided :
      (cfg : StrategyConfig F) (signals : List (SymbolSignal F)) {ps : List (Position F)}
      → decide cfg signals ≡ ok ps
      → All (IsDecided cfg signals) ps × (length ps ≤ pos_part (cfg.max_positions))
  unfolding decide
  decide-IsDecided cfg signals {ps = ps} e =
      let eligible = filter_by_conviction cfg signals in
      let picks = select_picks cfg eligible in
      let (all, few) = weights-IsSized cfg picks e in
      (
        All-map (IsSized (cfg.max_position_weight) picks) (IsDecided cfg signals) ps
            (λ p (pos, capped, among). (
              pos,
              capped,
              select_picks-eligible cfg signals (λ s. same (s.symbol) (p.symbol)) among,
            ))
            all,
        omega (arith, length-select_picks cfg eligible),
      )

module _ {F : Type 0} ⦃d : Double F⦄ (laws : IsOrdered F) where
  ne_nought : (v m : F) → lt (d.nought) m ≡ true → eq (fmax v m) (d.nought) ≡ false
  ne_nought v m h = ground (arith, laws.le_trans v (d.nought) m, laws.le_trans m v (d.nought))

  raw_weights_returns :
      (cfg : StrategyConfig F) (ss : List (SymbolSignal F)) (raw : Dict Text F)
      → lt (d.nought) (cfg.min_volatility) ≡ true
      → is_some (raw_weights cfg ss raw) ≡ true
  unfolding raw_weights
  raw_weights_returns cfg [] raw h = refl
  raw_weights_returns cfg (s ∷ ss) raw h = ground (
    arith,
    ne_nought (s.volatility) (cfg.min_volatility) h,
    raw_weights_returns cfg ss
        (insert (s.symbol) (d.div (d.one) (fmax (s.volatility) (cfg.min_volatility))) raw) h,
  )

  weights_returns :
      (cfg : StrategyConfig F) (picks : List (SymbolSignal F))
      → lt (d.nought) (cfg.min_volatility) ≡ true
      → (ps : List (Position F)) × (inverse_vol_weights cfg picks ≡ ok ps)
  unfolding inverse_vol_weights
  weights_returns cfg [] h = ([], refl)
  weights_returns cfg (s ∷ ss) h = elim (Option-cases (raw_weights cfg (s ∷ ss) [])) [
    | inl f ↦ ground (arith, raw_weights_returns cfg (s ∷ ss) [] h)
    | inr (raw, f) ↦ let (ps, g, _, _) = size_picks-IsSized cfg (s ∷ ss) raw in (ps, rw f g)
  ]

  -- With a positive floor under the volatilities `decide` always returns, whatever the signals, NaN
  -- among them: no division by zero stops it, and its sizing loop ends within the turns
  -- that the model gives it, one more than there are names. Comparing is as IEEE 754 has it.
  pub decide_returns :
      (cfg : StrategyConfig F) (signals : List (SymbolSignal F))
      → lt (d.nought) (cfg.min_volatility) ≡ true
      → (ps : List (Position F)) × (decide cfg signals ≡ ok ps)
  unfolding decide
  decide_returns cfg signals h =
      weights_returns cfg (select_picks cfg (filter_by_conviction cfg signals)) h
