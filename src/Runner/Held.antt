-- ===== src/Runner/Held.antt =====
-- core/paper_runner.py: what the runner holds after a step.
use keel_trader.Base.{
  ◌≡◌, ◌∙◌, refl, sym, ap, not, ◌&&◌, Option, none, some, List, [], ◌∷◌, map, any, arith,
  if◌then◌else◌, is_some, same,
}
use keel_trader.Base.Dict.{
  Dict, lookup, contains, lookup-insert, lookup-erase, IsDict, update-IsDict,
}
use keel_trader.Base.Text.{Text, text_eq, text_beq_iff}
use keel_trader.Double.{Double}
use keel_trader.Outcome.{ok}
use keel_trader.Strategy.{SymbolSignal, Position, StrategyConfig, decide}
use keel_trader.Runner.{
  Desk, DeskAction, each, keys, exit_one, enter_one, rebalance, targets_of, step,
}

module _ {F : Type 0} where
  any-keys : (s : Text) (b : Dict Text F) → any (same s) (keys b) ≡ contains s b
  any-keys s [] = refl
  any-keys s ((k, v) ∷ b) = ground (arith, any-keys s b)

  each-ok :
      {A : Type 0} (act : A → DeskAction F) (a : A) (rest : List A) (k : Desk F)
      → (each act (a ∷ rest) k).0 ≡ ok tt
      → ((act a k).0 ≡ ok tt) × (each act (a ∷ rest) k ≡ each act rest ((act a k).1))
  each-ok act a rest k h = ground arith

module _ {F : Type 0} ⦃d : Double F⦄ (prices : Text → Option F) (s : Text) where
  exit_one-held :
      (targets : Dict Text F) (name : Text) (k : Desk F)
      → (exit_one prices targets name k).0 ≡ ok tt
      → lookup s ((exit_one prices targets name k).1.held) ≡ (
          if same s name && is_some (prices s) && not (contains s targets)
          then none
          else lookup s (k.held))
  unfolding exit_one
  exit_one-held targets name k h = ground (arith, text_beq_iff s name, lookup-erase name s (k.held))

  enter_one-held :
      (name : Text) (weight : F) (k : Desk F)
      → (enter_one prices (name, weight) k).0 ≡ ok tt
      → lookup s ((enter_one prices (name, weight) k).1.held)
        ≡ (if same s name && is_some (prices s) then some weight else lookup s (k.held))
  unfolding enter_one
  enter_one-held name weight k h =
      ground (arith, text_beq_iff s name, lookup-insert name s weight (k.held))

  exits-held :
      (targets : Dict Text F) (names : List Text) (k : Desk F)
      → (each (exit_one prices targets) names k).0 ≡ ok tt
      → lookup s ((each (exit_one prices targets) names k).1.held) ≡ (
          if any (same s) names && is_some (prices s) && not (contains s targets)
          then none
          else lookup s (k.held))
  exits-held targets [] k h = refl
  exits-held targets (name ∷ names) k h =
      let (first, e) = each-ok (exit_one prices targets) name names k h in
      let k' = (exit_one prices targets name k).1 in
      ap (λ r. lookup s (r.1.held)) e
      ∙ ground (
        arith,
        exit_one-held targets name k first,
        exits-held targets names k' (sym (ap (λ r. r.0) e) ∙ h),
      )

  enters-held :
      (targets : Dict Text F) (k : Desk F)
      → IsDict targets
      → (each (enter_one prices) targets k).0 ≡ ok tt
      → lookup s ((each (enter_one prices) targets k).1.held)
        ≡ (if contains s targets && is_some (prices s) then lookup s targets else lookup s (k.held))
  enters-held [] k dist h = refl
  enters-held ((name, weight) ∷ rest) k (fresh, dist) h =
      let (first, e) = each-ok (enter_one prices) (name, weight) rest k h in
      let k' = (enter_one prices (name, weight) k).1 in
      ap (λ r. lookup s (r.1.held)) e
      ∙ ground (
        arith,
        text_beq_iff s name,
        enter_one-held name weight k first,
        enters-held rest k' dist (sym (ap (λ r. r.0) e) ∙ h),
      )

  rebalance-held :
      (targets : Dict Text F) (k : Desk F)
      → IsDict targets
      → (rebalance prices targets k).0 ≡ ok tt
      → lookup s ((rebalance prices targets k).1.held)
        ≡ (if is_some (prices s) then lookup s targets else lookup s (k.held))
  unfolding rebalance
  rebalance-held targets k dist h =
      let k' = (each (exit_one prices targets) (keys (k.held)) k).1 in
      ground (
        arith,
        any-keys s (k.held),
        exits-held targets (keys (k.held)) k,
        enters-held targets k' dist,
      )

  -- When a step of the paper runner returns, it holds just the targets of the strategy's decision
  -- wherever there is a price: every target is held at its new weight, and nothing else is. A
  -- symbol without a price stays as it was.
  pub step-held :
      (cfg : StrategyConfig F) (signals : List (SymbolSignal F)) (k : Desk F)
      {ps : List (Position F)}
      → decide cfg signals ≡ ok ps
      → (step prices cfg signals k).0 ≡ ok tt
      → lookup s ((step prices cfg signals k).1.held)
        ≡ (if is_some (prices s) then lookup s (targets_of ps) else lookup s (k.held))
  unfolding step
  step-held cfg signals k {ps = ps} e h =
      let dist = update-IsDict [] (map (λ p. (p.symbol, p.weight)) ps) tt in
      let rebalanced : step prices cfg signals k ≡ rebalance prices (targets_of ps) k =
        rw (e, step) in
      ap (λ r. lookup s (r.1.held)) rebalanced
      ∙ rebalance-held (targets_of ps) k dist (sym (ap (λ r. r.0) rebalanced) ∙ h)
