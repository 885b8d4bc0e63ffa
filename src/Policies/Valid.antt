-- ===== src/Policies/Valid.antt =====
-- The policies of the search: their actions in the environment.
use keel_trader.Base.{
  range, ℕ, ◌+◌, ◌*◌, ◌<◌, Option, none, some, List, [], ◌∷◌, arith, ◌≡◌, inl, inr,
}
use keel_trader.Double.{Double}
use keel_trader.Outcome.{at, Result, ok, Result-cases, each}
use keel_trader.Strategy.{StrategyConfig}
use keel_trader.Policies.{
  Policy, ScoreFn, in_range, symbol_features, direction, rank_trade, strongest, strategy_policy,
  make_long_short_policy, make_xsvol_policy,
}
use keel_trader.Policies.Champion.{strategy_policy-IsConvinced}

in_range-lt : (a n : ℕ) → 0 < n → in_range a n < n
in_range-lt a n h = ground arith

module _ {F : Type 0} ⦃d : Double F⦄ where
  -- Each action that the policy gives is one of the environment, if that has any.
  abbrev pub IsValid : Policy F → Type 0
  IsValid policy =
      (obs : List F) (num_actions a : ℕ)
      → 0 < num_actions
      → policy obs num_actions ≡ ok a
      → a < num_actions

  direction-lt :
      (n num_actions : ℕ) (best : Option ℕ × F)
      → 0 < num_actions
      → direction n num_actions best < num_actions
  direction-lt n num_actions (none, v) h = h
  direction-lt n num_actions (some s, v) h =
      ground (arith, in_range-lt (1 + s) num_actions h, in_range-lt (1 + n + s) num_actions h)

  long_short-IsValid :
      (score : ScoreFn F) (n per : ℕ) → IsValid (make_long_short_policy score n per)
  unfolding make_long_short_policy
  long_short-IsValid score n per obs num_actions a h e =
      let sc : ℕ → Result F = λ s. score (symbol_features obs s per) in
      elim (Result-cases (strongest sc none (d.nought) (range n))) [
        | inl (_, f) ↦ ground arith
        | inr (best, f) ↦ ground (arith, direction-lt n num_actions best h)
      ]

  rank_trade-lt :
      (n : ℕ) (vols : List F) (num_actions a : ℕ)
      → 0 < num_actions
      → rank_trade n vols num_actions ≡ ok a
      → a < num_actions
  unfolding rank_trade
  rank_trade-lt n [] num_actions a h e = ground arith
  rank_trade-lt n (v ∷ vs) num_actions a h e = ground arith

  xsvol-IsValid : (vol_idx n per : ℕ) → IsValid (make_xsvol_policy vol_idx n per)
  unfolding make_xsvol_policy
  xsvol-IsValid vol_idx n per obs num_actions a h e =
      elim (Result-cases (each (λ s. at obs (s * per + vol_idx)) (range n))) [
        | inl (_, f) ↦ ground arith
        | inr (vols, f) ↦ rank_trade-lt n vols num_actions a h (ground arith)
      ]

  strategy-IsValid :
      (score : ScoreFn F) (n per vol_idx : ℕ) (cfg : StrategyConfig F)
      → IsValid (strategy_policy score n per vol_idx cfg)
  strategy-IsValid score n per vol_idx cfg obs num_actions a h e =
      elim (strategy_policy-IsConvinced score n per vol_idx num_actions cfg obs e) [
        | inl z ↦ omega (arith, h, z)
        | inr (s, x, _, _, bound, _, _, _) ↦ bound
      ]

  -- Whatever the score, the sizes and the observation are, each action that the three policies of the
  -- search give is one of the environment, if that has any: the policy of the strategy, the one
  -- that goes long or short, and the one that trades the ranks of the volatilities.
  pub policies-IsValid :
      (score : ScoreFn F) (n_symbols features_per_sym vol_idx : ℕ) (cfg : StrategyConfig F)
      → IsValid (strategy_policy score n_symbols features_per_sym vol_idx cfg)
        × IsValid (make_long_short_policy score n_symbols features_per_sym)
        × IsValid (make_xsvol_policy vol_idx n_symbols features_per_sym)
  policies-IsValid score n per vol_idx cfg = (
    strategy-IsValid score n per vol_idx cfg,
    long_short-IsValid score n per,
    xsvol-IsValid vol_idx n per,
  )
