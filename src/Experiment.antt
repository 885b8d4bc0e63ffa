-- ===== src/Experiment.antt =====
-- Policies over the gate: the search for a signal (research/feature_search.py), the walk over
-- consecutive folds (research/walkforward.py) and the backtest of the strategy
-- (models/xgb/backtest.py). The simulator with the data, `windows`, and the random draws are
-- parameters; what is printed and the verdict's JSON are left out.
pub mod Judged
use keel_trader.Base.{
  range, ℕ, zero, suc, ◌+◌, Bool, true, false, Option, none, some, List, [], ◌∷◌, ◌++◌, map,
  flat_map, if◌then◌else◌, or_default,
}
use keel_trader.Base.Int.{ℤ, pos, negsuc}
use keel_trader.Base.Text.{Text, codes}
use keel_trader.Double.{Double}
use keel_trader.Double.Rank.{rank_by}
use keel_trader.Outcome.{Result, ok, err, ◌>>=◌, each}
use keel_trader.Features.{index, feature_spec, names}
use keel_trader.Strategy.{StrategyConfig}
use keel_trader.Gate.{GateConfig, Verdict, RunWindow, evaluate}
use keel_trader.Gate.Offsets.{RandInt, generate_offsets}
use keel_trader.Policies.{
  Policy, ScoreFn, score_fn, baseline_score_fn, make_strategy_policy, make_long_short_policy,
  make_xsvol_policy,
}
use keel_trader.Search.{generalization_score}

-- What is read of the `MarketData`.
pub record Market : Type 0 where
  pub num_timesteps : ℕ
  pub num_symbols : ℕ
  pub features_per_sym : ℕ

-- The settings of the simulator that a caller may override (`env_kw`).
pub record Costs (F : Type 0) : Type 0 where
  pub fee_rate : Option F
  pub max_hold_hours : Option ℕ

pub record SearchResult (F : Type 0) : Type 0 where
  pub feature : Text
  pub sign : ℤ
  pub config_name : Text
  pub train_median_monthly : F
  pub test_median_monthly : F
  pub generalization_score : F
  pub promoted : Bool

-- One turn of the three loops of `run`.
pub record Candidate (F : Type 0) : Type 0 where
  pub feat_idx : ℕ
  pub feature : Text
  pub sign : ℤ
  pub config_name : Text
  pub config : StrategyConfig F

-- `enumerate(xs)`, from a number on
abbrev pub enumerate : {A : Type 0} → ℕ → List A → List (ℕ × A)
enumerate i [] = []
enumerate i (x ∷ xs) = (i, x) ∷ enumerate (i + 1) xs

abbrev pub signs : List ℤ
signs = pos 1 ∷ negsuc 0 ∷ []

module _ {F : Type 0} ⦃d : Double F⦄ where
  -- `StrategyConfig(…)` with its defaults
  abbrev pub config_with : ℕ → (gross_exposure max_position_weight : F) → StrategyConfig F
  config_with max_positions gross_exposure max_position_weight = record {
    conviction_threshold = d.nought;
    max_positions = pos max_positions;
    gross_exposure = gross_exposure;
    max_position_weight = max_position_weight;
    min_volatility = d.lit 1 10_000;
  }

  -- `_configs`
  abbrev pub configs : List (Text × StrategyConfig F)
  configs =
      (codes "top1", config_with 1 (d.one) (d.one))
      ∷ (codes "top2", config_with 2 (d.one) (d.lit 6 10))
      ∷ (codes "top3", config_with 3 (d.one) (d.lit 4 10))
      ∷ (codes "top2_half", config_with 2 (d.lit 5 10) (d.lit 4 10))
      ∷ []

  abbrev pub candidates_of : ℕ × Text → List (Candidate F)
  candidates_of (fi, fname) =
      flat_map
        (λ sign.
          map
            (λ c. record {
              feat_idx = fi;
              feature = fname;
              sign = sign;
              config_name = c.0;
              config = c.1;
            })
            configs)
        signs

  abbrev pub candidates : List (Candidate F)
  candidates = flat_map candidates_of (enumerate 0 (names feature_spec))

  -- The slippages: the one that is given, or those of the gate.
  abbrev pub with_slip : GateConfig F → Option F → GateConfig F
  with_slip gate none = gate
  with_slip gate (some slip_bps) = record gate { slippages_bps = slip_bps ∷ [] }

  -- The policy of a candidate, by the mode.
  abbrev pub policy_of : Market → (long_short : Bool) → Candidate F → Result (Policy F)
  policy_of md true c = ok (
      make_long_short_policy (score_fn (c.feat_idx) (c.sign)) (md.num_symbols)
        (md.features_per_sym))
  policy_of md false c =
      make_strategy_policy (score_fn (c.feat_idx) (c.sign)) (md.num_symbols) (md.features_per_sym)
        (c.config)

  -- The policy of `walk_forward`, by its kind.
  abbrev pub walk_policy : Market → (xsvol : Bool) → Text → ℤ → Result (Policy F)
  walk_policy md true feature sign = do
    vol_idx ← index feature_spec (codes "atr_pct_24h")
    ok (make_xsvol_policy vol_idx (md.num_symbols) (md.features_per_sym))
  walk_policy md false feature sign = do
    fi ← index feature_spec feature
    ok (make_long_short_policy (score_fn fi sign) (md.num_symbols) (md.features_per_sym))

  module _ (randint : RandInt) (windows : Costs F → Policy F → RunWindow F) (md : Market) where
    -- `evaluate` with its offsets
    unfoldable pub judge_split :
        GateConfig F → Costs F → Policy F → (offset_lo_frac offset_hi_frac : F) → Result (Verdict F)
    judge_split gate costs policy lo hi = do
      offs ← generate_offsets randint (md.num_timesteps) (gate.n_windows) (gate.window_steps) lo hi
      ok (evaluate gate (windows costs policy) offs)

    -- `1.5`, the default penalty, stands with the caller: `overfit_penalty`.
    unfoldable pub run_candidate :
        GateConfig F
        → Costs F
        → (long_short : Bool) → (train_frac overfit_penalty : F) → Candidate F
        → Result (SearchResult F)
    run_candidate gate costs long_short train_frac overfit_penalty c = do
      policy ← policy_of md long_short c
      train_v ← judge_split (record gate { fail_fast = false }) costs policy (d.nought) train_frac
      test_v ← judge_split gate costs policy train_frac (d.one)
      ok (record {
        feature = c.feature;
        sign = c.sign;
        config_name = c.config_name;
        train_median_monthly = train_v.worst_cell_median_monthly;
        test_median_monthly = test_v.worst_cell_median_monthly;
        generalization_score =
            generalization_score (train_v.worst_cell_median_monthly)
              (test_v.worst_cell_median_monthly) overfit_penalty;
        promoted = test_v.promote;
      })

    -- `run` of the search for features, without its leaderboard
    unfoldable pub run :
        GateConfig F
        → Costs F
        → (slip_bps : Option F) → (long_short : Bool) → (train_frac overfit_penalty : F)
        → Result (List (SearchResult F))
    run gate costs slip_bps long_short train_frac overfit_penalty = do
      results ←
          each (run_candidate (with_slip gate slip_bps) costs long_short train_frac overfit_penalty)
            candidates
      ok (rank_by (λ r. r.generalization_score) results)

    -- One fold of `walk_forward`: the part `k` of `folds` of the data, over all its windows.
    unfoldable pub fold_median :
        GateConfig F → Costs F → (slip_bps : F) → Policy F → (folds k : ℕ) → Result F
    fold_median gate costs slip_bps policy folds k = do
      v ←
          judge_split (record gate { fail_fast = false; slippages_bps = slip_bps ∷ [] }) costs
            policy (d.lit k folds) (d.lit (k + 1) folds)
      ok (v.worst_cell_median_monthly)

    unfoldable pub walk_forward :
        GateConfig F
        → Costs F
        → (slip_bps : F) → (xsvol : Bool) → Text
        → ℤ
        → (folds : ℕ) → Result (List F)
    walk_forward gate costs slip_bps xsvol feature sign folds = do
      policy ← walk_policy md xsvol feature sign
      each (fold_median gate costs slip_bps policy folds) (range folds)

    -- `run_backtest`; the score of a trained artifact is given, and without one the baseline counts.
    unfoldable pub run_backtest :
        GateConfig F → Costs F → Option (ScoreFn F) → StrategyConfig F → Result (Verdict F)
    run_backtest gate costs artifact cfg = do
      score ← (elim artifact as (λ _. Result (ScoreFn F)) [
        | some score ↦ ok score
        | none ↦ baseline_score_fn
      ])
      policy ← make_strategy_policy score (md.num_symbols) (md.features_per_sym) cfg
      judge_split gate costs policy (d.nought) (d.one)
