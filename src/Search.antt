-- ===== src/Search.antt =====
-- research/autoresearch.py: trials of configurations over the gate, and their ranking. The policy of
-- a configuration run in the simulator is a parameter (`windows`), as are the random draws. The
-- rows of the leaderboard have the configuration in place of its name and its `params`; the date, the commit and the machine,
-- which no decision reads, are left out, and so are the names' suffixes as text: a suffix is the
-- list of the overrides.
pub mod Grid
pub mod Ranking
use keel_trader.Base.{
  ℕ, Bool, true, false, Option, none, some, List, [], ◌∷◌, ◌++◌, map, if◌then◌else◌, or_default,
}
use keel_trader.Base.Int.{ℤ, pos}
use keel_trader.Base.Text.{Text, codes}
use keel_trader.Double.{Double, fmax}
use keel_trader.Double.Rank.{rank_by}
use keel_trader.Outcome.{Result, ok, err}
use keel_trader.Strategy.{StrategyConfig}
use keel_trader.Gate.{GateConfig, Verdict, RunWindow, evaluate}
use keel_trader.Gate.Offsets.{RandInt, generate_offsets}

-- The keys of a grid, with the kind of their values.
pub data Override (F : Type 0) : Type 0 where
  conviction_threshold gross_exposure max_position_weight : F → Override F
  max_positions : ℤ → Override F

pub record TrialConfig (F : Type 0) : Type 0 where
  pub name : Text
  pub suffix : List (Override F)
  pub conviction_threshold : F
  pub gross_exposure : F
  pub max_position_weight : F
  pub max_positions : ℤ

pub record TrialResult (F : Type 0) : Type 0 where
  pub config : TrialConfig F
  pub seed : ℕ
  pub train_median_monthly : F
  pub test_median_monthly : F
  pub generalization_score : F
  pub gate_promoted : Bool
  pub promoted : Bool

-- A row of the file: the numbers are texts.
pub record LeaderboardRow (F : Type 0) : Type 0 where
  pub config : TrialConfig F
  pub seed : ℕ
  pub train_median_monthly : Text
  pub test_median_monthly : Text
  pub generalization_score : Text
  pub gate_promoted : Bool
  pub promoted : Bool

-- The file of the leaderboard: not there, or its rows below the header.
abbrev pub Leaderboard : Type 0 → Type 0
Leaderboard F = Option (List (LeaderboardRow F))

-- `itertools.product`: the last choice varies fastest.
abbrev pub each_choice : {A : Type 0} → List A → List (List A) → List (List A)
each_choice [] rest = []
each_choice (c ∷ cs) rest = map (λ r. c ∷ r) rest ++ each_choice cs rest

abbrev pub product : {A : Type 0} → List (List A) → List (List A)
product [] = [] ∷ []
product (choices ∷ more) = each_choice choices (product more)

module _ {F : Type 0} where
  -- One override of a configuration, as `overrides.get(key, preset.key)` has it.
  abbrev pub override : TrialConfig F → Override F → TrialConfig F
  override c (conviction_threshold x) = record c { conviction_threshold = x }
  override c (gross_exposure x) = record c { gross_exposure = x }
  override c (max_position_weight x) = record c { max_position_weight = x }
  override c (max_positions n) = record c { max_positions = n }

  abbrev pub override_all : TrialConfig F → List (Override F) → TrialConfig F
  override_all c [] = c
  override_all c (o ∷ os) = override_all (override c o) os

  -- The configuration of a preset and a combination.
  abbrev pub mutant : TrialConfig F → List (Override F) → TrialConfig F
  mutant preset combo = record (override_all preset combo) { name = preset.name; suffix = combo }

  abbrev pub mutants : List (List (Override F)) → List (TrialConfig F) → List (TrialConfig F)
  mutants combos [] = []
  mutants combos (preset ∷ presets) = map (mutant preset) combos ++ mutants combos presets

  -- `mutation_grid`; the values under each key of the grid are a list of overrides.
  unfoldable pub mutation_grid :
      List (TrialConfig F) → List (List (Override F)) → List (TrialConfig F)
  mutation_grid presets [] = presets
  mutation_grid presets (g ∷ grid) = mutants (product (g ∷ grid)) presets

module _ {F : Type 0} ⦃d : Double F⦄ where
  -- `TrialConfig.to_strategy`, with the default floor of volatilities
  abbrev pub to_strategy : TrialConfig F → StrategyConfig F
  to_strategy c = record {
    conviction_threshold = c.conviction_threshold;
    max_positions = c.max_positions;
    gross_exposure = c.gross_exposure;
    max_position_weight = c.max_position_weight;
    min_volatility = d.lit 1 10_000;
  }

  -- A configuration with the defaults of `TrialConfig`.
  abbrev pub trial : Text → TrialConfig F
  trial name = record {
    name = name;
    suffix = [];
    conviction_threshold = d.nought;
    gross_exposure = d.one;
    max_position_weight = d.lit 34 100;
    max_positions = pos 5;
  }

  abbrev pub preset_pool : List (TrialConfig F)
  preset_pool =
      trial (codes "baseline")
      ∷ record (trial (codes "selective")) {
        conviction_threshold = d.lit 2 1000;
        gross_exposure = d.lit 8 10;
      }
      ∷ record (trial (codes "concentrated")) {
        max_position_weight = d.lit 5 10;
        max_positions = pos 2;
      }
      ∷ []

  unfoldable pub generalization_score : (train_score test_score overfit_penalty : F) → F
  generalization_score train_score test_score overfit_penalty =
      let overfit_gap = fmax (d.nought) (d.sub train_score test_score) in
      d.sub test_score (d.mul overfit_penalty overfit_gap)

  module _ (gate : GateConfig F) (randint : RandInt) (num_timesteps : ℕ)
      (windows : StrategyConfig F → RunWindow F) (seed : ℕ) (train_frac overfit_penalty : F) where
    -- The verdict on the train split, where there is no early exit, and on the test split.
    abbrev pub train_verdict : TrialConfig F → Result (Verdict F)
    train_verdict c =
        elim (generate_offsets randint num_timesteps (gate.n_windows) (gate.window_steps) (d.nought)
            train_frac)
          as (λ _. Result (Verdict F)) [
            | err e ↦ err e
            | ok offs ↦
                ok (evaluate (record gate { fail_fast = false }) (windows (to_strategy c)) offs)
          ]

    abbrev pub test_verdict : TrialConfig F → Result (Verdict F)
    test_verdict c =
        elim (generate_offsets randint num_timesteps (gate.n_windows) (gate.window_steps) train_frac
            (d.one))
          as (λ _. Result (Verdict F)) [
            | err e ↦ err e
            | ok offs ↦ ok (evaluate gate (windows (to_strategy c)) offs)
          ]

    abbrev pub result_of : TrialConfig F → Verdict F → Verdict F → TrialResult F
    result_of c train_v test_v = record {
      config = c;
      seed = seed;
      train_median_monthly = train_v.worst_cell_median_monthly;
      test_median_monthly = test_v.worst_cell_median_monthly;
      generalization_score =
          generalization_score (train_v.worst_cell_median_monthly)
            (test_v.worst_cell_median_monthly) overfit_penalty;
      gate_promoted = test_v.promote;
      promoted = test_v.promote;
    }

    unfoldable pub run_trial : TrialConfig F → Result (TrialResult F)
    run_trial c = elim (train_verdict c) as (λ _. Result (TrialResult F)) [
      | err e ↦ err e
      | ok train_v ↦ elim (test_verdict c) as (λ _. Result (TrialResult F)) [
        | err e ↦ err e
        | ok test_v ↦ ok (result_of c train_v test_v)
      ]
    ]

    -- The trials of `run_autoresearch`, one after another.
    unfoldable pub run_trials : List (TrialConfig F) → Result (List (TrialResult F))
    run_trials [] = ok []
    run_trials (c ∷ cs) = elim (run_trial c) as (λ _. Result (List (TrialResult F))) [
      | err e ↦ err e
      | ok r ↦ elim (run_trials cs) as (λ _. Result (List (TrialResult F))) [
        | err e ↦ err e
        | ok rs ↦ ok (r ∷ rs)
      ]
    ]

  -- The row of a result; `six_decimals` is what Python's format `.6f` gives for a number.
  abbrev pub leaderboard_row : (six_decimals : F → Text) → TrialResult F → LeaderboardRow F
  leaderboard_row six_decimals r = record {
    config = r.config;
    seed = r.seed;
    train_median_monthly = six_decimals (r.train_median_monthly);
    test_median_monthly = six_decimals (r.test_median_monthly);
    generalization_score = six_decimals (r.generalization_score);
    gate_promoted = r.gate_promoted;
    promoted = r.promoted;
  }

  abbrev pub append_to_leaderboard :
      (six_decimals : F → Text) → List (TrialResult F) → Leaderboard F → Leaderboard F
  append_to_leaderboard six_decimals results board =
      some (or_default board [] ++ map (leaderboard_row six_decimals) results)

  -- `results.sort(key=…, reverse=True)`: the greatest score first, equal ones in their order.
  abbrev pub score_sort : List (TrialResult F) → List (TrialResult F)
  score_sort results = rank_by (λ r. r.generalization_score) results

  -- `run_autoresearch`, with its trials
  unfoldable pub run_autoresearch :
      (six_decimals : F → Text)
      → (List (TrialConfig F) → Result (List (TrialResult F)))
      → List (TrialConfig F)
      → Leaderboard F
      → Result (List (TrialResult F)) × Leaderboard F
  run_autoresearch six_decimals trials configs board = elim (trials configs) [
    | err e ↦ (err e, board)
    | ok results ↦ (ok (score_sort results), append_to_leaderboard six_decimals results board)
  ]
