-- ===== src/Tests/Actions.antt =====
-- Policies on the observation of two symbols, and the searches over the gate of the samples.
use keel_trader.Base.{range, ℕ, ◌≡◌, refl, ◌⊎◌, true, none, List, [], ◌∷◌, arith, AllPairs}
use keel_trader.Base.Int.{pos, negsuc}
use keel_trader.Base.Decimal.{decimal, read_decimal}
use keel_trader.Base.Text.{codes}
use keel_trader.Double.Defs.{sum}
use keel_trader.Double.Fixed.{Fixed, num, fixed_double}
use keel_trader.Outcome.{Result, ok, err}
use keel_trader.Gate.Offsets.{generate_offsets}
use keel_trader.Gate.{evaluate, judge, gate_loop, run_cell, cell_loop}
use keel_trader.Gate.Median.{median}
use keel_trader.Features.{index_from}
use keel_trader.Strategy.{
  decide, inverse_vol_weights, raw_weights, size_picks, allocate, select_picks,
  filter_by_conviction,
}
use keel_trader.Policies.{
  Policy, ScoreFn, score_fn, symbol_features, strategy_policy, make_xsvol_policy, rank_trade,
}
use keel_trader.Policies.Champion.{IsConvinced, strategy_policy-IsConvinced}
use keel_trader.Experiment.{
  Market, Costs, SearchResult, config_with, walk_policy, walk_forward, fold_median, judge_split,
  run, run_candidate,
}
use keel_trader.Experiment.Judged.{IsFold, walk_forward-IsFold}
use keel_trader.Tests.Samples.{whole}
use keel_trader.Tests.Studies.{lowest}
use keel_trader.Tests.Judges.{config, window}

-- Two symbols of two features, the second of which is the volatility; a rising and a falling one.
abbrev obs : List Fixed
obs = whole 3 ∷ whole 1 ∷ num (negsuc 499_999_999) ∷ whole 2 ∷ []

abbrev signal : ScoreFn Fixed
signal = score_fn 0 (pos 1)

long_first : strategy_policy signal 2 2 1 (config_with 1 (whole 1) (whole 1)) obs 5 ≡ ok 1
unfolding strategy_policy score_fn decimal read_decimal decide inverse_vol_weights raw_weights
    size_picks allocate select_picks filter_by_conviction sum
long_first = refl

strategy_policy-IsConvinced_example :
    (◌≡◌ {A = ℕ} 1 0)
    ⊎ IsConvinced (λ s. signal (symbol_features obs s 2)) (config_with 1 (whole 1) (whole 1)) 2 5 1
strategy_policy-IsConvinced_example =
    strategy_policy-IsConvinced signal 2 2 1 5 (config_with 1 (whole 1) (whole 1)) obs long_first

ranks : make_xsvol_policy 1 2 2 obs 5 ≡ ok 4
unfolding make_xsvol_policy rank_trade sum
ranks = refl

abbrev md : Market
md = record { num_timesteps = 101; num_symbols = 2; features_per_sym = 2 }

abbrev costs : Costs Fixed
costs = record { fee_rate = none; max_hold_hours = none }

abbrev value_of : {A : Type 0} → A → Result A → A
value_of a (ok b) = b
value_of a (err e) = a

abbrev medians : List Fixed
unfolding walk_forward
medians =
    value_of []
      (walk_forward lowest (λ c p. window) md config costs (whole 5) true (codes "") (pos 1) 2)

walked :
    walk_forward lowest (λ c p. window) md config costs (whole 5) true (codes "") (pos 1) 2
    ≡ ok medians
unfolding walk_forward fold_median judge_split generate_offsets evaluate judge gate_loop run_cell
    cell_loop median index_from
walked = refl

abbrev found : List (SearchResult Fixed)
unfolding run
found =
    value_of []
      (run lowest (λ c p. window) md config costs none true (num (pos 50_000_000)) (whole 1))

searched :
    run lowest (λ c p. window) md config costs none true (num (pos 50_000_000)) (whole 1) ≡ ok found
unfolding run run_candidate judge_split generate_offsets evaluate judge gate_loop run_cell cell_loop
    median index_from
searched = refl

walk_forward-IsFold_example :
    (policy : Policy Fixed) × (walk_policy md true (codes "") (pos 1) ≡ ok policy)
    × AllPairs (IsFold lowest (λ c p. window) md config costs (whole 5) policy 2) (range 2) medians
walk_forward-IsFold_example =
    walk_forward-IsFold lowest (λ c p. window) md config costs (whole 5) true (codes "") (pos 1) 2
      (λ draw lo hi h. (omega arith, omega (arith, h))) walked
