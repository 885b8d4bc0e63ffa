-- ===== src/Tests/Studies.antt =====
-- A search over one preset, the windows of the gate, and the features of a short series.
use keel_trader.Base.{
  ℕ, ◌+◌, ◌≡◌, refl, Bool, true, none, some, List, [], ◌∷◌, ◌++◌, map, All, arith, count, length,
  leb, or_default,
}
use keel_trader.Base.Int.{pos}
use keel_trader.Base.Text.{codes}
use keel_trader.Base.Text.{Text}
use keel_trader.Double.Fixed.{Fixed, num, fixed_double}
use keel_trader.Outcome.{Result, ok, err}
use keel_trader.Gate.{RunWindow, evaluate, judge, gate_loop, run_cell, cell_loop, windows_needed_ge}
use keel_trader.Gate.Median.{median}
use keel_trader.Gate.Offsets.{RandInt, Fits, generate_offsets, generate_offsets-Fits}
use keel_trader.Gate.Window.{Engine}
use keel_trader.Strategy.{StrategyConfig}
use keel_trader.Search.{
  TrialConfig, TrialResult, Override, gross_exposure, conviction_threshold, run_trials, run_trial,
  run_autoresearch, generalization_score, leaderboard_row,
}
use keel_trader.Search.Ranking.{IsJudged, IsRanked, run_autoresearch-IsRanked}
use keel_trader.Technical.{technical_features}
use keel_trader.Tests.Judges.{config, window}
use keel_trader.Tests.Samples.{whole}

-- Draws that are always the lower end.
abbrev pub lowest : RandInt
lowest draw lo hi = lo

abbrev drawn : List ℕ
drawn = 50 ∷ 50 ∷ []

drawn_lem : generate_offsets lowest 101 2 0 (num (pos 50_000_000)) (whole 1) ≡ ok drawn
unfolding generate_offsets
drawn_lem = refl

generate_offsets-Fits_example : All (Fits 101 0) drawn × (length drawn ≡ 2)
generate_offsets-Fits_example =
    generate_offsets-Fits lowest 101 2 0 (num (pos 50_000_000)) (whole 1)
      (λ draw lo hi h. (omega arith, omega (arith, h))) drawn_lem

-- An engine that counts its steps and ends after three.
abbrev engine : Engine Fixed
engine = record {
  State = ℕ;
  Obs = Unit;
  Act = Unit;
  reset = λ offset steps slip. (tt, 0);
  advance = λ act s. ((tt, leb 2 s), s + 1);
  log = λ s. record { total_return = whole s; max_drawdown = whole 0; num_trades = whole 0 };
}

abbrev preset : TrialConfig Fixed
preset = record {
  name = codes "baseline";
  suffix = [];
  conviction_threshold = whole 0;
  gross_exposure = whole 1;
  max_position_weight = whole 1;
  max_positions = pos 5;
}

abbrev grid : List (List (Override Fixed))
grid =
    (conviction_threshold (whole 0) ∷ conviction_threshold (whole 1) ∷ [])
    ∷ (gross_exposure (whole 1) ∷ [])
    ∷ []

abbrev windows : StrategyConfig Fixed → RunWindow Fixed
windows c = window

abbrev trials : List (TrialConfig Fixed) → Result (List (TrialResult Fixed))
trials = run_trials config lowest 200 windows 0 (num (pos 50_000_000)) (whole 1)

abbrev tried : TrialResult Fixed
tried = record {
  config = preset;
  seed = 0;
  train_median_monthly = whole 3;
  test_median_monthly = whole 90;
  generalization_score = whole 90;
  gate_promoted = true;
  promoted = true;
}

-- A text for every number.
abbrev decimals : Fixed → Text
decimals x = []

tried_lem : (run_autoresearch decimals trials (preset ∷ []) none).0 ≡ ok (tried ∷ [])
unfolding run_autoresearch run_trials run_trial generate_offsets generalization_score evaluate judge
    gate_loop run_cell cell_loop windows_needed_ge median
tried_lem = refl

run_autoresearch-IsRanked_example :
    (results : List (TrialResult Fixed)) × (map (λ r. r.config) results ≡ preset ∷ [])
    × All (IsJudged config lowest 200 windows 0 (num (pos 50_000_000)) (whole 1)) results
    × ((run_autoresearch decimals trials (preset ∷ []) none).1
        ≡ some (or_default none [] ++ map (leaderboard_row decimals) results))
    × IsRanked (tried ∷ [])
    × ((p : TrialResult Fixed → Bool) → count p (tried ∷ []) ≡ count p results)
run_autoresearch-IsRanked_example =
    run_autoresearch-IsRanked config lowest 200 windows 0 (num (pos 50_000_000)) (whole 1) decimals
      (preset ∷ []) none tried_lem

abbrev bars : List Fixed
bars = whole 100 ∷ whole 101 ∷ []

abbrev next_bar : List Fixed
next_bar = whole 99 ∷ []

abbrev rows : List Fixed → List (List Fixed)
rows series = elim (technical_features series series series series) [ ok r ↦ r | err e ↦ [] ]
