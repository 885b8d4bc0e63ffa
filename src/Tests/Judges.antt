-- ===== src/Tests/Judges.antt =====
-- The gate on two windows at two slippages.
use keel_trader.Base.{ℕ, ◌+◌, ◌≡◌, ◌⊎◌, refl, true, false, not, ◌&&◌, List, [], ◌∷◌, any}
use keel_trader.Double.{lt}
use keel_trader.Double.Fixed.{Fixed, fixed_double, Fixed-IsOrdered, Fixed-IsMean}
use keel_trader.Gate.{GateConfig, RunWindow, run_cell, evaluate}
use keel_trader.Gate.FailFast.{full, over, windows, run_cell-Ends}
use keel_trader.Gate.Promote.{too_deep, evaluate-full}
use keel_trader.Tests.Samples.{whole}

abbrev pub config : GateConfig Fixed
config = record {
  n_windows = 2;
  window_steps = 24;
  slippages_bps = whole 0 ∷ whole 5 ∷ [];
  promotion_target = whole 2;
  fail_fast = true;
  fail_fast_max_dd = whole 9;
}

-- Two returns, 3 and 5, whatever the slippage.
abbrev pub window : RunWindow Fixed
window slip off = record {
  offset = off;
  total_return = whole 1;
  monthly_return = whole (3 + off);
  max_drawdown = whole 1;
  num_trades = whole 1;
}

abbrev offsets : List ℕ
offsets = 0 ∷ 2 ∷ []

run_cell-Ends_example :
    let c = run_cell config window offsets (whole 5) in
    let c' = run_cell (full config) window offsets (whole 5) in
    let deep = any (over config) (windows window offsets (whole 5)) in
    ((c ≡ c') × (c'.failed_fast ≡ false) × (deep ≡ false))
    ⊎ ((c.failed_fast ≡ true) × (c'.failed_fast ≡ false) × (deep ≡ true))
    ⊎ ((c.failed_fast ≡ true)
        × (c'.failed_fast ≡ false)
        × (lt (c'.median_monthly) (config.promotion_target) ≡ true))
run_cell-Ends_example =
    run_cell-Ends Fixed-IsOrdered Fixed-IsMean config window offsets (whole 5) refl refl
      ((refl, (refl, tt)), refl)

evaluate-full_example : (evaluate config window offsets).promote ≡ (
    (evaluate (full config) window offsets).promote
    && not
        (any (too_deep Fixed-IsOrdered Fixed-IsMean config window offsets) (config.slippages_bps)))
evaluate-full_example =
    evaluate-full Fixed-IsOrdered Fixed-IsMean config window offsets refl refl
      (((refl, (refl, tt)), refl), (((refl, (refl, tt)), refl), tt))
