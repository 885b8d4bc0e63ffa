-- ===== src/Gate.antt =====
-- research/eval.py: the out-of-sample gate. One run of the simulator is a function of the slippage
-- and the offset (`Gate.Window` makes it from the engine); the loops over windows and slippages,
-- their early exits and the verdict are here. Texts of reasons are kept as data.
pub mod Median
pub mod Window
pub mod Offsets
pub mod FailFast
pub mod Promote
pub use Median.*
use keel_trader.Base.{
  ℕ, suc, ◌+◌, ◌-◌, ◌/◌, Bool, true, false, ◌&&◌, List, [], ◌∷◌, ◌++◌, map, if◌then◌else◌, ltb,
  length,
}
use keel_trader.Double.{Double, le, lt, eq, fmin}

pub record WindowResult (F : Type 0) : Type 0 where
  pub offset : ℕ
  pub total_return : F
  pub monthly_return : F
  pub max_drawdown : F
  pub num_trades : F

pub data FailReason : Type 0 where
  no_failure : FailReason
  -- the window whose drawdown is beyond the limit
  drawdown : (window : ℕ) → FailReason
  -- windows at the target, windows needed, windows run, windows left
  unreachable : (ge_count needed_ge run remaining : ℕ) → FailReason

pub record CellResult (F : Type 0) : Type 0 where
  pub slippage_bps : F
  pub median_monthly : F
  pub windows_run : ℕ
  pub failed_fast : Bool
  pub fail_reason : FailReason
  pub results : List (WindowResult F)

pub data Reason (F : Type 0) : Type 0 where
  all_cells_reach : Reason F
  fail_fast_at : F → FailReason → Reason F
  median_below : F → F → Reason F

pub record Verdict (F : Type 0) : Type 0 where
  pub promote : Bool
  pub worst_cell_median_monthly : F
  pub promotion_target : F
  pub failed_fast : Bool
  pub reason : Reason F
  pub n_windows : ℕ
  pub window_steps : ℕ
  pub cells : List (CellResult F)

-- What the caller chooses.
pub record GateConfig (F : Type 0) : Type 0 where
  pub n_windows : ℕ
  pub window_steps : ℕ
  pub slippages_bps : List F
  pub promotion_target : F
  pub fail_fast : Bool
  pub fail_fast_max_dd : F

-- A run of one window, by slippage and offset.
abbrev pub RunWindow : Type 0 → Type 0
RunWindow F = F → ℕ → WindowResult F

-- `_windows_needed_ge`
unfoldable pub windows_needed_ge : ℕ → ℕ
windows_needed_ge n = n - n / 2

-- What the loop of `_run_cell` leaves: the results and why it stopped.
pub record CellLoop (F : Type 0) : Type 0 where
  pub results : List (WindowResult F)
  pub failed_fast : Bool
  pub fail_reason : FailReason

-- What the loop of `evaluate` carries.
pub record Running (F : Type 0) : Type 0 where
  pub promote : Bool
  pub worst : F
  pub failed_fast : Bool
  pub reason : Reason F
  pub cells : List (CellResult F)

module _ {F : Type 0} ⦃d : Double F⦄ where
  abbrev pub monthly_of : List (WindowResult F) → List F
  monthly_of rs = map (λ r. r.monthly_return) rs

  -- `wr.monthly_return >= promotion_target`
  abbrev pub reaches : F → WindowResult F → Bool
  reaches target r = le target (r.monthly_return)

  module _ (cfg : GateConfig F) (window : ℕ → WindowResult F) (n : ℕ) where
    -- The loop over the offsets, with the windows run so far and those of them at the target.
    unfoldable pub cell_loop : List ℕ → ℕ → ℕ → List (WindowResult F) → CellLoop F
    unfolding windows_needed_ge
    cell_loop [] i ge_count results = record {
      results = results;
      failed_fast = false;
      fail_reason = no_failure;
    }
    cell_loop (off ∷ offs) i ge_count results =
        let wr = window off in
        let results' = results ++ (wr ∷ []) in
        let ge' = if reaches (cfg.promotion_target) wr then suc ge_count else ge_count in
        let remaining = n - (i + 1) in
        let rest = cell_loop offs (i + 1) ge' results' in
        if cfg.fail_fast && lt (cfg.fail_fast_max_dd) (wr.max_drawdown)
        then record { results = results'; failed_fast = true; fail_reason = drawdown i }
        else if cfg.fail_fast && ltb (ge' + remaining) (windows_needed_ge n)
        then record {
          results = results';
          failed_fast = true;
          fail_reason = unreachable ge' (windows_needed_ge n) (i + 1) remaining;
        }
        else rest

  -- `statistics.median` of the monthly returns, or 0 for none.
  abbrev pub median_of : List (WindowResult F) → F
  median_of [] = d.nought
  median_of (r ∷ rs) = median (monthly_of (r ∷ rs))

  -- `_run_cell`
  unfoldable pub run_cell : GateConfig F → RunWindow F → List ℕ → F → CellResult F
  run_cell cfg window offsets slip =
      let l = cell_loop cfg (window slip) (length offsets) offsets 0 0 [] in
      record {
        slippage_bps = slip;
        median_monthly = median_of (l.results);
        windows_run = length (l.results);
        failed_fast = l.failed_fast;
        fail_reason = l.fail_reason;
        results = l.results;
      }

  -- The loop of `evaluate` over the slippages.
  unfoldable pub gate_loop :
      GateConfig F → (F → CellResult F) → List F → F → List (CellResult F) → Running F
  gate_loop cfg cell [] worst cells = record {
    promote = true;
    worst = worst;
    failed_fast = false;
    reason = all_cells_reach;
    cells = cells;
  }
  gate_loop cfg cell (slip ∷ slips) worst cells =
      let c = cell slip in
      let worst' = fmin worst (c.median_monthly) in
      let cells' = cells ++ (c ∷ []) in
      let rest = gate_loop cfg cell slips worst' cells' in
      if c.failed_fast
      then record {
        promote = false;
        worst = worst';
        failed_fast = true;
        reason = fail_fast_at slip (c.fail_reason);
        cells = cells';
      }
      else if lt (c.median_monthly) (cfg.promotion_target)
      then record {
        promote = false;
        worst = worst';
        failed_fast = false;
        reason = median_below slip (c.median_monthly);
        cells = cells';
      }
      else rest

  -- `evaluate`, at the offsets that `generate_offsets` has drawn, for some slippages.
  unfoldable pub judge : GateConfig F → RunWindow F → List ℕ → List F → Verdict F
  judge cfg window offsets slips =
      let g = gate_loop cfg (run_cell cfg window offsets) slips (d.inf) [] in
      record {
        promote = g.promote;
        worst_cell_median_monthly = if eq (g.worst) (d.inf) then d.nought else g.worst;
        promotion_target = cfg.promotion_target;
        failed_fast = g.failed_fast;
        reason = g.reason;
        n_windows = cfg.n_windows;
        window_steps = cfg.window_steps;
        cells = g.cells;
      }

  -- `evaluate`
  unfoldable pub evaluate : GateConfig F → RunWindow F → List ℕ → Verdict F
  unfolding judge
  evaluate cfg window offsets = judge cfg window offsets (cfg.slippages_bps)
