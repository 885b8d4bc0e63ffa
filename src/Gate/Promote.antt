-- ===== src/Gate/Promote.antt =====
-- research/eval.py: the verdict, with and without early exits.
use keel_trader.Base.{
  ℕ, ◌≡◌, refl, Bool, true, false, not, ◌&&◌, List, [], ◌∷◌, ◌++◌, map, arith, any, All,
}
use keel_trader.Double.{Double, lt, fmin}
use keel_trader.Double.Order.{IsOrdered, IsMean, ◌≼◌}
use keel_trader.Gate.{
  CellResult, GateConfig, RunWindow, Verdict, gate_loop, run_cell, evaluate, IsNumber,
}
use keel_trader.Gate.FailFast.{full, over, windows, IsMeasured, run_cell-Ends}

module _ {F : Type 0} ⦃d : Double F⦄ (laws : IsOrdered F) (means : IsMean F) where
  -- Some window of the cell is beyond the drawdown limit.
  abbrev pub too_deep : GateConfig F → RunWindow F → List ℕ → F → Bool
  too_deep cfg window offsets slip = any (over cfg) (windows window offsets slip)

  gate_loop-full :
      (cfg : GateConfig F) (window : RunWindow F) (offsets : List ℕ) (slips : List F)
      (worst worst' : F) (cells cells' : List (CellResult F))
      → cfg.fail_fast ≡ true
      → IsNumber (cfg.promotion_target)
      → All (IsMeasured window offsets) slips
      → (gate_loop cfg (run_cell cfg window offsets) slips worst cells).promote ≡ (
          (gate_loop (full cfg) (run_cell (full cfg) window offsets) slips worst' cells').promote
          && not (any (too_deep cfg window offsets) slips))
  unfolding gate_loop
  gate_loop-full cfg window offsets [] worst worst' cells cells' ff nt m = refl
  gate_loop-full cfg window offsets (slip ∷ slips) worst worst' cells cells' ff nt (m, ms) =
      let c = run_cell cfg window offsets slip in
      let c' = run_cell (full cfg) window offsets slip in
      ground (
        arith,
        run_cell-Ends laws means cfg window offsets slip ff nt m,
        gate_loop-full cfg window offsets slips (fmin worst (c.median_monthly))
            (fmin worst' (c'.median_monthly)) (cells ++ (c ∷ [])) (cells' ++ (c' ∷ [])) ff nt ms,
      )

  -- With early exits the gate promotes exactly when it promotes without them and no window at any
  -- slippage is beyond the drawdown limit: an exit for an unreachable median never turns away a
  -- policy that the full run would promote. The returns are numbers whose sums do not overflow.
  pub evaluate-full :
      (cfg : GateConfig F) (window : RunWindow F) (offsets : List ℕ)
      → cfg.fail_fast ≡ true
      → IsNumber (cfg.promotion_target)
      → All (IsMeasured window offsets) (cfg.slippages_bps)
      → (evaluate cfg window offsets).promote ≡ (
          (evaluate (full cfg) window offsets).promote
          && not (any (too_deep cfg window offsets) (cfg.slippages_bps)))
  unfolding evaluate
  evaluate-full cfg window offsets ff nt m =
      gate_loop-full cfg window offsets (cfg.slippages_bps) (d.inf) (d.inf) [] [] ff nt m

module _ {F : Type 0} ⦃d : Double F⦄ (laws : IsOrdered F) where
  -- Every cell has run to its end at the target.
  abbrev pub IsCleared : GateConfig F → CellResult F → Type 0
  IsCleared cfg c = (c.failed_fast ≡ false) × (lt (c.median_monthly) (cfg.promotion_target) ≡ false)

  -- What a promotion says of the slippages and of the verdict.
  abbrev pub Promotes : GateConfig F → (F → CellResult F) → List F → Verdict F → Type 0
  Promotes cfg cell slips v =
      (v.cells ≡ map cell slips)
      × All (λ s. IsCleared cfg (cell s)) slips
      × All (λ s. v.worst_cell_median_monthly ≼ (cell s).median_monthly) slips
      × (cfg.promotion_target ≼ v.worst_cell_median_monthly)
