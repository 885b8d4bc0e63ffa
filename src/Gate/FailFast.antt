-- ===== src/Gate/FailFast.antt =====
-- research/eval.py: the early exits of one cell, beside the same cell run to the end.
use mathlib.Core.List.{append-nil, append_assoc}
use keel_trader.Base.{
  ℕ, suc, ◌+◌, ◌<◌, ◌≡◌, ◌⊎◌, refl, sym, ◌∙◌, Bool, true, false, List, [], ◌∷◌, ◌++◌, map, arith,
  if◌then◌else◌, length, count, any, All, inl, length-map, length-append, count-append,
  count-le-length,
}
use keel_trader.Double.{Double, le, lt, is_finite}
use keel_trader.Double.Order.{IsOrdered, IsMean}
use keel_trader.Gate.{
  WindowResult, CellLoop, GateConfig, RunWindow, no_failure, cell_loop, run_cell, windows_needed_ge,
  reaches, monthly_of, median_of, IsNumber, middle_sum, median-lt,
}

module _ {F : Type 0} ⦃d : Double F⦄ where
  -- The same gate without its early exits.
  abbrev pub full : GateConfig F → GateConfig F
  full cfg = record cfg { fail_fast = false }

  -- The window's drawdown is beyond the limit.
  abbrev pub over : GateConfig F → WindowResult F → Bool
  over cfg r = lt (cfg.fail_fast_max_dd) (r.max_drawdown)

  -- Without early exits the loop runs every window.
  pub cell_loop-full :
      (cfg : GateConfig F) (window : ℕ → WindowResult F) (n : ℕ) (offs : List ℕ) (i ge : ℕ)
      (acc : List (WindowResult F))
      → cell_loop (full cfg) window n offs i ge acc
        ≡ record { results = acc ++ map window offs; failed_fast = false; fail_reason = no_failure }
  unfolding cell_loop
  cell_loop-full cfg window n [] i ge acc = rw (append-nil acc)
  cell_loop-full cfg window n (off ∷ offs) i ge acc =
      rw
        (cell_loop-full cfg window n offs (i + 1)
          (if reaches (cfg.promotion_target) (window off) then suc ge else ge)
          (acc ++ (window off ∷ [])))
        (rw (append_assoc acc (window off ∷ []) (map window offs)))

  -- How the loop may end: with every window run and none beyond the limit, at a window beyond the
  -- limit, or with too few windows at the target among all.
  abbrev Ends : GateConfig F → (total rest : List (WindowResult F)) → CellLoop F → Type 0
  Ends cfg total rest l =
      ((l ≡ record { results = total; failed_fast = false; fail_reason = no_failure })
        × (any (over cfg) rest ≡ false))
      ⊎ ((l.failed_fast ≡ true) × (any (over cfg) rest ≡ true))
      ⊎ ((l.failed_fast ≡ true)
          × (count (reaches (cfg.promotion_target)) total < windows_needed_ge (length total)))

  cell_loop-Ends :
      (cfg : GateConfig F) (window : ℕ → WindowResult F) (offs : List ℕ) (i ge : ℕ)
      (acc total : List (WindowResult F))
      → cfg.fail_fast ≡ true
      → total ≡ acc ++ map window offs
      → i ≡ length acc
      → ge ≡ count (reaches (cfg.promotion_target)) acc
      → Ends cfg total (map window offs) (cell_loop cfg window (length total) offs i ge acc)
  unfolding cell_loop
  cell_loop-Ends cfg window [] i ge acc total ff e ei eg = inl (rw (e, append-nil acc), refl)
  cell_loop-Ends cfg window (off ∷ offs) i ge acc total ff e ei eg =
      let wr = window off in
      let p = reaches (cfg.promotion_target) in
      let ge' = if p wr then suc ge else ge in
      let acc' = acc ++ (wr ∷ []) in
      let ih =
        cell_loop-Ends cfg window offs (i + 1) ge' acc' total ff
          (e ∙ sym (append_assoc acc (wr ∷ []) (map window offs)))
          (rw (length-append acc (wr ∷ [])) (omega arith))
          (rw (count-append p acc (wr ∷ [])) (ground arith)) in
      ground (
        arith,
        ih,
        e,
        length-append acc (wr ∷ map window offs),
        count-append p acc (wr ∷ map window offs),
        count-le-length p (map window offs),
      )

  -- All the windows of a cell, run to the end.
  abbrev pub windows : RunWindow F → List ℕ → F → List (WindowResult F)
  windows window offsets slip = map (window slip) offsets

  -- The returns of a cell are numbers, and the sum of the two in the middle does not overflow.
  abbrev pub IsMeasured : RunWindow F → List ℕ → F → Type 0
  IsMeasured window offsets slip =
      let xs = monthly_of (windows window offsets slip) in
      All IsNumber xs × (is_finite (middle_sum xs) ≡ true)

  count-monthly :
      (target : F) (rs : List (WindowResult F))
      → count (le target) (monthly_of rs) ≡ count (reaches target) rs
  count-monthly target [] = refl
  count-monthly target (r ∷ rs) = ground (arith, count-monthly target rs)

  module _ (laws : IsOrdered F) (means : IsMean F) where
    median_of-lt :
        (target : F) (rs : List (WindowResult F))
        → IsNumber target
        → All IsNumber (monthly_of rs)
        → is_finite (middle_sum (monthly_of rs)) ≡ true
        → count (reaches target) rs < windows_needed_ge (length rs)
        → lt (median_of rs) target ≡ true
    unfolding windows_needed_ge
    median_of-lt target [] nt n f few = elim few [ ]
    median_of-lt target (r ∷ rs) nt n f few =
        let xs = monthly_of (r ∷ rs) in
        median-lt laws means target xs nt n f (
          omega (arith, count-monthly target (r ∷ rs), length-map (λ q. q.monthly_return) (r ∷ rs)))

    -- How a cell with early exits ends, beside the same cell run to the end: it is the same and no
    -- window is beyond the drawdown limit; or a window is; or the median at the end is below the
    -- target.
    pub run_cell-Ends :
        (cfg : GateConfig F) (window : RunWindow F) (offsets : List ℕ) (slip : F)
        → cfg.fail_fast ≡ true
        → IsNumber (cfg.promotion_target)
        → IsMeasured window offsets slip
        → let c = run_cell cfg window offsets slip in
          let c' = run_cell (full cfg) window offsets slip in
          let too_deep = any (over cfg) (windows window offsets slip) in
          ((c ≡ c') × (c'.failed_fast ≡ false) × (too_deep ≡ false))
          ⊎ ((c.failed_fast ≡ true) × (c'.failed_fast ≡ false) × (too_deep ≡ true))
          ⊎ ((c.failed_fast ≡ true)
              × (c'.failed_fast ≡ false)
              × (lt (c'.median_monthly) (cfg.promotion_target) ≡ true))
    unfolding run_cell
    run_cell-Ends cfg window offsets slip ff nt m =
        let total = windows window offsets slip in
        let few_below = median_of-lt (cfg.promotion_target) total nt (m.0) (m.1) in
        let ends =
          rw (length-map (window slip) offsets) at
            (cell_loop-Ends cfg (window slip) offsets 0 0 [] total ff refl refl refl) in
        ground (
          arith,
          ends,
          cell_loop-full cfg (window slip) (length offsets) offsets 0 0 [],
          few_below,
          length-map (window slip) offsets,
        )
