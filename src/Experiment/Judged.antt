-- ===== src/Experiment/Judged.antt =====
-- The searches over the gate: what their results are.
use mathlib.Core.Path.{subst}
use keel_trader.Base.{
  range, ℕ, ◌+◌, Bool, Option, List, [], ◌∷◌, map, arith, ◌≡◌, refl, sym, ap, ◌∙◌, length,
  length-AllPairs, All, AllPairs, inl, inr, Bool-cases, if◌then◌else◌,
}
use keel_trader.Base.Int.{ℤ}
use keel_trader.Base.Text.{Text}
use keel_trader.Double.{Double, lt, eq, fmin}
use keel_trader.Double.Rank.{rank_by, IsRankedBy, rank_by-IsRankedBy, length-rank_by}
use keel_trader.Outcome.{ok, Result-cases, each, each-AllPairs}
use keel_trader.Gate.{
  GateConfig, Verdict, RunWindow, evaluate, judge, gate_loop, run_cell, median_of,
}
use keel_trader.Gate.FailFast.{full, cell_loop-full}
use keel_trader.Gate.Offsets.{RandInt, IsInRange, Fits, generate_offsets, generate_offsets-Fits}
use keel_trader.Policies.{Policy}
use keel_trader.Experiment.{
  Market, Costs, SearchResult, Candidate, candidates, judge_split, policy_of, with_slip,
  run_candidate, run, fold_median, walk_policy, walk_forward,
}

module _ {F : Type 0} ⦃d : Double F⦄ where
  -- The median, where NaN and plus infinity are 0.
  abbrev pub settled : F → F
  settled m = let w = fmin (d.inf) m in if eq w (d.inf) then d.nought else w

  -- With one slippage and no early exits, the verdict's number is the median over all windows.
  evaluate-one :
      (gate : GateConfig F) (window : RunWindow F) (offs : List ℕ) (slip : F)
      → (evaluate
          (record (full gate) { slippages_bps = slip ∷ [] })
          window
          offs).worst_cell_median_monthly
        ≡ settled (median_of (map (window slip) offs))
  unfolding evaluate judge gate_loop run_cell
  evaluate-one gate window offs slip =
      let one = record gate { slippages_bps = slip ∷ [] } in
      rw (cell_loop-full one (window slip) (length offs) offs 0 0 [])
        (elim (Bool-cases (lt (median_of (map (window slip) offs)) (gate.promotion_target))) [
          | inl b ↦ rw b refl
          | inr b ↦ rw b refl
        ])

module _ {F : Type 0} ⦃d : Double F⦄ (randint : RandInt)
    (windows : Costs F → Policy F → RunWindow F) (md : Market) where
  -- The number of a fold: the settled median of the windows at the offsets that are returned for its
  -- bounds, as many as asked for, all within the data.
  abbrev pub IsFold :
      GateConfig F → Costs F → (slip_bps : F) → Policy F → (folds k : ℕ) → F → Type 0
  IsFold gate costs slip_bps policy folds k m =
      (offs : List ℕ) × (generate_offsets randint (md.num_timesteps) (gate.n_windows)
          (gate.window_steps) (d.lit k folds) (d.lit (k + 1) folds)
        ≡ ok offs)
      × All (Fits (md.num_timesteps) (gate.window_steps)) offs
      × (length offs ≡ gate.n_windows)
      × (m ≡ settled (median_of (map (windows costs policy slip_bps) offs)))

  fold_median-IsFold :
      (gate : GateConfig F) (costs : Costs F) (slip_bps : F) (policy : Policy F) (folds k : ℕ)
      (m : F)
      → IsInRange randint
      → fold_median randint windows md gate costs slip_bps policy folds k ≡ ok m
      → IsFold gate costs slip_bps policy folds k m
  unfolding fold_median judge_split
  fold_median-IsFold gate costs slip_bps policy folds k m fair e =
      elim (Result-cases (
        generate_offsets randint (md.num_timesteps) (gate.n_windows) (gate.window_steps)
          (d.lit k folds) (d.lit (k + 1) folds))) [
            | inl (_, f) ↦ ground arith
            | inr (offs, f) ↦
                let (fits, all) =
                  generate_offsets-Fits randint (md.num_timesteps) (gate.n_windows)
                    (gate.window_steps) (d.lit k folds) (d.lit (k + 1) folds) fair f in
                (
                  offs,
                  f,
                  fits,
                  all,
                  ground (arith, evaluate-one gate (windows costs policy) offs slip_bps),
                )
          ]

  -- When the walk returns and `randint` keeps to its range, it has a number for each of the folds in
  -- turn: the median over the windows at the offsets that `generate_offsets` returns for the bounds
  -- of the fold, as many as asked for and all within the data, though not always within the fold,
  -- with none of them left out by an early exit. A median of NaN or plus infinity counts as 0.
  pub walk_forward-IsFold :
      (gate : GateConfig F) (costs : Costs F) (slip_bps : F) (xsvol : Bool) (feature : Text)
      (sign : ℤ) (folds : ℕ) {medians : List F}
      → IsInRange randint
      → walk_forward randint windows md gate costs slip_bps xsvol feature sign folds ≡ ok medians
      → (policy : Policy F) × (walk_policy md xsvol feature sign ≡ ok policy)
        × AllPairs (IsFold gate costs slip_bps policy folds) (range folds) medians
  unfolding walk_forward
  walk_forward-IsFold gate costs slip_bps xsvol feature sign folds {medians = medians} fair e =
      elim (Result-cases (walk_policy {F = F} ⦃d = d⦄ md xsvol feature sign)) [
        | inl (_, f) ↦ ground arith
        | inr (policy, f) ↦ (
          policy,
          f,
          each-AllPairs (IsFold gate costs slip_bps policy folds)
              (fold_median randint windows md gate costs slip_bps policy folds)
              (λ k m g. fold_median-IsFold gate costs slip_bps policy folds k m fair g)
              (range folds) medians (ground arith),
        )
      ]

  -- The result of a candidate: its policy is that of the candidate's feature and sign, and it is
  -- promoted just if the gate promotes that policy on the test split.
  abbrev pub IsJudged :
      GateConfig F
      → Costs F
      → (long_short : Bool) → (train_frac : F) → Candidate F
      → SearchResult F
      → Type 0
  IsJudged gate costs long_short train_frac c r =
      (policy : Policy F) × (v : Verdict F) × (policy_of md long_short c ≡ ok policy)
      × (judge_split randint windows md gate costs policy train_frac (d.one) ≡ ok v)
      × (r.promoted ≡ v.promote)
      × (r.test_median_monthly ≡ v.worst_cell_median_monthly)
      × (r.feature ≡ c.feature)
      × (r.sign ≡ c.sign)
      × (r.config_name ≡ c.config_name)

  run_candidate-IsJudged :
      (gate : GateConfig F) (costs : Costs F) (long_short : Bool) (train_frac overfit_penalty : F)
      (c : Candidate F) (r : SearchResult F)
      → run_candidate randint windows md gate costs long_short train_frac overfit_penalty c ≡ ok r
      → IsJudged gate costs long_short train_frac c r
  unfolding run_candidate
  run_candidate-IsJudged gate costs long_short train_frac overfit_penalty c r e =
      elim (Result-cases (policy_of md long_short c)) [
        | inl (_, f) ↦ ground arith
        | inr (policy, f) ↦
            elim (Result-cases
              (judge_split randint windows md (full gate) costs policy (d.nought) train_frac)) [
                | inl (_, g) ↦ ground arith
                | inr (train_v, g) ↦
                    elim (Result-cases
                      (judge_split randint windows md gate costs policy train_frac (d.one))) [
                        | inl (_, h) ↦ ground arith
                        | inr (v, h) ↦ (
                          policy,
                          v,
                          f,
                          h,
                          ground arith,
                          ground arith,
                          ground arith,
                          ground arith,
                          ground arith,
                        )
                      ]
              ]
      ]

  -- When the search returns, it has a result for each of the 128 candidates, which are the 16
  -- features with two signs and four configurations; none is followed by one with a greater score;
  -- and before the ranking the results are those of the candidates in turn, each promoted just if
  -- the gate promotes its policy on the test split.
  pub run-IsRankedBy :
      (gate : GateConfig F) (costs : Costs F) (slip_bps : Option F) (long_short : Bool)
      (train_frac overfit_penalty : F) {ranked : List (SearchResult F)}
      → run randint windows md gate costs slip_bps long_short train_frac overfit_penalty ≡ ok ranked
      → (results : List (SearchResult F)) × AllPairs
          (IsJudged (with_slip gate slip_bps) costs long_short train_frac)
          candidates
          results
        × (ranked ≡ rank_by (λ r. r.generalization_score) results)
        × IsRankedBy (λ r. r.generalization_score) ranked
        × (length ranked ≡ 128)
  unfolding run
  run-IsRankedBy gate costs slip_bps long_short train_frac overfit_penalty {ranked = ranked} e =
      let judged =
        run_candidate randint windows md (with_slip gate slip_bps) costs long_short train_frac
          overfit_penalty in
      elim (Result-cases (each judged candidates)) [
        | inl (_, f) ↦ ground arith
        | inr (results, f) ↦
            let made : rank_by (λ r. r.generalization_score) results ≡ ranked = ground arith in
            let pairs =
              each-AllPairs (IsJudged (with_slip gate slip_bps) costs long_short train_frac) judged
                (λ c r g.
                  run_candidate-IsJudged (with_slip gate slip_bps) costs long_short train_frac
                    overfit_penalty c r g)
                candidates results f in
            (
              results,
              pairs,
              sym made,
              subst (IsRankedBy (λ r. r.generalization_score)) made
                  (rank_by-IsRankedBy (λ r. r.generalization_score) results),
              ap length (sym made)
                  ∙ length-rank_by (λ r. r.generalization_score) results
                  ∙ sym (
                      length-AllPairs
                        (IsJudged (with_slip gate slip_bps) costs long_short train_frac) candidates
                        results pairs),
            )
      ]
