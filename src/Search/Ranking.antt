-- ===== src/Search/Ranking.antt =====
-- research/autoresearch.py: the results of a search, their ranking and the leaderboard.
use mathlib.Core.Path.{subst}
use keel_trader.Base.{
  ℕ, ◌≡◌, ◌∙◌, refl, sym, ap, Bool, some, List, [], ◌∷◌, ◌++◌, map, arith, count, All, inl, inr,
  or_default,
}
use keel_trader.Base.Text.{Text}
use keel_trader.Double.{Double}
use keel_trader.Double.Rank.{IsRankedBy, rank_by-IsRankedBy, count-rank_by}
use keel_trader.Outcome.{Result, ok, Result-cases}
use keel_trader.Strategy.{StrategyConfig}
use keel_trader.Gate.{GateConfig, Verdict, RunWindow}
use keel_trader.Gate.Offsets.{RandInt}
use keel_trader.Search.{
  TrialConfig, TrialResult, Leaderboard, train_verdict, test_verdict, result_of, run_trial,
  run_trials, score_sort, leaderboard_row, run_autoresearch,
}

module _ {F : Type 0} ⦃d : Double F⦄ where
  -- No result is followed by one with a greater score.
  abbrev pub IsRanked : List (TrialResult F) → Type 0
  IsRanked results = IsRankedBy (λ r. r.generalization_score) results

  module _ (gate : GateConfig F) (randint : RandInt) (num_timesteps : ℕ)
      (windows : StrategyConfig F → RunWindow F) (seed : ℕ) (train_frac overfit_penalty : F) where
    -- The result is promoted just if the gate promotes its configuration on the test split.
    abbrev pub IsJudged : TrialResult F → Type 0
    IsJudged r =
        (v : Verdict F) × (test_verdict gate randint num_timesteps windows seed train_frac
            overfit_penalty (r.config)
          ≡ ok v)
        × (r.promoted ≡ v.promote)
        × (r.test_median_monthly ≡ v.worst_cell_median_monthly)

    abbrev trials : List (TrialConfig F) → Result (List (TrialResult F))
    trials = run_trials gate randint num_timesteps windows seed train_frac overfit_penalty

    run_trial-IsJudged :
        (c : TrialConfig F) {r : TrialResult F}
        → run_trial gate randint num_timesteps windows seed train_frac overfit_penalty c ≡ ok r
        → (r.config ≡ c) × IsJudged r
    unfolding run_trial
    run_trial-IsJudged c {r = r} e =
        elim (Result-cases
          (train_verdict gate randint num_timesteps windows seed train_frac overfit_penalty c)) [
            | inl (x, f) ↦ ground arith
            | inr (a, f) ↦
                elim (Result-cases (
                  test_verdict gate randint num_timesteps windows seed train_frac overfit_penalty
                    c)) [
                      | inl (x, g) ↦ ground arith
                      | inr (v, g) ↦
                          let same_result : result_of gate randint num_timesteps windows seed
                                train_frac overfit_penalty c a v
                              ≡ r =
                            ground arith in
                          subst (λ q. (q.config ≡ c) × IsJudged q) same_result
                            (refl, (v, g, refl, refl))
                    ]
          ]

    run_trials-IsJudged :
        (cs : List (TrialConfig F)) {rs : List (TrialResult F)}
        → trials cs ≡ ok rs
        → (map (λ r. r.config) rs ≡ cs) × All IsJudged rs
    unfolding run_trials
    run_trials-IsJudged [] {rs = []} e = (refl, tt)
    run_trials-IsJudged [] {rs = r ∷ rs} e = ground arith
    run_trials-IsJudged (c ∷ cs) {rs = rs} e =
        elim (Result-cases
          (run_trial gate randint num_timesteps windows seed train_frac overfit_penalty c)) [
            | inl (x, f) ↦ ground arith
            | inr (r, f) ↦ elim (Result-cases (trials cs)) [
              | inl (x, g) ↦ ground arith
              | inr (more, g) ↦
                  let same_results : r ∷ more ≡ rs = ground arith in
                  let (same_config, judged) = run_trial-IsJudged c f in
                  let (same_configs, all) = run_trials-IsJudged cs g in
                  subst (λ q. (map (λ z. z.config) q ≡ c ∷ cs) × All IsJudged q) same_results
                    (cc (same_config, same_configs), (judged, all))
            ]
          ]

    -- A search that returns has a result for each configuration, in turn, each promoted just if the
    -- gate promotes it on the test split. The rows of all of them are appended to those of the
    -- leaderboard, which keeps those it had, and those returned are the same results as often, with none followed
    -- by one of a greater score.
    pub run_autoresearch-IsRanked :
        (six_decimals : F → Text) (configs : List (TrialConfig F)) (board : Leaderboard F)
        {ranked : List (TrialResult F)}
        → (run_autoresearch six_decimals trials configs board).0 ≡ ok ranked
        → (results : List (TrialResult F)) × (map (λ r. r.config) results ≡ configs)
          × All IsJudged results
          × ((run_autoresearch six_decimals trials configs board).1
              ≡ some (or_default board [] ++ map (leaderboard_row six_decimals) results))
          × IsRanked ranked
          × ((p : TrialResult F → Bool) → count p ranked ≡ count p results)
    unfolding run_autoresearch
    run_autoresearch-IsRanked six_decimals configs board {ranked = ranked} e =
        elim (Result-cases (trials configs)) [
          | inl (x, f) ↦ ground arith
          | inr (results, f) ↦
              let same_ranked : score_sort results ≡ ranked = ground arith in
              let (same_configs, all) = run_trials-IsJudged configs f in
              (
                results,
                same_configs,
                all,
                ground arith,
                subst IsRanked same_ranked
                    (rank_by-IsRankedBy (λ r. r.generalization_score) results),
                λ p.
                    sym (ap (count p) same_ranked)
                    ∙ count-rank_by (λ r. r.generalization_score) p results,
              )
        ]
