-- ===== src/Gate/Window.antt =====
-- research/eval.py: `run_window`, over the simulator's environment, which is a parameter.
use keel_trader.Base.{
  ℕ, zero, suc, ◌+◌, ◌≡◌, ◌≤◌, ◌<◌, ◌==◌, Bool, true, false, if◌then◌else◌, arith, Bool-cases, inl,
  inr,
}
use keel_trader.Double.{Double, fabs}
use keel_trader.Outcome.{Result, ok, err, zero_division}
use keel_trader.Gate.{WindowResult}

-- What `env.log` holds.
pub record Log (F : Type 0) : Type 0 where
  pub total_return : F
  pub max_drawdown : F
  pub num_trades : F

-- `TradingEnv`: the state after the reset and after a step, with the observation and whether the
-- episode has ended; and the log of a state.
pub record Engine (F : Type 0) : Type 1 where
  pub State : Type 0
  pub Obs : Type 0
  pub Act : Type 0
  pub reset : (offset window_steps : ℕ) → (slippage_bps : F) → Obs × State
  pub advance : Act → State → (Obs × Bool) × State
  pub log : State → Log F

-- `BARS_PER_MONTH`
abbrev pub bars_per_month : ℕ
bars_per_month = 730

module _ {F : Type 0} (env : Engine F) (policy : env.Obs → env.State → env.Act) where
  -- The loop of `run_window`, for so many steps at most: the last state, and whether it is terminal.
  unfoldable pub episode : ℕ → env.Obs → env.State → env.State × Bool
  episode zero obs s = (s, false)
  episode (suc n) obs s =
      let ((obs', terminal), s') = env.advance (policy obs s) s in
      let rest = episode n obs' s' in if terminal then (s', true) else rest

  -- An episode that has ended stays as it is, however many more steps it is given.
  episode_more :
      (n m : ℕ) (obs : env.Obs) (s : env.State)
      → n ≤ m
      → (episode n obs s).1 ≡ true
      → episode m obs s ≡ episode n obs s
  unfolding episode
  episode_more zero m obs s b h = ground arith
  episode_more (suc n) zero obs s b h = ground arith
  episode_more (suc n) (suc m) obs s b h =
      let r = env.advance (policy obs s) s in
      elim (Bool-cases (r.0.1)) [
        | inl t ↦ rw (t, episode)
        | inr t ↦ ground (arith, episode_more n m (r.0.0) (r.1))
      ]

module _ {F : Type 0} ⦃d : Double F⦄ (env : Engine F) (policy : env.Obs → env.State → env.Act) where
  -- The result of a window from the log of its last state.
  unfoldable pub result_of : ℕ → ℕ → Log F → WindowResult F
  result_of window_steps offset log = record {
    offset = offset;
    total_return = log.total_return;
    monthly_return = d.mul (log.total_return) (d.lit bars_per_month window_steps);
    max_drawdown = fabs (log.max_drawdown);
    num_trades = log.num_trades;
  }

  -- The division by the steps of the window raises where there are none.
  unfoldable pub run_window : (decision_lag window_steps : ℕ) → F → ℕ → Result (WindowResult F)
  run_window decision_lag window_steps slippage_bps offset =
      let (obs, s) = env.reset offset window_steps slippage_bps in
      let (last, _) = episode env policy (window_steps + decision_lag + 2) obs s in
      if window_steps == 0
      then err zero_division
      else ok (result_of window_steps offset (env.log last))

  -- If the simulator ends the episode at some step within the steps of the window, the lag and the
  -- margin of two, the result is that of the log at that very step.
  pub run_window-episode :
      (decision_lag window_steps : ℕ) (slippage_bps : F) (offset n : ℕ)
      → 0 < window_steps
      → n ≤ window_steps + decision_lag + 2
      → (let (obs, s) = env.reset offset window_steps slippage_bps in
          (episode env policy n obs s).1)
        ≡ true
      → run_window decision_lag window_steps slippage_bps offset
        ≡ ok (
            result_of window_steps offset (
              let (obs, s) = env.reset offset window_steps slippage_bps in
              env.log ((episode env policy n obs s).0)))
  unfolding run_window
  run_window-episode lag steps slip offset n some_steps b h =
      let r = env.reset offset steps slip in
      ground (arith, episode_more env policy n (steps + lag + 2) (r.0) (r.1) b h)
