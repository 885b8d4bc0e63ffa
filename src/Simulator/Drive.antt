-- ===== src/Simulator/Drive.antt =====
-- sim/keel_sim.py: `reset`, `step` and the readings of `TradingEnv`, over the calls so far.
use keel_trader.Base.{ℕ, ◌≡◌, Bool, true, false, not, List, [], ◌∷◌, map, range, ◌==◌, ◌&&◌}
use keel_trader.Simulator.{reset_env, set_action, step_env, Trace, Library}

-- The object once it is made: its pointer, and what it read of the library then.
pub record TradingEnv : Type 0 where
  pub ptr : ℕ
  pub obs_size : ℕ
  pub num_actions : ℕ

-- `TradingEnv.log`
pub record EnvLog (F : Type 0) : Type 0 where
  pub total_return : F
  pub sortino : F
  pub max_drawdown : F
  pub num_trades : F
  pub win_rate : F
  pub n : F

module _ {F : Type 0} (lib : Library F) where
  -- The end of `TradingEnv.__init__`.
  abbrev pub env_of : (ptr : ℕ) → Trace F → TradingEnv
  env_of ptr calls = record {
    ptr = ptr;
    obs_size = lib.keel_env_obs_size calls ptr;
    num_actions = lib.keel_env_num_actions calls ptr;
  }

  abbrev pub obs : TradingEnv → Trace F → List F
  obs env calls = map (lib.keel_env_obs calls (env.ptr)) (range (env.obs_size))

  abbrev pub last_reward : TradingEnv → Trace F → F
  last_reward env calls = lib.keel_env_reward calls (env.ptr)

  abbrev pub terminal : TradingEnv → Trace F → Bool
  terminal env calls = lib.keel_env_terminal calls (env.ptr)

  abbrev pub max_drawdown_live : TradingEnv → Trace F → F
  max_drawdown_live env calls = lib.keel_env_max_drawdown_live calls (env.ptr)

  abbrev pub step_idx : TradingEnv → Trace F → ℕ
  step_idx env calls = lib.keel_env_step_idx calls (env.ptr)

  abbrev pub read_log : TradingEnv → Trace F → EnvLog F
  read_log env calls = record {
    total_return = lib.keel_env_log_total_return calls (env.ptr);
    sortino = lib.keel_env_log_sortino calls (env.ptr);
    max_drawdown = lib.keel_env_log_max_drawdown calls (env.ptr);
    num_trades = lib.keel_env_log_num_trades calls (env.ptr);
    win_rate = lib.keel_env_log_win_rate calls (env.ptr);
    n = lib.keel_env_log_n calls (env.ptr);
  }

  unfoldable pub reset : TradingEnv → Trace F → List F × Trace F
  reset env calls = let calls' = reset_env (env.ptr) ∷ calls in (obs env calls', calls')

  -- The observation, the reward and whether the episode has ended, and the calls.
  unfoldable pub step : TradingEnv → (action : ℕ) → Trace F → (List F × F × Bool) × Trace F
  step env action calls =
      let calls' = step_env (env.ptr) ∷ set_action (env.ptr) action ∷ calls in
      ((obs env calls', last_reward env calls', terminal env calls'), calls')

  -- The environment of this pointer has an episode that runs: the last call has reset it, or has
  -- stepped it without ending the episode.
  abbrev pub is_ready : (ptr : ℕ) → Trace F → Bool
  is_ready ptr (reset_env p ∷ calls) = p == ptr
  is_ready ptr (step_env p ∷ calls) =
      p == ptr && not (lib.keel_env_terminal (step_env p ∷ calls) ptr)
  is_ready ptr _ = false

  -- Every step of the simulator follows on an action set for the same pointer, which found there
  -- an episode that runs.
  abbrev pub IsDriven : Trace F → Type 0
  IsDriven [] = Unit
  IsDriven (step_env p ∷ set_action q a ∷ calls) =
      ((p == q && is_ready p calls) ≡ true) × IsDriven calls
  IsDriven (step_env p ∷ _) = ⊥
  IsDriven (_ ∷ calls) = IsDriven calls
