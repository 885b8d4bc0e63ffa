-- ===== src/Simulator.antt =====
-- sim/keel_sim.py: the life of the objects that hold pointers into the C library, and the
-- environment that they drive. The library is a parameter: its answers may depend on all the calls
-- before. A pointer is a number, and 0 is NULL. The loading of the shared object and the C types
-- are left out.
pub mod Life
pub mod Drive
use keel_trader.Base.{
  ℕ, zero, suc, ◌+◌, Bool, true, false, Option, none, some, List, [], ◌∷◌, ◌++◌, any, ◌==◌, same,
  if◌then◌else◌,
}
use keel_trader.Base.Text.{Text, codes, text_eq}
use keel_trader.Outcome.{Error, Result, ok, err, value_error, runtime_error}

-- A call of the library that a theorem tells apart.
pub data Call (F : Type 0) : Type 0 where
  load_data : (data_path : Text) → Call F
  free_data : (ptr : ℕ) → Call F
  create_env : (data_ptr : ℕ) → Call F
  set_env_param : (ptr : ℕ) → Text → F → Call F
  finalize_env : (ptr : ℕ) → Call F
  free_env : (ptr : ℕ) → Call F
  reset_env : (ptr : ℕ) → Call F
  set_action : (ptr : ℕ) → (action : ℕ) → Call F
  step_env : (ptr : ℕ) → Call F

-- The calls so far, the last one first.
abbrev pub Trace : Type 0 → Type 0
Trace F = List (Call F)

-- What the library answers after these calls.
pub record Library (F : Type 0) : Type 0 where
  pub keel_market_data_load : Trace F → Text → ℕ
  pub keel_env_create : Trace F → (data_ptr : ℕ) → ℕ
  pub keel_env_set_param : Trace F → (ptr : ℕ) → Text → F → Bool
  -- whether it is not 0
  pub keel_env_finalize : Trace F → (ptr : ℕ) → Bool
  pub keel_env_obs_size : Trace F → (ptr : ℕ) → ℕ
  pub keel_env_num_actions : Trace F → (ptr : ℕ) → ℕ
  -- `keel_env_obs_ptr(ptr)[i]`
  pub keel_env_obs : Trace F → (ptr : ℕ) → (i : ℕ) → F
  pub keel_env_reward : Trace F → (ptr : ℕ) → F
  -- whether it is not 0
  pub keel_env_terminal : Trace F → (ptr : ℕ) → Bool
  pub keel_env_step_idx : Trace F → (ptr : ℕ) → ℕ
  pub keel_env_max_drawdown_live : Trace F → (ptr : ℕ) → F
  pub keel_env_log_total_return : Trace F → (ptr : ℕ) → F
  pub keel_env_log_sortino : Trace F → (ptr : ℕ) → F
  pub keel_env_log_max_drawdown : Trace F → (ptr : ℕ) → F
  pub keel_env_log_num_trades : Trace F → (ptr : ℕ) → F
  pub keel_env_log_win_rate : Trace F → (ptr : ℕ) → F
  pub keel_env_log_n : Trace F → (ptr : ℕ) → F

-- `_ENV_PARAMS`
abbrev pub env_params : List Text
env_params =
    codes "max_steps"
    ∷ codes "fee_rate"
    ∷ codes "max_leverage"
    ∷ codes "short_borrow_apr"
    ∷ codes "periods_per_year"
    ∷ codes "max_hold_hours"
    ∷ codes "action_allocation_bins"
    ∷ codes "action_level_bins"
    ∷ codes "action_max_offset_bps"
    ∷ codes "reward_scale"
    ∷ codes "reward_clip"
    ∷ codes "cash_penalty"
    ∷ codes "drawdown_penalty"
    ∷ codes "downside_penalty"
    ∷ codes "smooth_downside_penalty"
    ∷ codes "smooth_downside_temperature"
    ∷ codes "trade_penalty"
    ∷ codes "smoothness_penalty"
    ∷ codes "fill_slippage_bps"
    ∷ codes "fill_buffer_bps"
    ∷ codes "fill_probability"
    ∷ codes "decision_lag"
    ∷ codes "death_spiral_tolerance_bps"
    ∷ codes "death_spiral_overnight_tolerance_bps"
    ∷ codes "death_spiral_stale_after_bars"
    ∷ codes "forced_offset"
    ∷ codes "enable_drawdown_profit_early_exit"
    ∷ codes "drawdown_profit_early_exit_verbose"
    ∷ codes "drawdown_profit_early_exit_min_steps"
    ∷ codes "drawdown_profit_early_exit_progress_fraction"
    ∷ []

unfoldable pub is_known : Text → Bool
is_known name = any (same name) env_params

module _ {F : Type 0} (lib : Library F) where
  -- `TradingEnv.set_param`, by its pointer; the `TypeError` counts as a `ValueError`.
  unfoldable pub set_param : (ptr : ℕ) → Text → F → Trace F → Result {0} Unit × Trace F
  set_param ptr name value calls =
      if is_known name
      then (
        if lib.keel_env_set_param calls ptr name value then ok tt else err runtime_error,
        set_env_param ptr name value ∷ calls,
      )
      else (err value_error, calls)

  -- The loop over the parameters in `TradingEnv.__init__`.
  unfoldable pub set_params : (ptr : ℕ) → List (Text × F) → Trace F → Result {0} Unit × Trace F
  set_params ptr [] calls = (ok tt, calls)
  set_params ptr ((name, value) ∷ params) calls =
      let (r, calls') = set_param ptr name value calls in
      elim r [ err e ↦ (err e, calls') | ok _ ↦ set_params ptr params calls' ]

  abbrev pub finalize : (ptr : ℕ) → Trace F → Result {0} Unit × Trace F
  finalize ptr calls = (
    if lib.keel_env_finalize calls ptr then err runtime_error else ok tt,
    finalize_env ptr ∷ calls,
  )

  -- `TradingEnv.__init__`: how it ends, the pointer that the object holds then, which it does also
  -- when it raises, and the calls.
  unfoldable pub make_env :
      (data_ptr : ℕ) → List (Text × F) → Trace F → Result {0} Unit × ℕ × Trace F
  make_env data_ptr params calls =
      let ptr = lib.keel_env_create calls data_ptr in
      let calls' = create_env data_ptr ∷ calls in
      if ptr == 0
      then (err runtime_error, 0, calls')
      else (let (r, calls'') = set_params ptr params calls' in
          elim r [
            | err e ↦ (err e, ptr, calls'')
            | ok _ ↦ let (r', calls''') = finalize ptr calls'' in (r', ptr, calls''')
          ])

  -- `MarketData.load`: the pointer, 0 where it raises.
  unfoldable pub load_market_data : (data_path : Text) → Trace F → Result ℕ × Trace F
  load_market_data data_path calls =
      let ptr = lib.keel_market_data_load calls data_path in
      (if ptr == 0 then err runtime_error else ok ptr, load_data data_path ∷ calls)

module _ {F : Type 0} where
  -- `TradingEnv.free`, which `__del__` calls too: the pointer that the object holds after, and the
  -- calls.
  unfoldable pub free_object : (ptr : ℕ) → Trace F → ℕ × Trace F
  free_object ptr calls = if ptr == 0 then (ptr, calls) else (0, free_env ptr ∷ calls)

  -- `MarketData.free`
  unfoldable pub free_market_data : (ptr : ℕ) → Trace F → ℕ × Trace F
  free_market_data ptr calls = if ptr == 0 then (ptr, calls) else (0, free_data ptr ∷ calls)

  -- So many calls of `free`, by the program and by the collector.
  unfoldable pub free_times : ℕ → (ptr : ℕ) → Trace F → ℕ × Trace F
  free_times zero ptr calls = (ptr, calls)
  free_times (suc n) ptr calls =
      let (ptr', calls') = free_object ptr calls in free_times n ptr' calls'
