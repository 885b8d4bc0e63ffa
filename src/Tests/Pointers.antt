-- ===== src/Tests/Pointers.antt =====
-- A library that gives out the pointer 8 and takes every parameter; its episodes end where the calls
-- are a multiple of 5.
use keel_trader.Base.{
  ℕ, ◌+◌, ◌≡◌, refl, true, false, List, [], ◌∷◌, ◌%◌, length, count, ◌==◌, if◌then◌else◌,
}
use keel_trader.Base.Text.{Text, codes}
use keel_trader.Outcome.{err, value_error}
use keel_trader.Simulator.{
  Library, create_env, set_env_param, free_env, is_known, set_param, set_params, make_env,
  free_times,
}
use keel_trader.Simulator.Life.{is_free, free_times-make_env}

abbrev pub small : {F : Type 0} → (ℕ → F) → Library F
small value = record {
  keel_market_data_load = λ calls path. 4;
  keel_env_create = λ calls md. 8;
  keel_env_set_param = λ calls ptr name value. true;
  keel_env_finalize = λ calls ptr. false;
  keel_env_obs_size = λ calls ptr. 2;
  keel_env_num_actions = λ calls ptr. 3;
  keel_env_obs = λ calls ptr i. value (length calls + i);
  keel_env_reward = λ calls ptr. value (length calls);
  keel_env_terminal = λ calls ptr. length calls % 5 == 0;
  keel_env_step_idx = λ calls ptr. length calls;
  keel_env_max_drawdown_live = λ calls ptr. value 0;
  keel_env_log_total_return = λ calls ptr. value 0;
  keel_env_log_sortino = λ calls ptr. value 0;
  keel_env_log_max_drawdown = λ calls ptr. value 0;
  keel_env_log_num_trades = λ calls ptr. value 0;
  keel_env_log_win_rate = λ calls ptr. value 0;
  keel_env_log_n = λ calls ptr. value 0;
}

abbrev lib : Library ℕ
lib = small (λ n. n)

abbrev params : List (Text × ℕ)
params = (codes "fee_rate", 1) ∷ (codes "fee_rte", 2) ∷ []

-- A name that is not known raises after the object has its pointer.
raised :
    make_env lib 4 params []
    ≡ (err value_error, 8, set_env_param 8 (codes "fee_rate") 1 ∷ create_env 4 ∷ [])
unfolding make_env set_params set_param is_known
raised = refl

free_times-make_env_example :
    let (_, ptr, made) = make_env lib 4 params [] in
    let (held, after) = free_times 2 ptr made in
    (held ≡ 0)
    × (count is_free after ≡ count (is_free {F = ℕ}) [] + (if 8 == 0 then 0 else 1))
    × (after ≡ (if 8 == 0 then made else free_env 8 ∷ made))
free_times-make_env_example = free_times-make_env lib 4 params [] 1
