-- ===== src/Training/Rollout.antt =====
-- models/rl/train.py: the rollouts of a policy over the simulator, and the loop of training. The
-- network, its draws, the update and the checkpoint are torch's, parameters. What the collector
-- frees is left out.
use keel_trader.Base.{ℕ, zero, suc, ◌+◌, ◌*◌, ◌%◌, List, [], ◌∷◌, map, if◌then◌else◌, ◌==◌, ◌&&◌}
use keel_trader.Base.Text.{Text, codes}
use keel_trader.Double.{Double}
use keel_trader.Outcome.{Result, ok, err, zero_division}
use keel_trader.Policy.{Moment, compute_gae, returns}
use keel_trader.Simulator.{
  Trace, Library, make_env, free_object, load_market_data, free_market_data,
}
use keel_trader.Simulator.Drive.{TradingEnv, env_of, reset, step}

-- What the buffers hold of one step.
pub record Transition (F : Type 0) : Type 0 where
  pub obs : List F
  pub action : ℕ
  pub logp : F
  pub rew : F
  pub val : F
  pub done : F

-- The network and what is done with it. A draw has a number, an update that of its iteration.
pub record Trainer (F : Type 0) : Type 1 where
  pub Net : Type 0
  pub init : (obs_size num_actions hidden : ℕ) → Net
  -- the logits and the value
  pub forward : Net → List F → List F × F
  pub sample : (draw : ℕ) → List F → ℕ
  pub log_prob : List F → ℕ → F
  pub ppo_update : (it : ℕ) → Net → List (Transition F) → (adv returns : List F) → Result Net
  pub save : Net → Result {0} Unit

module _ {F : Type 0} ⦃d : Double F⦄ (lib : Library F) (torch : Trainer F) where
  -- The loop of `collect_rollout`, for so many steps more.
  unfoldable pub rollout :
      TradingEnv
      → torch.Net
      → (steps : ℕ) → List F
      → (draw : ℕ) → Trace F
      → List (Transition F) × Trace F
  rollout env net zero obs draw calls = ([], calls)
  rollout env net (suc steps) obs draw calls =
      let (logits, value) = torch.forward net obs in
      let action = torch.sample draw logits in
      let ((next_obs, rew, ended), calls') = step lib env action calls in
      let (obs', calls'') = if ended then reset lib env calls' else (next_obs, calls') in
      let (more, last) = rollout env net steps obs' (draw + 1) calls'' in
      let here : Transition F = record {
        obs = obs;
        action = action;
        logp = torch.log_prob logits action;
        rew = rew;
        val = value;
        done = if ended then d.one else d.nought;
      } in
      (here ∷ more, last)

  unfoldable pub collect_rollout :
      TradingEnv → torch.Net → (steps draw : ℕ) → Trace F → List (Transition F) × Trace F
  collect_rollout env net steps draw calls =
      let (obs, calls') = reset lib env calls in rollout env net steps obs draw calls'

  abbrev pub moment_of : Transition F → Moment F
  moment_of x = record { reward = x.rew; value = x.val; done = x.done }

  -- An iteration; the print of every tenth divides by the length of the rollout.
  unfoldable pub iteration :
      TradingEnv → (rollout_steps it : ℕ) → torch.Net → Trace F → Result (torch.Net) × Trace F
  iteration env rollout_steps it net calls =
      let (batch, calls') = collect_rollout env net rollout_steps (it * rollout_steps) calls in
      let moments = map moment_of batch in
      let adv = compute_gae (d.lit 99 100) (d.lit 95 100) moments in
      let updated = torch.ppo_update it net batch adv (returns adv moments) in
      (
        elim updated as (λ _. Result (torch.Net)) [
          | err e ↦ err e
          | ok net' ↦ if it % 10 == 0 && rollout_steps == 0 then err zero_division else ok net'
        ],
        calls',
      )

  -- The iterations left, from one on.
  unfoldable pub iterate :
      TradingEnv → (rollout_steps it left : ℕ) → torch.Net → Trace F → Result (torch.Net) × Trace F
  iterate env rollout_steps it zero net calls = (ok net, calls)
  iterate env rollout_steps it (suc left) net calls =
      let (r, calls') = iteration env rollout_steps it net calls in
      elim r as (λ _. Result (torch.Net) × Trace F) [
        | err e ↦ (err e, calls')
        | ok net' ↦ iterate env rollout_steps (it + 1) left net' calls'
      ]

  -- The parameters of the environment.
  abbrev pub train_params : (max_steps : ℕ) → List (Text × F)
  train_params max_steps =
      (codes "max_steps", d.lit max_steps 1)
      ∷ (codes "decision_lag", d.lit 2 1)
      ∷ (codes "fill_buffer_bps", d.lit 5 1)
      ∷ (codes "fee_rate", d.lit 1 1_000)
      ∷ []

  -- The checkpoint was saved or not; then the environment is freed.
  abbrev pub saved :
      TradingEnv → torch.Net → Trace F → Result {0} Unit → Result (torch.Net) × Trace F
  saved env net calls (err e) = (err e, calls)
  saved env net calls (ok _) = (ok net, (free_object (env.ptr) calls).1)

  abbrev pub finish : TradingEnv → Result (torch.Net) × Trace F → Result (torch.Net) × Trace F
  finish env (err e, calls) = (err e, calls)
  finish env (ok net, calls) = saved env net calls (torch.save net)

  -- The body of the `try` of `train`.
  unfoldable pub train_on :
      (data_ptr iterations rollout_steps max_steps hidden : ℕ)
      → Trace F
      → Result (torch.Net) × Trace F
  train_on data_ptr iterations rollout_steps max_steps hidden calls =
      let (r, ptr, calls') = make_env lib data_ptr (train_params max_steps) calls in
      let env = env_of lib ptr calls' in
      elim r as (λ _. Result (torch.Net) × Trace F) [
        | err e ↦ (err e, calls')
        | ok _ ↦ finish env (
            iterate env rollout_steps 0 iterations
              (torch.init (env.obs_size) (env.num_actions) hidden) calls')
      ]

  -- `train`; the data is freed however the body ends.
  unfoldable pub train :
      (data_path : Text) (iterations rollout_steps max_steps hidden : ℕ)
      → Trace F
      → Result (torch.Net) × Trace F
  train data_path iterations rollout_steps max_steps hidden calls =
      let (r, calls') = load_market_data lib data_path calls in
      elim r as (λ _. Result (torch.Net) × Trace F) [
        | err e ↦ (err e, calls')
        | ok data_ptr ↦
            let (r', calls'') =
              train_on data_ptr iterations rollout_steps max_steps hidden calls' in
            (r', (free_market_data data_ptr calls'').1)
      ]
