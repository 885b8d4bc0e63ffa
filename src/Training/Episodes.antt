-- ===== src/Training/Episodes.antt =====
-- models/rl/train.py: how the rollouts drive the simulator.
use keel_trader.Base.{
  ℕ, zero, suc, ◌+◌, ◌≡◌, refl, ap, Bool, true, false, List, [], ◌∷◌, count, length, arith,
  Bool-cases, inl, inr, if◌then◌else◌, ◌==◌,
}
use keel_trader.Double.{Double}
use keel_trader.Simulator.{Call, reset_env, set_action, step_env, free_data, Trace, Library}
use keel_trader.Simulator.Drive.{
  TradingEnv, terminal, obs as observe, reset, step, is_ready, IsDriven,
}
use keel_trader.Training.Rollout.{Transition, Trainer, rollout, collect_rollout}

module _ {F : Type 0} where
  abbrev pub is_step : Call F → Bool
  is_step (step_env ptr) = true
  is_step _ = false

  abbrev pub is_reset : Call F → Bool
  is_reset (reset_env ptr) = true
  is_reset _ = false

  abbrev pub is_free_data : Call F → Bool
  is_free_data (free_data ptr) = true
  is_free_data _ = false

module _ {F : Type 0} ⦃d : Double F⦄ (lib : Library F) (torch : Trainer F) where
  -- The flags of a rollout, as its buffer holds them.
  abbrev pub Flags : List Bool → List (Transition F) → Type 0
  Flags [] [] = Unit
  Flags (b ∷ bs) (x ∷ xs) = (x.done ≡ (if b then d.one else d.nought)) × Flags bs xs
  Flags _ _ = ⊥

  -- The rest of a rollout that found an episode running.
  record IsRolled (env : TradingEnv) (steps : ℕ) (before : Trace F)
      (r : List (Transition F) × Trace F) : Type 0 where
    driven : IsDriven lib (r.1)
    ready : is_ready lib (env.ptr) (r.1) ≡ true
    entries : length (r.0) ≡ steps
    stepped : count is_step (r.1) ≡ count is_step before + steps
    freed : count is_free_data (r.1) ≡ count is_free_data before
    flags : List Bool
    flags_lem : Flags flags (r.0)
    resets : count is_reset (r.1) ≡ count is_reset before + count (λ b. b) flags

  rollout-IsRolled :
      (env : TradingEnv) (net : torch.Net) (steps : ℕ) (obs : List F) (draw : ℕ) (calls : Trace F)
      → IsDriven lib calls
      → is_ready lib (env.ptr) calls ≡ true
      → IsRolled env steps calls (rollout lib torch env net steps obs draw calls)
  unfolding rollout step reset
  rollout-IsRolled env net zero obs draw calls h k = record {
    driven = h;
    ready = k;
    entries = refl;
    stepped = omega arith;
    freed = refl;
    flags = [];
    flags_lem = tt;
    resets = omega arith;
  }
  rollout-IsRolled env net (suc steps) obs draw calls h k =
      let action = torch.sample draw ((torch.forward net obs).0) in
      let went = step_env (env.ptr) ∷ set_action (env.ptr) action ∷ calls in
      let again = reset_env (env.ptr) ∷ went in
      let self : (env.ptr == env.ptr) ≡ true = ground arith in
      let driven : IsDriven lib went = (ground arith, h) in
      elim (Bool-cases (terminal lib env went)) [
        | inl b ↦
            let rest =
              rollout-IsRolled env net steps (observe lib env again) (draw + 1) again driven self in
            rw (b, rollout)
              (record {
                driven = rest.driven;
                ready = rest.ready;
                entries = ap suc (rest.entries);
                stepped = omega (arith, rest.stepped);
                freed = rest.freed;
                flags = true ∷ rest.flags;
                flags_lem = (refl, rest.flags_lem);
                resets = omega (arith, rest.resets);
              })
        | inr b ↦
            let rest =
              rollout-IsRolled env net steps (observe lib env went) (draw + 1) went driven
                (ground arith) in
            rw (b, rollout)
              (record {
                driven = rest.driven;
                ready = rest.ready;
                entries = ap suc (rest.entries);
                stepped = omega (arith, rest.stepped);
                freed = rest.freed;
                flags = false ∷ rest.flags;
                flags_lem = (refl, rest.flags_lem);
                resets = omega (arith, rest.resets);
              })
      ]

  -- A rollout, once it has ended: the buffers have an entry for each step asked for, the simulator
  -- has been stepped as often, and reset once at the start and once more for each entry marked as
  -- done; every step found an episode that runs.
  pub record IsCollected (env : TradingEnv) (steps : ℕ) (before : Trace F)
      (r : List (Transition F) × Trace F) : Type 0 where
    pub driven : IsDriven lib (r.1)
    pub entries : length (r.0) ≡ steps
    pub stepped : count is_step (r.1) ≡ count is_step before + steps
    pub freed : count is_free_data (r.1) ≡ count is_free_data before
    pub flags : List Bool
    pub flags_lem : Flags flags (r.0)
    pub resets : count is_reset (r.1) ≡ suc (count is_reset before) + count (λ b. b) flags

  pub collect_rollout-IsCollected :
      (env : TradingEnv) (net : torch.Net) (steps draw : ℕ) (calls : Trace F)
      → IsDriven lib calls
      → IsCollected env steps calls (collect_rollout lib torch env net steps draw calls)
  unfolding collect_rollout reset
  collect_rollout-IsCollected env net steps draw calls h =
      let again = reset_env (env.ptr) ∷ calls in
      let rest =
        rollout-IsRolled env net steps (observe lib env again) draw again h (ground arith) in
      record {
        driven = rest.driven;
        entries = rest.entries;
        stepped = rest.stepped;
        freed = rest.freed;
        flags = rest.flags;
        flags_lem = rest.flags_lem;
        resets = rest.resets;
      }
