-- ===== src/Singleton/Startup.antt =====
-- core/alpaca_singleton.py: `enforce_live_singleton`, in the process of `World`.
use keel_trader.Base.{ℕ, Bool, true, false, Option, none, some, List, [], ◌∷◌, if◌then◌else◌}
use keel_trader.Base.Text.{Text, codes}
use keel_trader.Double.{Double}
use keel_trader.Outcome.{Error, ok, err, runtime_error, system_exit}
use keel_trader.Account.Lock.{acquire_account_lock}
use keel_trader.Singleton.State.{
  SingletonState, World, Action, Done, ◌>>◌, write_marker, paper_mode, singleton_override,
  lock_acquired, refusing_to_start, raise, pure, default_tolerance_bps, default_atr_tolerance_mult,
  default_buy_memory_seconds,
}
use keel_trader.Singleton.Guard.{any_env_flag}

abbrev pub singleton_override_vars : List Text
singleton_override_vars = codes "KEEL_SINGLETON_OVERRIDE" ∷ codes "ALPACA_SINGLETON_OVERRIDE" ∷ []

-- The handler of `except RuntimeError`: the refusal ends the process, other exceptions pass.
abbrev pub refusal : Error → Bool
refusal runtime_error = true
refusal _ = false

module _ {F : Type 0} ⦃d : Double F⦄ where
  abbrev pub new_state : Text → Option ℕ → SingletonState F
  new_state account lock = record {
    account_name = account;
    lock = lock;
    death_spiral_guard_enabled = true;
    death_spiral_tolerance_bps = default_tolerance_bps;
    atr_tolerance_mult = default_atr_tolerance_mult;
    buy_memory_seconds = default_buy_memory_seconds;
  }

  -- The state of a process that runs without the lock, if it has none yet.
  abbrev init_state : Text → Action F Done
  init_state account w = elim (w.state) [
    | some s ↦ (ok tt, w)
    | none ↦ (ok tt, record w { state = some (new_state account none) })
  ]

  -- The call of `acquire_alpaca_account_lock`, and the state that keeps its lock.
  unfoldable pub take_lock : Text → Text → Action F (Option ℕ)
  take_lock service account w =
      let (r, locks') = acquire_account_lock (w.state_dir) service account (w.locks) in
      let w' : World F = record w { locks = locks' } in
      elim r [
        | ok h ↦
            (write_marker lock_acquired >> λ v.
            (ok (some h), record v { state = some (new_state account (some h)) }))
              w'
        | err e ↦
            if refusal e
            then (write_marker refusing_to_start >> raise (system_exit 42)) w'
            else (err e, w')
      ]

  -- The handle of the lock, or `none` where the process needs none.
  unfoldable pub enforce_live_singleton : Text → Text → Bool → Action F (Option ℕ)
  unfolding take_lock
  enforce_live_singleton service account force_live w =
      if (if force_live then false else w.paper)
      then (write_marker paper_mode >> init_state account >> pure none) w
      else if any_env_flag singleton_override_vars (w.env)
      then (write_marker singleton_override >> init_state account >> pure none) w
      else take_lock service account w
