-- ===== src/Singleton/Live.antt =====
-- core/alpaca_singleton.py: starting up, in paper mode, with a free lock and with a taken one.
use keel_trader.Base.{
  ◌≡◌, ◌≢◌, Bool, true, false, none, some, [], ◌∷◌, ◌++◌, arith, if◌then◌else◌, is_some,
}
use keel_trader.Base.Text.{Text, text_beq_refl}
use keel_trader.Double.{Double}
use keel_trader.Outcome.{ok, err, system_exit}
use keel_trader.Account.Name.{lock_path_for_account}
use keel_trader.Account.Lock.{holder, acquire_account_lock}
use keel_trader.Singleton.State.{World, refusing_to_start}
use keel_trader.Singleton.Guard.{any_env_flag}
use keel_trader.Singleton.Startup.{enforce_live_singleton, singleton_override_vars, new_state}

module _ {F : Type 0} ⦃d : Double F⦄ where
  -- In paper mode, unless live is forced, starting up takes no lock: it succeeds with no handle,
  -- every lock stays as it was, and there is a singleton state afterwards.
  pub enforce_live_singleton-paper :
      (service account : Text) (w : World F)
      → w.paper ≡ true
      → let (r, w') = enforce_live_singleton service account false w in
        (r ≡ ok none) × (w'.locks ≡ w.locks) × (is_some (w'.state) ≡ true) × (w'.filled ≡ w.filled)
  unfolding enforce_live_singleton
  enforce_live_singleton-paper service account w paper = ground arith

  -- Live and with no override, the first start of a process on an account whose lock is free gets
  -- the lock: the system's table names the process, and its state keeps the handle.
  pub enforce_live_singleton-free :
      (service account : Text) (force_live : Bool) (w : World F) {path : Text}
      → (if force_live then false else w.paper) ≡ false
      → any_env_flag singleton_override_vars (w.env) ≡ false
      → lock_path_for_account (w.state_dir) account ≡ some path
      → w.locks.proc.held path ≡ none
      → w.locks.os.flocks path ≡ none
      → let (r, w') = enforce_live_singleton service account force_live w in
        let h = w.locks.proc.next_handle in
        (r ≡ ok (some h))
        × (w'.locks.os.flocks path ≡ some (holder (w.locks) h))
        × (w'.state ≡ some (new_state account (some h)))
  unfolding enforce_live_singleton acquire_account_lock
  enforce_live_singleton-free service account force_live w {path} live strict at_path unheld free =
      ground (arith, text_beq_refl path)

  -- Live and with no override, a process that finds the lock taken by any open file of another
  -- holder is stopped by exit code 42: its state and the system's locks are as before, and the
  -- refusal is the last line of its log.
  pub enforce_live_singleton-taken :
      (service account : Text) (force_live : Bool) (w : World F) {path : Text}
      → (if force_live then false else w.paper) ≡ false
      → any_env_flag singleton_override_vars (w.env) ≡ false
      → lock_path_for_account (w.state_dir) account ≡ some path
      → w.locks.proc.held path ≡ none
      → w.locks.os.flocks path ≢ none
      → let (r, w') = enforce_live_singleton service account force_live w in
        (r ≡ err (system_exit 42))
        × (w'.locks.os ≡ w.locks.os)
        × (w'.state ≡ w.state)
        × (w'.markers ≡ w.markers ++ (refusing_to_start ∷ []))
  unfolding enforce_live_singleton acquire_account_lock
  enforce_live_singleton-taken service account force_live w {path} live strict at_path unheld
        taken =
      ground arith
