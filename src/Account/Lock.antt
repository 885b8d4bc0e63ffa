-- ===== src/Account/Lock.antt =====
-- core/alpaca_account_lock.py: `acquire_alpaca_account_lock` and `AlpacaAccountLock.release`.
-- The locks of the operating system (`flock`) are a table from paths to the open file that holds
-- the exclusive lock, known by its process and a number that the process gives out once. The
-- in-process registry and the lock objects are tables of the process. A call runs with
-- `_HELD_LOCKS_LOCK` held, so it is one step. The directory of the locks can be created and
-- written to, and the paths are their own resolved form.
pub mod Calls
pub mod Exclusion
use keel_trader.Base.{
  ℕ, ◌+◌, Bool, true, false, not, ◌&&◌, Option, none, some, Eq, same, nat_eq, if◌then◌else◌, ◌==◌,
}
use keel_trader.Base.Text.{Text, text_eq}
use keel_trader.Config.{Env, env_truthy}
use keel_trader.Outcome.{Result, ok, err, runtime_error, value_error}
use keel_trader.Account.Name.{lock_path_for_account}

-- A finite table as a function, and a write to it.
abbrev pub write : {K : Type 0} {V : Type 0} ⦃e : Eq K⦄ → (K → V) → K → V → K → V
write f k v j = if same j k then v else f j

-- Who holds a lock: the process and its open file.
abbrev pub Holder : Type 0
Holder = record { pid : ℕ; handle : ℕ }

pub record AccountLock : Type 0 where
  pub service_name : Text
  pub account_name : Text
  pub path : Text
  pub registry_key : Text
  pub released : Bool

-- What the holder writes into the file; the rest of the payload is not read by a decision.
pub record Payload : Type 0 where
  pub service_name : Text
  pub account_name : Text
  pub pid : ℕ

pub record Os : Type 0 where
  pub flocks : Text → Option Holder
  pub content : Text → Option Payload

pub record Proc : Type 0 where
  pub pid : ℕ
  pub next_handle : ℕ
  -- the lock objects by the number of their handle
  pub objects : ℕ → Option AccountLock
  -- `_HELD_LOCKS`
  pub held : Text → Option ℕ

-- What a call in one process reads and writes.
pub record Locks : Type 0 where
  pub proc : Proc
  pub os : Os

abbrev pub holder : Locks → ℕ → Holder
holder l h = record { pid = l.proc.pid; handle = h }

abbrev pub with_held : Locks → (Text → Option ℕ) → Locks
with_held l t = record l { proc = record (l.proc) { held = t } }

-- `_active_held_lock`: a released object is dropped from the registry.
pub active_held_lock : Text → Locks → Option (ℕ × AccountLock) × Locks
active_held_lock key l = elim (l.proc.held key) [
  | none ↦ (none, l)
  | some h ↦ elim (l.proc.objects h) [
    | none ↦ (none, l)
    | some lock ↦
        if lock.released
        then (none, with_held l (write (l.proc.held) key none))
        else (some (h, lock), l)
  ]
]

-- The part of `acquire_alpaca_account_lock` that opens the file and takes the lock.
pub open_and_lock : Text → Text → Text → Locks → Result ℕ × Locks
open_and_lock service account path l =
    let h = l.proc.next_handle in
    let opened : Proc = record (l.proc) { next_handle = h + 1 } in
    elim (l.os.flocks path) [
      | some _ ↦ (err runtime_error, record l { proc = opened })
      | none ↦ (
        ok h,
        record {
          proc = record opened {
            objects = write (l.proc.objects) h (
                some (record {
                  service_name = service;
                  account_name = account;
                  path = path;
                  registry_key = path;
                  released = false;
                }));
            held = write (l.proc.held) path (some h);
          };
          os = record {
            flocks = write (l.os.flocks) path (some (holder l h));
            content = write (l.os.content) path (
                some (record { service_name = service; account_name = account; pid = l.proc.pid }));
          };
        },
      )
    ]

-- `acquire_alpaca_account_lock` at a path.
pub acquire_at : Text → Text → Text → Locks → Result ℕ × Locks
unfolding active_held_lock open_and_lock
acquire_at service account path l =
    let (existing, l') = active_held_lock path l in
    elim existing [
      | some (h, lock) ↦ (if same (lock.service_name) service then ok h else err runtime_error, l')
      | none ↦ open_and_lock service account path l'
    ]

unfoldable pub acquire_account_lock : Text → Text → Text → Locks → Result ℕ × Locks
unfolding acquire_at
acquire_account_lock state_dir service account l = elim (lock_path_for_account state_dir account) [
  | none ↦ (err value_error, l)
  | some path ↦ acquire_at service account path l
]

abbrev same_holder : Holder → Holder → Bool
same_holder a b = (a.pid == b.pid) && (a.handle == b.handle)

-- `flock(fd, LOCK_UN)` and `close`: the table forgets the lock if this open file holds it.
pub unlock : Os → Text → Holder → Os
unlock os path who = elim (os.flocks path) [
  | none ↦ os
  | some w ↦ if same_holder w who then record os { flocks = write (os.flocks) path none } else os
]

-- `AlpacaAccountLock.release`, on the object with handle `h`.
unfoldable pub release : ℕ → Locks → Locks
unfolding unlock
release h l = elim (l.proc.objects h) [
  | none ↦ l
  | some lock ↦
      if lock.released
      then l
      else let gone : AccountLock = record lock { released = true } in
        let unregistered : Text → Option ℕ = elim (l.proc.held (lock.registry_key)) [
          | none ↦ l.proc.held
          | some g ↦ if g == h then write (l.proc.held) (lock.registry_key) none else l.proc.held
        ] in
        record {
          proc = record (l.proc) {
            objects = write (l.proc.objects) h (some gone);
            held = unregistered;
          };
          os = unlock (l.os) (lock.path) (holder l h);
        }
]

-- `require_explicit_live_trading_enable`
unfoldable pub require_explicit_live_trading_enable : Env → Text → Result {0} Unit
require_explicit_live_trading_enable env env_var =
    if env_truthy (env env_var) then ok tt else err runtime_error
