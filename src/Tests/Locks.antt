-- ===== src/Tests/Locks.antt =====
-- The locks of processes 7 and 8 on one account.
use keel_trader.Base.{ℕ, ◌≡◌, refl, true, false, none, some, [], ◌∷◌, ◌++◌}
use keel_trader.Base.Text.{Text, codes, has_char}
use keel_trader.Base.{◌↔◌}
use keel_trader.Double.Fixed.{Fixed, fixed_double}
use keel_trader.Outcome.{ok, err, system_exit}
use keel_trader.Account.Name.{
  normalize_account_name, lock_path_for_account, locks_part, lock_suffix,
}
use keel_trader.Account.Name.Safety.{lock_path_iff}
use keel_trader.Account.Lock.{Locks, AccountLock, acquire_account_lock, release}
use keel_trader.Account.Lock.Calls.{acquire_after_release}
use keel_trader.Account.Lock.Exclusion.{
  Machine, acquires, Reach, here, next, IsInitial, Holds, view, put, at_most_one_writer,
}
use keel_trader.Singleton.State.{World, refusing_to_start}
use keel_trader.Singleton.Startup.{enforce_live_singleton}
use keel_trader.Singleton.Live.{enforce_live_singleton-taken}
use keel_trader.Config.{env_truthy}
use keel_trader.Tests.Samples.{alone, proc, quiet, world}

abbrev dir : Text
dir = codes "/s"

abbrev account : Text
account = codes " Live Writer "

abbrev path : Text
path = codes "/s/account_locks/live_writer.lock"

path_of_account : lock_path_for_account dir account ≡ some path
unfolding lock_path_for_account normalize_account_name
path_of_account = refl

lock_path_iff_example :
    (lock_path_for_account dir (codes "LIVE_WRITER") ≡ some path
      ↔ normalize_account_name account ≡ normalize_account_name (codes "LIVE_WRITER"))
    × (n : Text) × (path ≡ dir ++ (locks_part ++ (n ++ lock_suffix)))
    × (has_char b'/' n ≡ false)
    × (has_char 92 n ≡ false)
lock_path_iff_example = lock_path_iff dir account (codes "LIVE_WRITER") path_of_account

abbrev server : Text
server = codes "server"

abbrev other : Text
other = codes "other"

abbrev taken_os : Locks
taken_os = record alone {
  os = record quiet { flocks = λ _. some (record { pid = 8; handle = 3 }) };
}

acquire_after_release_example :
    let l' = release 0 (acquire_account_lock dir server account alone).1 in
    (l'.os.flocks path ≡ none)
    × (l'.proc.held path ≡ none)
    × (release 0 l' ≡ l')
    × ((acquire_account_lock dir other account (record { proc = proc 8; os = l'.os })).0 ≡ ok 0)
acquire_after_release_example =
    acquire_after_release dir server other account alone (proc 8) path_of_account refl refl refl

-- Process 7 takes the lock, and process 8 tries.
abbrev start : Machine
start = record { procs = proc; os = quiet }

abbrev after_first : Machine
after_first = put start 7 (acquire_account_lock dir server account (view start 7)).1

abbrev after_second : Machine
after_second = put after_first 8 (acquire_account_lock dir other account (view after_first 8)).1

abbrev lock_of_7 : AccountLock
lock_of_7 = record {
  service_name = server;
  account_name = account;
  path = path;
  registry_key = path;
  released = false;
}

start-IsInitial : IsInitial start
start-IsInitial = record { pid_lem = λ p. refl; no_objects = λ p h. refl }

runs : Reach start after_second
runs = next (next here (acquires 7 dir server account refl)) (acquires 8 dir other account refl)

held_by_7 : Holds (view after_second 7) 0 lock_of_7
unfolding acquire_account_lock lock_path_for_account normalize_account_name
held_by_7 = (refl, refl)

at_most_one_writer_example : (◌≡◌ {A = ℕ} 7 7) × (◌≡◌ {A = ℕ} 0 0)
at_most_one_writer_example =
    at_most_one_writer 7 7 0 0 start-IsInitial runs held_by_7 held_by_7 refl

abbrev live_world : World Fixed
live_world = record world { paper = false }

abbrev stopped_world : World Fixed
stopped_world = record live_world { locks = taken_os }

enforce_live_singleton-taken_example :
    let (r, w') = enforce_live_singleton server account true stopped_world in
    (r ≡ err (system_exit 42))
    × (w'.locks.os ≡ stopped_world.locks.os)
    × (w'.state ≡ stopped_world.state)
    × (w'.markers ≡ stopped_world.markers ++ (refusing_to_start ∷ []))
unfolding env_truthy
enforce_live_singleton-taken_example =
    enforce_live_singleton-taken server account true stopped_world refl refl path_of_account refl
      (λ e. cc e)
