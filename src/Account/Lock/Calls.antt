-- ===== src/Account/Lock/Calls.antt =====
-- core/alpaca_account_lock.py: the calls of one process and of its neighbour.
use keel_trader.Base.{◌≡◌, ◌≢◌, none, some, arith}
use keel_trader.Base.Text.{Text, text_beq_iff, text_beq_refl}
use keel_trader.Outcome.{ok, err, runtime_error}
use keel_trader.Account.Name.{lock_path_for_account}
use keel_trader.Account.Lock.{Locks, Proc, holder, acquire_account_lock, release}

-- While nobody holds the lock at its path and the process has no entry for it, a service gets the
-- lock; asked again it gets the same handle and nothing changes, and another service of the same
-- process is refused with nothing changed.
pub acquire_reentrant :
    (dir service other account : Text) (l : Locks) {path : Text}
    → lock_path_for_account dir account ≡ some path
    → l.proc.held path ≡ none
    → l.os.flocks path ≡ none
    → service ≢ other
    → let (r, l') = acquire_account_lock dir service account l in
      (r ≡ ok (l.proc.next_handle))
      × (l'.os.flocks path ≡ some (holder l (l.proc.next_handle)))
      × (acquire_account_lock dir service account l' ≡ (r, l'))
      × (acquire_account_lock dir other account l' ≡ (err runtime_error, l'))
unfolding acquire_account_lock
acquire_reentrant dir service other account l {path} at_path unheld free differ =
    ground (arith, text_beq_refl path, text_beq_refl service, text_beq_iff service other)

-- While another open file holds the lock, a process with no entry for it is refused, and neither
-- the locks of the system nor its own registry and objects change.
pub acquire_contended :
    (dir service account : Text) (l : Locks) {path : Text}
    → lock_path_for_account dir account ≡ some path
    → l.proc.held path ≡ none
    → l.os.flocks path ≢ none
    → let (r, l') = acquire_account_lock dir service account l in
      (r ≡ err runtime_error)
      × (l'.os ≡ l.os)
      × (l'.proc.held ≡ l.proc.held)
      × (l'.proc.objects ≡ l.proc.objects)
unfolding acquire_account_lock
acquire_contended dir service account l at_path unheld taken = ground arith

-- Once the holder has released the lock, the path is free, a second release changes nothing, and
-- another process with no entry for the path gets the lock.
pub acquire_after_release :
    (dir service other account : Text) (l : Locks) (second : Proc) {path : Text}
    → lock_path_for_account dir account ≡ some path
    → l.proc.held path ≡ none
    → l.os.flocks path ≡ none
    → second.held path ≡ none
    → let h = l.proc.next_handle in
      let l' = release h (acquire_account_lock dir service account l).1 in
      (l'.os.flocks path ≡ none)
      × (l'.proc.held path ≡ none)
      × (release h l' ≡ l')
      × ((acquire_account_lock dir other account (record { proc = second; os = l'.os })).0
          ≡ ok (second.next_handle))
unfolding acquire_account_lock release
acquire_after_release dir service other account l second {path} at_path unheld free none_there =
    ground (arith, text_beq_refl path)
