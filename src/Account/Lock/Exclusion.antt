-- ===== src/Account/Lock/Exclusion.antt =====
-- core/alpaca_account_lock.py: many processes over one table of locks.
use keel_trader.Base.{
  ℕ, ◌+◌, ◌<◌, ◌≡◌, ◌≢◌, refl, false, Option, none, some, arith, nat_eq, if◌then◌else◌, ◌==◌,
  ==_iff, Option-cases, Bool-cases, inl, inr,
}
use keel_trader.Base.Text.{Text, text_eq, text_beq_iff, text_beq_refl}
use keel_trader.Account.Lock.{
  Locks, Proc, Os, AccountLock, Holder, write, open_and_lock, acquire_at, active_held_lock,
  acquire_account_lock, release,
}
use keel_trader.Account.Name.{lock_path_for_account}

pub record Machine : Type 0 where
  pub procs : ℕ → Proc
  pub os : Os

-- What the process `p` sees, and the machine once a call of `p` has left `l`.
abbrev pub view : Machine → ℕ → Locks
view m p = record { proc = m.procs p; os = m.os }

abbrev pub put : Machine → ℕ → Locks → Machine
put m p l = record { procs = write (m.procs) p (l.proc); os = l.os }

-- The kernel drops the locks of a process that ends; its objects and registry are gone.
abbrev drop_locks : ℕ → (Text → Option Holder) → Text → Option Holder
drop_locks p f path = elim (f path) [ none ↦ none | some w ↦ if w.pid == p then none else some w ]

abbrev pub end_process : ℕ → Locks → Locks
end_process p l = record {
  proc = record (l.proc) { objects = λ _. none; held = λ _. none };
  os = record (l.os) { flocks = drop_locks p (l.os.flocks) };
}

-- One step of some process.
pub data Step (m n : Machine) : Type 0 where
  acquires :
      (p : ℕ) (dir service account : Text)
      → n ≡ put m p (acquire_account_lock dir service account (view m p)).1
      → Step m n
  releases : (p h : ℕ) → n ≡ put m p (release h (view m p)) → Step m n
  ends : (p : ℕ) → n ≡ put m p (end_process p (view m p)) → Step m n

pub data Reach (s : Machine) : Machine → Type 0 where
  here : Reach s s
  next : {t u : Machine} → Reach s t → Step t u → Reach s u

-- The machine at the start: nobody holds a lock.
pub record IsInitial (m : Machine) : Type 0 where
  pub pid_lem : (p : ℕ) → (m.procs p).pid ≡ p
  pub no_objects : (p h : ℕ) → (m.procs p).objects h ≡ none

-- The process has a live lock object: it believes that it is the writer of the path.
abbrev pub Holds : Locks → ℕ → AccountLock → Type 0
Holds l h lock = (l.proc.objects h ≡ some lock) × (lock.released ≡ false)

-- What every process keeps: its live locks are those that the system has given it, and the
-- handles that it has not yet given out have no object.
pub record IsSound (p : ℕ) (l : Locks) : Type 0 where
  pub is_pid : l.proc.pid ≡ p
  pub backed :
      (h : ℕ) (lock : AccountLock)
      → Holds l h lock
      → l.os.flocks (lock.path) ≡ some (record { pid = p; handle = h })
  pub fresh : (h : ℕ) → l.proc.next_handle < h + 1 → l.proc.objects h ≡ none

-- What a call of process `p` leaves to the others: their locks stay.
abbrev pub KeepsOthers : ℕ → Os → Os → Type 0
KeepsOthers p os os' =
    (path : Text) (w : Holder) → os.flocks path ≡ some w → w.pid ≢ p → os'.flocks path ≡ some w

open_and_lock-IsSound :
    (p : ℕ) (service account path : Text) (l : Locks)
    → IsSound p l
    → IsSound p (open_and_lock service account path l).1
unfolding open_and_lock
open_and_lock-IsSound p service account path l s = record {
  is_pid = ground (arith, s.is_pid);
  backed = λ h lock holds.
      ground (arith, s.is_pid, s.backed h lock, text_beq_iff (lock.path) path, text_beq_refl path);
  fresh = λ h lt. ground (arith, s.fresh h);
}

open_and_lock-KeepsOthers :
    (p : ℕ) (service account path : Text) (l : Locks)
    → KeepsOthers p (l.os) ((open_and_lock service account path l).1.os)
unfolding open_and_lock
open_and_lock-KeepsOthers p service account path l at w e ne = ground (arith, text_beq_iff at path)

active_held_lock-IsSound :
    (p : ℕ) (path : Text) (l : Locks) → IsSound p l → IsSound p (active_held_lock path l).1
unfolding active_held_lock
active_held_lock-IsSound p path l s = record {
  is_pid = ground (arith, s.is_pid);
  backed = λ h lock holds. ground (arith, s.is_pid, s.backed h lock);
  fresh = λ h lt. ground (arith, s.fresh h);
}

active_held_lock-os : (path : Text) (l : Locks) → (active_held_lock path l).1.os ≡ l.os
unfolding active_held_lock
active_held_lock-os path l = ground arith

acquire_at-IsSound :
    (p : ℕ) (service account path : Text) (l : Locks)
    → IsSound p l
    → IsSound p (acquire_at service account path l).1
unfolding acquire_at
acquire_at-IsSound p service account path l s =
    let (existing, l') = active_held_lock path l in
    elim (Option-cases (active_held_lock path l).0) [
      | inl e ↦
          rw (e, acquire_at)
            (open_and_lock-IsSound p service account path (active_held_lock path l).1
              (active_held_lock-IsSound p path l s))
      | inr (h, e) ↦ rw (e, acquire_at) (active_held_lock-IsSound p path l s)
    ]

acquire-IsSound :
    (p : ℕ) (dir service account : Text) (l : Locks)
    → IsSound p l
    → IsSound p (acquire_account_lock dir service account l).1
unfolding acquire_account_lock
acquire-IsSound p dir service account l s =
    elim (Option-cases (lock_path_for_account dir account)) [
      | inl e ↦ rw (e, acquire_account_lock) s
      | inr (path, e) ↦ rw (e, acquire_account_lock) (acquire_at-IsSound p service account path l s)
    ]

acquire-KeepsOthers :
    (p : ℕ) (dir service account : Text) (l : Locks)
    → KeepsOthers p (l.os) ((acquire_account_lock dir service account l).1.os)
unfolding acquire_account_lock
acquire-KeepsOthers p dir service account l at w e ne =
    elim (Option-cases (lock_path_for_account dir account)) [
      | inl no_path ↦ ground arith
      | inr (path, has_path) ↦ ground (arith, text_beq_iff at path)
    ]

release-IsSound : (p h : ℕ) (l : Locks) → IsSound p l → IsSound p (release h l)
unfolding release
release-IsSound p h l s = elim (Option-cases (l.proc.objects h)) [
  | inl e ↦ rw (e, release) s
  | inr (x, e) ↦ record {
    is_pid = ground (arith, s.is_pid);
    backed = λ g lock holds.
        ground (arith, s.is_pid, s.backed g lock, text_beq_iff (lock.path) (x.path), ==_iff g h);
    fresh = λ g lt. ground (arith, s.fresh g);
  }
]

release-KeepsOthers :
    (p h : ℕ) (l : Locks) → l.proc.pid ≡ p → KeepsOthers p (l.os) ((release h l).os)
unfolding release
release-KeepsOthers p h l is_pid at w e ne = elim (Option-cases (l.proc.objects h)) [
  | inl none_there ↦ ground arith
  | inr (x, there) ↦ ground (arith, text_beq_iff at (x.path))
]

end_process-IsSound : (p : ℕ) (l : Locks) → IsSound p l → IsSound p (end_process p l)
end_process-IsSound p l s = record {
  is_pid = s.is_pid;
  backed = λ h lock holds. cc (holds.0);
  fresh = λ h lt. refl;
}

end_process-KeepsOthers : (p : ℕ) (l : Locks) → KeepsOthers p (l.os) ((end_process p l).os)
end_process-KeepsOthers p l at w e ne = ground (arith, ==_iff (w.pid) p)

-- Another process stays sound when its own locks stay.
other-IsSound :
    (p q : ℕ) (proc : Proc) (os os' : Os)
    → q ≢ p
    → KeepsOthers p os os'
    → IsSound q (record { proc = proc; os = os })
    → IsSound q (record { proc = proc; os = os' })
other-IsSound p q proc os os' ne keeps s = record {
  is_pid = s.is_pid;
  backed = λ h lock holds. keeps (lock.path) _ (s.backed h lock holds) ne;
  fresh = s.fresh;
}

abbrev pub AllSound : Machine → Type 0
AllSound m = (q : ℕ) → IsSound q (view m q)

-- A call of `p` that keeps `p` sound and the locks of the others keeps the machine sound.
put-AllSound :
    (m : Machine) (p : ℕ) (l : Locks)
    → AllSound m
    → IsSound p l
    → KeepsOthers p (m.os) (l.os)
    → AllSound (put m p l)
put-AllSound m p l all s keeps q = elim (Bool-cases (q == p)) [
  | inl e ↦ rw e (rw ((==_iff q p).0 e) s)
  | inr e ↦
      rw e (
        other-IsSound p q (m.procs q) (m.os) (l.os) (λ eq. ground (arith, ==_iff q p)) keeps
          (all q))
]

Step-AllSound : {m n : Machine} → Step m n → AllSound m → AllSound n
Step-AllSound {m} (acquires p dir service account e) all = rw e (
    put-AllSound m p _ all (acquire-IsSound p dir service account (view m p) (all p))
      (acquire-KeepsOthers p dir service account (view m p)))
Step-AllSound {m} (releases p h e) all = rw e (
    put-AllSound m p _ all (release-IsSound p h (view m p) (all p))
      (release-KeepsOthers p h (view m p) ((all p).is_pid)))
Step-AllSound {m} (ends p e) all = rw e (
    put-AllSound m p _ all (end_process-IsSound p (view m p) (all p))
      (end_process-KeepsOthers p (view m p)))

Reach-AllSound : {m n : Machine} → AllSound m → Reach m n → AllSound n
Reach-AllSound all here = all
Reach-AllSound all (next r st) = Step-AllSound st (Reach-AllSound all r)

IsInitial-AllSound : {m : Machine} → IsInitial m → AllSound m
IsInitial-AllSound {m} i q = record {
  is_pid = i.pid_lem q;
  backed = λ h lock holds. cc (holds.0, i.no_objects q h);
  fresh = λ h lt. i.no_objects q h;
}

-- However processes acquire, release and end from a start with no lock, two live lock objects
-- for one path are the same object of the same process: a path has at most one writer.
pub at_most_one_writer :
    {m n : Machine} (p q g h : ℕ) {a b : AccountLock}
    → IsInitial m
    → Reach m n
    → Holds (view n p) g a
    → Holds (view n q) h b
    → a.path ≡ b.path
    → (p ≡ q) × (g ≡ h)
at_most_one_writer {n = n} p q g h {a} {b} i r ha hb same_path =
    let all = Reach-AllSound (IsInitial-AllSound i) r in
    ground (arith, (all p).backed g a ha, (all q).backed h b hb)
