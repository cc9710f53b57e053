-- ===== src/Store/Locks.antt =====
-- apps/control-plane/src/store.ts, `MemoryStore`: the locks. `acquireOnboardingIssueLock` and
-- `acquireFindingLifecycleLock` are one code on two sets of fields; a caller is known by its ticket.
pub mod Fifo
pub mod Own
pub mod Orderly
use guardianbot.Prelude.{
  List, ℕ, [], Bool, if◌then◌else◌, includes, Option, ◌==◌, ◌∷◌, any, false, insert, filter, lookup,
  ◌&&◌, true, some, get_or_else, none, not, nat_eq, ◌++◌, delete,
}
use mathlib.Core.Option.{none}

-- The fields of one kind of lock: the repositories that are locked, and who waits for each.
pub record Locks : Type 0 where
  pub held : List ℕ
  pub waiters : List (ℕ × List ℕ)

-- The start of `acquire...Lock`: the caller has the lock at once, or its promise waits in line.
unfoldable pub acquire_lock : ℕ → ℕ → Locks → Bool × Locks
acquire_lock repository ticket locks =
    if includes locks.held repository
    then (
      false,
      record locks {
        waiters =
            insert repository (get_or_else (lookup repository locks.waiters) [] ++ ticket ∷ [])
              locks.waiters;
      },
    )
    else (true, record locks { held = locks.held ++ repository ∷ [] })

-- `waiters?.shift()`, with the entry deleted when its list has become empty
unfoldable pub shift_waiter : ℕ → Option (List ℕ) → Locks → Option ℕ × Locks
shift_waiter repository none locks = (none, locks)
shift_waiter repository (some []) locks =
    (none, record locks { waiters = delete repository locks.waiters })
shift_waiter repository (some (next ∷ [])) locks =
    (some next, record locks { waiters = delete repository locks.waiters })
shift_waiter repository (some (next ∷ later ∷ rest)) locks =
    (some next, record locks { waiters = insert repository (later ∷ rest) locks.waiters })

-- `next ? next() : locks.delete(repositoryId)`: the ticket whose promise is resolved
unfoldable pub hand_over : ℕ → Option ℕ × Locks → Option ℕ × Locks
hand_over repository (none, locks) =
    (none, record locks { held = filter (λ r. not (r == repository)) locks.held })
hand_over repository (some next, locks) = (some next, locks)

-- `release` of a handle that is not released yet
unfoldable pub release_lock : ℕ → Locks → Option ℕ × Locks
unfolding shift_waiter hand_over
release_lock repository locks =
    hand_over repository (shift_waiter repository (lookup repository locks.waiters) locks)

-- The locks with the handles that callers hold, those of granted locks that are not released yet.
pub record Handles : Type 0 where
  pub locks : Locks
  pub holders : List (ℕ × ℕ)

pub data LockCall : Type 0 where
  acquires : (repository ticket : ℕ) → LockCall
  releases : (repository ticket : ℕ) → LockCall

unfoldable pub is_handle : ℕ → ℕ → ℕ × ℕ → Bool
is_handle repository ticket handle = handle.0 == repository && handle.1 == ticket

unfoldable pub granted_now : ℕ → ℕ → Bool × Locks → List (ℕ × ℕ) → Handles
granted_now repository ticket (granted, locks) holders = record {
  locks = locks;
  holders = if granted then (repository, ticket) ∷ holders else holders;
}

unfoldable pub granted_next : ℕ → Option ℕ × Locks → List (ℕ × ℕ) → Handles
granted_next repository (none, locks) holders = record { locks = locks; holders = holders }
granted_next repository (some next, locks) holders = record {
  locks = locks;
  holders = (repository, next) ∷ holders;
}

-- A release of a handle that is not held, since it is released already, does nothing.
unfoldable pub lock_step : LockCall → Handles → Handles
unfolding acquire_lock release_lock is_handle granted_now granted_next
lock_step (acquires repository ticket) s =
    granted_now repository ticket (acquire_lock repository ticket s.locks) s.holders
lock_step (releases repository ticket) s =
    if any (is_handle repository ticket) s.holders
    then granted_next repository (release_lock repository s.locks)
        (filter (λ handle. not (is_handle repository ticket handle)) s.holders)
    else s

unfoldable pub lock_run : List LockCall → Handles → Handles
unfolding lock_step
lock_run [] s = s
lock_run (call ∷ calls) s = lock_run calls (lock_step call s)

abbrev pub no_locks : Handles
no_locks = record { locks = record { held = []; waiters = [] }; holders = [] }

-- `acquireMonitoringLock`: the one lock, which is refused while it is held
unfoldable pub acquire_monitoring_lock : Bool → Bool × Bool
acquire_monitoring_lock held = if held then (false, true) else (true, true)
