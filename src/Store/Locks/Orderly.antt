-- ===== src/Store/Locks/Orderly.antt =====
-- apps/control-plane/src/store.ts, `MemoryStore`: lemmas on the locks of all repositories.
use guardianbot.Prelude.{
  refl, ℕ, List, includes, filter, ◌≢◌, ◌==◌, map, get_or_else, ◌≡◌, not, ◌++◌, lookup, true, ◌∷◌,
  ◌&&◌, nat_eq, [], arith, ◌||◌, false, Option, none, any, some, ◌∙◌, ap, Bool, Bool-cases, inr,
  inl, sym, subst, beq_of_ne,
}
use guardianbot.Store.Locks.{
  is_handle, Handles, LockCall, lock_step, granted_now, acquires, acquire_lock, releases,
  granted_next, release_lock, hand_over, shift_waiter, Locks, lock_run, no_locks,
}
use guardianbot.Prelude.Keys.{lookup-insert_ne, lookup-delete_ne}
use guardianbot.Store.Locks.Fifo.{
  holders_of, includes-remove, FifoLock, fifo_step, fifo_run, Represents, waiting_for,
  filter-filter_other, fifo_acquire, fifo_release, includes-append, fifo_next, ne_of_nat_beq,
  nat_beq_refl,
}
use guardianbot.Store.Locks.Own.{acquire-Represents, release-Represents}

-- A call on another repository.
module _ (r q : ℕ) (ne : q ≢ r) where
  other_beq : (q == r) ≡ false
  other_beq = beq_of_ne q r ne

  acquire-other :
      (t : ℕ) (s : Handles) (lock : FifoLock)
      → Represents r s lock
      → Represents r (lock_step (acquires q t) s) lock
  unfolding lock_step acquire_lock granted_now holders_of waiting_for
  acquire-other t s lock h = elim (Bool-cases (includes s.locks.held q)) [
    | inl held ↦ rw held (record {
      locked = h.locked;
      held_by = h.held_by;
      waits =
          ap (λ o. get_or_else o [])
            (lookup-insert_ne q r (get_or_else (lookup q s.locks.waiters) [] ++ t ∷ [])
              s.locks.waiters ne)
          ∙ h.waits;
      owned = h.owned;
    })
    | inr free ↦ rw free (record {
      locked = includes-append s.locks.held q r ∙ rw other_beq (or_false _) ∙ h.locked;
      held_by = rw other_beq h.held_by;
      waits = h.waits;
      owned = h.owned;
    })
  ]
    where
      or_false : (b : Bool) → (b || false) ≡ b
      or_false b = ground arith

  dropped : (xs : List ℕ) → includes (filter (λ p. not (p == q)) xs) r ≡ includes xs r
  dropped xs = includes-remove xs q r ∙ rw other_beq (and_true _)
    where
      and_true : (b : Bool) → (b && true) ≡ b
      and_true b = ground arith

  -- The parts of the state that the lock of `r` is read from.
  record SameFor (before after : Locks) : Type 0 where
    same_held : includes after.held r ≡ includes before.held r
    same_line : lookup r after.waiters ≡ lookup r before.waiters

  shift-same :
      (found : Option (List ℕ)) (locks : Locks)
      → SameFor locks (hand_over q (shift_waiter q found locks)).1
  unfolding hand_over shift_waiter
  shift-same none locks = record { same_held = dropped locks.held; same_line = refl }
  shift-same (some []) locks = record {
    same_held = dropped locks.held;
    same_line = lookup-delete_ne q r locks.waiters ne;
  }
  shift-same (some (next ∷ [])) locks = record {
    same_held = refl;
    same_line = lookup-delete_ne q r locks.waiters ne;
  }
  shift-same (some (next ∷ later ∷ rest)) locks = record {
    same_held = refl;
    same_line = lookup-insert_ne q r (later ∷ rest) locks.waiters ne;
  }

  granted_next-other :
      (result : Option ℕ × Locks) (hs : List (ℕ × ℕ)) (s : Handles) (lock : FifoLock)
      → Represents r s lock
      → SameFor s.locks result.1
      → filter (λ h. h.0 == r) hs ≡ filter (λ h. h.0 == r) s.holders
      → Represents r (granted_next q result hs) lock
  unfolding granted_next holders_of waiting_for
  granted_next-other (none, locks) hs s lock h same left = record {
    locked = same.same_held ∙ h.locked;
    held_by = ap (map (λ h. h.1)) left ∙ h.held_by;
    waits = ap (λ o. get_or_else o []) same.same_line ∙ h.waits;
    owned = h.owned;
  }
  granted_next-other (some next, locks) hs s lock h same left = record {
    locked = same.same_held ∙ h.locked;
    held_by = rw other_beq (ap (map (λ h. h.1)) left ∙ h.held_by);
    waits = ap (λ o. get_or_else o []) same.same_line ∙ h.waits;
    owned = h.owned;
  }

  release-other :
      (t : ℕ) (s : Handles) (lock : FifoLock)
      → Represents r s lock
      → Represents r (lock_step (releases q t) s) lock
  unfolding lock_step release_lock
  release-other t s lock h = elim (Bool-cases (any (is_handle q t) s.holders)) [
    | inr gone ↦ rw gone h
    | inl held ↦ rw held (
        granted_next-other (hand_over q (shift_waiter q (lookup q s.locks.waiters) s.locks)) _ s
          lock h (shift-same (lookup q s.locks.waiters) s.locks)
          (filter-filter_other q r t s.holders ne))
  ]

module _ (r : ℕ) where
  lock_step-Represents :
      (call : LockCall) (s : Handles) (lock : FifoLock)
      → Represents r s lock
      → Represents r (lock_step call s) (fifo_step r call lock)
  unfolding fifo_step
  lock_step-Represents (acquires q t) s lock h = elim (Bool-cases (q == r)) [
    | inl same ↦ rw same (
        subst (λ p. Represents r (lock_step (acquires p t) s) (fifo_acquire t lock.owner lock.line))
          (sym ((nat_eq.beq_iff q r).0 same)) (acquire-Represents r t s lock.owner lock.line h))
    | inr differ ↦ rw differ (acquire-other r q (ne_of_nat_beq q r differ) t s lock h)
  ]
  lock_step-Represents (releases q t) s lock h = elim (Bool-cases (q == r)) [
    | inl same ↦ rw same (
        subst (λ p. Represents r (lock_step (releases p t) s) (fifo_release t lock))
          (sym ((nat_eq.beq_iff q r).0 same)) (release-Represents r t s lock h))
    | inr differ ↦ rw differ (release-other r q (ne_of_nat_beq q r differ) t s lock h)
  ]

  lock_run_from-Represents :
      (calls : List LockCall) (s : Handles) (lock : FifoLock)
      → Represents r s lock
      → Represents r (lock_run calls s) (fifo_run r calls lock)
  unfolding lock_run fifo_run
  lock_run_from-Represents [] s lock h = h
  lock_run_from-Represents (call ∷ calls) s lock h =
      lock_run_from-Represents calls _ _ (lock_step-Represents call s lock h)

  -- Through any acquisitions and releases, by any callers and on any repositories, the sets and maps of the
  -- store stand for one lock of each repository that is handed on in the order of arrival: at most one
  -- handle is held, the repository counts as locked exactly while one is, those who wait are in the line,
  -- and nobody waits for a lock that is free.
  pub lock_run-Represents :
      (calls : List LockCall)
      → Represents r
          (lock_run calls no_locks)
          (fifo_run r calls (record { owner = none; line = [] }))
  lock_run-Represents calls = lock_run_from-Represents calls no_locks _ (record {
    locked = refl;
    held_by = unfold holders_of in refl;
    waits = unfold waiting_for in refl;
    owned = (λ e. refl);
  })

-- The calls by which the owner and those who stand in front of a caller release in turn.
abbrev pub in_turn : ℕ → List ℕ → List LockCall
in_turn r = map (λ t. releases r t)

fifo_step-served :
    (r o next : ℕ) (line : List ℕ)
    → fifo_step r (releases r o) (record { owner = some o; line = next ∷ line })
      ≡ record { owner = some next; line = line }
unfolding fifo_step fifo_release fifo_next
fifo_step-served r o next line = rw (nat_beq_refl r, nat_beq_refl o) refl

fifo_run-served :
    (r o next : ℕ) (ahead behind : List ℕ)
    → fifo_run r (in_turn r (o ∷ ahead)) (record { owner = some o; line = ahead ++ next ∷ behind })
      ≡ record { owner = some next; line = behind }
unfolding fifo_run
fifo_run-served r o next [] behind = fifo_step-served r o next behind
fifo_run-served r o next (a ∷ ahead) behind =
    ap (fifo_run r (in_turn r (a ∷ ahead))) (fifo_step-served r o a (ahead ++ next ∷ behind))
    ∙ fifo_run-served r a next ahead behind

-- Nobody waits for ever: a caller in line, whoever came after it, holds the lock alone once the owner and
-- those in front of it have released in turn, and those behind it keep their order.
pub lock_run-served :
    (r o next : ℕ) (ahead behind : List ℕ) (s : Handles)
    → Represents r s (record { owner = some o; line = ahead ++ next ∷ behind })
    → let after = lock_run (in_turn r (o ∷ ahead)) s in
      (holders_of r after ≡ next ∷ []) × (waiting_for r after ≡ behind)
lock_run-served r o next ahead behind s h =
    let served =
      subst (Represents r (lock_run (in_turn r (o ∷ ahead)) s))
        (fifo_run-served r o next ahead behind)
        (lock_run_from-Represents r (in_turn r (o ∷ ahead)) s _ h) in
    (served.held_by, served.waits)
