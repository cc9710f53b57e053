-- ===== src/Store/Locks/Own.antt =====
-- apps/control-plane/src/store.ts, `MemoryStore`: lemmas on a repository's lock under its own calls.
use guardianbot.Prelude.{
  refl, ℕ, List, includes, filter, ◌==◌, map, get_or_else, ◌≡◌, not, ◌++◌, lookup, true, ◌∷◌, ◌&&◌,
  nat_eq, [], arith, ◌||◌, false, Option, none, any, some, is_value, ◌∙◌, ap, lookup-insert_self,
  Bool, Bool-cases, inr, inl, lookup-delete_self, subst,
}
use guardianbot.Store.Locks.{
  is_handle, Handles, lock_step, granted_now, acquires, acquire_lock, releases, granted_next,
  release_lock, hand_over, shift_waiter, Locks,
}
use guardianbot.Store.Locks.Fifo.{
  fifo_acquire, filter-filter_same, includes-remove, fifo_next, holders_of, fifo_release,
  waiting_for, nat_beq_refl, FifoLock, Represents, includes-append, owner_list, any_holder,
}

module _ (r : ℕ) where
  -- A caller that finds the lock free owns it; one that finds it held is last in line.
  pub acquire-Represents :
      (t : ℕ) (s : Handles) (owner : Option ℕ) (line : List ℕ)
      → Represents r s (record { owner = owner; line = line })
      → Represents r (lock_step (acquires r t) s) (fifo_acquire t owner line)
  unfolding lock_step granted_now acquire_lock fifo_acquire holders_of waiting_for
  acquire-Represents t s none line h = rw h.locked (record {
    locked = includes-append s.locks.held r r ∙ rw (h.locked, nat_beq_refl r) refl;
    held_by = rw (nat_beq_refl r) (ap (λ ts. t ∷ ts) h.held_by);
    waits = h.waits;
    owned = (λ e. cc);
  })
  acquire-Represents t s (some o) line h = rw h.locked (record {
    locked = h.locked;
    held_by = h.held_by;
    waits =
        rw
          (lookup-insert_self r (get_or_else (lookup r s.locks.waiters) [] ++ t ∷ [])
            s.locks.waiters)
          (ap (λ ws. ws ++ t ∷ []) h.waits);
    owned = (λ e. cc);
  })

map-filter_tickets :
    (t : ℕ) (hs : List (ℕ × ℕ))
    → map (λ h. h.1) (filter (λ h. not (h.1 == t)) hs)
      ≡ filter (λ u. not (u == t)) (map (λ h. h.1) hs)
map-filter_tickets t [] = refl
map-filter_tickets t (h ∷ hs) = ground (arith, map-filter_tickets t hs)

module _ (r : ℕ) where
  -- The handles that are left when the owner's is released.
  left_handles : ℕ → List (ℕ × ℕ) → List (ℕ × ℕ)
  left_handles t hs = filter (λ handle. not (is_handle r t handle)) hs

  left_holders :
      (t o : ℕ) (hs : List (ℕ × ℕ))
      → map (λ h. h.1) (filter (λ h. h.0 == r) hs) ≡ o ∷ []
      → (o == t) ≡ true
      → map (λ h. h.1) (filter (λ h. h.0 == r) (left_handles t hs)) ≡ []
  unfolding left_handles
  left_holders t o hs held same =
      ap (map (λ h. h.1)) (filter-filter_same r t hs)
      ∙ map-filter_tickets t (filter (λ h. h.0 == r) hs)
      ∙ ap (filter (λ u. not (u == t))) held
      ∙ rw same refl

  freed : (xs : List ℕ) → includes (filter (λ q. not (q == r)) xs) r ≡ false
  freed xs = includes-remove xs r r ∙ rw (nat_beq_refl r) (and_false (includes xs r))
    where
      and_false : (b : Bool) → (b && false) ≡ false
      and_false b = ground arith

  -- The owner's release: the lock goes to the first in line, or is free.
  hand_over-Represents :
      (locks : Locks) (hs : List (ℕ × ℕ)) (found : Option (List ℕ))
      → lookup r locks.waiters ≡ found
      → includes locks.held r ≡ true
      → map (λ h. h.1) (filter (λ h. h.0 == r) hs) ≡ []
      → Represents r
          (granted_next r (hand_over r (shift_waiter r found locks)) hs)
          (fifo_next (get_or_else found []))
  unfolding granted_next hand_over shift_waiter fifo_next holders_of waiting_for
  hand_over-Represents locks hs none e held empty = record {
    locked = freed locks.held;
    held_by = empty;
    waits = rw e refl;
    owned = (λ o. refl);
  }
  hand_over-Represents locks hs (some []) e held empty = record {
    locked = freed locks.held;
    held_by = empty;
    waits = rw (lookup-delete_self r locks.waiters) refl;
    owned = (λ o. refl);
  }
  hand_over-Represents locks hs (some (next ∷ [])) e held empty = record {
    locked = held;
    held_by = rw (nat_beq_refl r) (ap (λ ts. next ∷ ts) empty);
    waits = rw (lookup-delete_self r locks.waiters) refl;
    owned = (λ o. refl);
  }
  hand_over-Represents locks hs (some (next ∷ later ∷ rest)) e held empty = record {
    locked = held;
    held_by = rw (nat_beq_refl r) (ap (λ ts. next ∷ ts) empty);
    waits = rw (lookup-insert_self r (later ∷ rest) locks.waiters) refl;
    owned = (λ o. cc);
  }

  owner_holds :
      (t : ℕ) (s : Handles) (lock : FifoLock)
      → Represents r s lock
      → any (is_handle r t) s.holders ≡ is_value lock.owner t
  unfolding holders_of
  owner_holds t s lock h =
      any_holder r t s.holders ∙ ap (any (λ u. u == t)) h.held_by ∙ one lock.owner
    where
      or_false : (b : Bool) → (b || false) ≡ b
      or_false b = ground arith

      one : (owner : Option ℕ) → any (λ u. u == t) (owner_list owner) ≡ is_value owner t
      one none = refl
      one (some o) = or_false (o == t)

  owner-release :
      (t : ℕ) (s : Handles) (owner : Option ℕ) (line : List ℕ)
      → Represents r s (record { owner = owner; line = line })
      → is_value owner t ≡ true
      → Represents r
          (granted_next r (release_lock r s.locks) (left_handles t s.holders))
          (fifo_next line)
  unfolding release_lock holders_of waiting_for
  owner-release t s none line h owns = let e : false ≡ true = owns in cc
  owner-release t s (some o) line h owns =
      subst
        (λ w.
          Represents r (granted_next r (release_lock r s.locks) (left_handles t s.holders))
            (fifo_next w))
        h.waits
        (hand_over-Represents s.locks (left_handles t s.holders) (lookup r s.locks.waiters) refl
          h.locked (left_holders t o s.holders h.held_by owns))

  pub release-Represents :
      (t : ℕ) (s : Handles) (lock : FifoLock)
      → Represents r s lock
      → Represents r (lock_step (releases r t) s) (fifo_release t lock)
  unfolding lock_step fifo_release left_handles
  release-Represents t s lock h = elim (Bool-cases (is_value lock.owner t)) [
    | inr foreign ↦ rw (owner_holds t s lock h, foreign) h
    | inl owns ↦ rw (owner_holds t s lock h, owns) (owner-release t s lock.owner lock.line h owns)
  ]
