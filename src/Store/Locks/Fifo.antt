-- ===== src/Store/Locks/Fifo.antt =====
-- apps/control-plane/src/store.ts, `MemoryStore`: the lock of one repository as a line of callers, and how
-- the store's fields stand for it.
use guardianbot.Prelude.{
  refl, ℕ, List, includes, filter, ◌≢◌, ◌==◌, map, get_or_else, ◌≡◌, not, ◌++◌, lookup, true, ◌∷◌,
  ◌&&◌, nat_eq, [], arith, ◌||◌, false, Option, none, is_some, any, if◌then◌else◌, some, is_value,
  ◌∙◌, sym,
}
use guardianbot.Store.Locks.{is_handle, Handles, LockCall, acquires, releases}

-- The tickets that hold the lock of a repository, and those that wait for it.
unfoldable pub holders_of : ℕ → Handles → List ℕ
holders_of repository s = map (λ h. h.1) (filter (λ h. h.0 == repository) s.holders)

unfoldable pub waiting_for : ℕ → Handles → List ℕ
waiting_for repository s = get_or_else (lookup repository s.locks.waiters) []

-- The lock of one repository as its callers see it: who owns it, and who is next in line.
pub record FifoLock : Type 0 where
  pub owner : Option ℕ
  pub line : List ℕ

unfoldable pub fifo_acquire : ℕ → Option ℕ → List ℕ → FifoLock
fifo_acquire ticket none line = record { owner = some ticket; line = line }
fifo_acquire ticket (some t) line = record { owner = some t; line = line ++ ticket ∷ [] }

unfoldable pub fifo_next : List ℕ → FifoLock
fifo_next [] = record { owner = none; line = [] }
fifo_next (next ∷ line) = record { owner = some next; line = line }

unfoldable pub fifo_release : ℕ → FifoLock → FifoLock
unfolding fifo_next
fifo_release ticket lock = if is_value lock.owner ticket then fifo_next lock.line else lock

-- What a call on some repository does to the lock of this one.
unfoldable pub fifo_step : ℕ → LockCall → FifoLock → FifoLock
unfolding fifo_acquire fifo_release
fifo_step repository (acquires other ticket) lock =
    if other == repository then fifo_acquire ticket lock.owner lock.line else lock
fifo_step repository (releases other ticket) lock =
    if other == repository then fifo_release ticket lock else lock

unfoldable pub fifo_run : ℕ → List LockCall → FifoLock → FifoLock
unfolding fifo_step
fifo_run repository [] lock = lock
fifo_run repository (call ∷ calls) lock = fifo_run repository calls (fifo_step repository call lock)

abbrev pub owner_list : Option ℕ → List ℕ
owner_list none = []
owner_list (some t) = t ∷ []

-- The sets and maps of the store stand for that lock: one handle is held exactly while it has an owner, and
-- nobody waits for a lock that nobody owns.
pub record Represents (repository : ℕ) (s : Handles) (lock : FifoLock) : Type 0 where
  pub locked : includes s.locks.held repository ≡ is_some lock.owner
  pub held_by : holders_of repository s ≡ owner_list lock.owner
  pub waits : waiting_for repository s ≡ lock.line
  pub owned : lock.owner ≡ none → lock.line ≡ []

pub includes-append :
    (xs : List ℕ) (a b : ℕ) → includes (xs ++ a ∷ []) b ≡ (includes xs b || (a == b))
includes-append [] a b = ground arith
includes-append (x ∷ xs) a b = ground (arith, includes-append xs a b)

pub includes-remove :
    (xs : List ℕ) (a b : ℕ)
    → includes (filter (λ r. not (r == a)) xs) b ≡ (includes xs b && not (a == b))
includes-remove [] a b = refl
includes-remove (x ∷ xs) a b = ground (arith, includes-remove xs a b)

pub nat_beq_refl : (n : ℕ) → (n == n) ≡ true
nat_beq_refl n = (nat_eq.beq_iff n n).1 refl

pub ne_of_nat_beq : (a b : ℕ) → (a == b) ≡ false → a ≢ b
ne_of_nat_beq a b differ e = let h : true ≡ false = sym ((nat_eq.beq_iff a b).1 e) ∙ differ in cc

pub filter-filter_same :
    (r t : ℕ) (hs : List (ℕ × ℕ))
    → filter (λ h. h.0 == r) (filter (λ h. not (is_handle r t h)) hs)
      ≡ filter (λ h. not (h.1 == t)) (filter (λ h. h.0 == r) hs)
unfolding is_handle
filter-filter_same r t [] = refl
filter-filter_same r t (h ∷ hs) = ground (arith, filter-filter_same r t hs)

pub filter-filter_other :
    (r q t : ℕ) (hs : List (ℕ × ℕ))
    → r ≢ q
    → filter (λ h. h.0 == q) (filter (λ h. not (is_handle r t h)) hs) ≡ filter (λ h. h.0 == q) hs
unfolding is_handle
filter-filter_other r q t [] ne = refl
filter-filter_other r q t (h ∷ hs) ne = ground (arith, ne, filter-filter_other r q t hs ne)

pub any_holder :
    (r t : ℕ) (hs : List (ℕ × ℕ))
    → any (is_handle r t) hs ≡ any (λ u. u == t) (map (λ h. h.1) (filter (λ h. h.0 == r) hs))
unfolding is_handle
any_holder r t [] = refl
any_holder r t (h ∷ hs) = ground (arith, any_holder r t hs)
