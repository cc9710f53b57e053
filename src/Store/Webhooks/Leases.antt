-- ===== src/Store/Webhooks/Leases.antt =====
-- apps/control-plane/src/store.ts, `MemoryStore`: lemmas on a delivery under lease.
use guardianbot.Prelude.{
  String, ℕ, ◌≡◌, ◌<◌, ◌≢◌, ◌⊎◌, false, is_value, some, inl, true, inr, beq_of_ne, subst, sym,
  string_eq, refl, none, ap, ◌∙◌, leb, Option, arith, List, All, some-injective, lookup, ◌∷◌,
}
use guardianbot.Prelude.Js.{Dates, time_at_most, Collation}
use guardianbot.Store.Webhooks.{WebhookJob, leased, lease_over, is_eligible, is_claimable, Webhooks}
use guardianbot.Store.Webhooks.Calls.{
  Call, enqueues, claims, completes, fails, purges, queue_run, IsDated, queue_step,
}
use guardianbot.Store.Webhooks.Sound.{Lease, QueueSound}
use guardianbot.Store.Webhooks.Effect.{
  is_terminal, Effect, was_unchanged, was_enqueued, was_claimed, was_completed, was_failed,
  was_purged, queue_step-Effect,
}
use guardianbot.Store.Webhooks.Invariant.{queue_step-QueueSound}
use mathlib.Core.List.{[]}

-- A call that neither ends the lease of `worker` on `key` itself nor comes when the lease is over.
unfoldable pub IsForeign : String → String → ℕ → Call → Type 0
IsForeign key worker until (enqueues now delivery_id event_name payload) = Unit
IsForeign key worker until (claims now other lease_ms) = now < until
IsForeign key worker until (completes now delivery_id other) =
    (delivery_id ≢ key) ⊎ (other ≢ worker)
IsForeign key worker until (fails now delivery_id other error retry_at dead) =
    (delivery_id ≢ key) ⊎ (other ≢ worker)
IsForeign key worker until (purges succeeded_before dead_before limit) = Unit

module _ (dates : Dates) where
  not_empty : (text : String) (t : ℕ) → dates.parse text ≡ some t → text ≢ ""
  not_empty text t read e =
      let h : none ≡ some t = sym dates.parse_empty ∙ subst (λ x. dates.parse x ≡ some t) e read in
      cc

  -- Of an expiry that can be read, the test is the comparison of times.
  pub lease_over-read :
      (now : ℕ) (text : String) (t : ℕ)
      → dates.parse text ≡ some t
      → lease_over dates now (some text) ≡ leb t now
  unfolding lease_over time_at_most
  lease_over-read now text t read = rw (beq_of_ne text "" (not_empty text t read), read) refl

module _ (dates : Dates) (key : String) (job : WebhookJob) (held : job.status ≡ leased)
    (lease : Lease dates job) where
  not_over : (now : ℕ) → now < lease.until → lease_over dates now job.lease_expires_at ≡ false
  not_over now early =
      ap (lease_over dates now) lease.expires
      ∙ lease_over-read dates now lease.expiry lease.until lease.read
      ∙ ground arith

  not_eligible : (now : ℕ) → now < lease.until → is_eligible dates now job ≡ false
  unfolding is_eligible is_claimable
  not_eligible now early = rw (held, is_claimable, not_over now early) refl

  other_owner :
      (own worker : String)
      → (own ≢ key) ⊎ (worker ≢ lease.owner)
      → own ≡ key
      → is_value job.lease_owner worker ≡ false
  other_owner own worker (inl elsewhere) same = absurd (elsewhere same)
  other_owner own worker (inr other) same =
      rw lease.owned (beq_of_ne lease.owner worker (λ e. other (sym e)))

  foreign-unchanged :
      (call : Call) (after : Option WebhookJob)
      → IsForeign key lease.owner lease.until call
      → Effect dates key call (some job) after
      → after ≡ some job
  unfolding IsForeign is_terminal
  foreign-unchanged call after foreign (was_unchanged same) = same
  foreign-unchanged call after foreign (was_enqueued now name payload c b a) =
      let e : none ≡ some job = sym b in cc
  foreign-unchanged call after foreign (was_claimed now worker lease_ms old c b fits a) =
      let early : now < lease.until = subst (IsForeign key lease.owner lease.until) c foreign in
      let same : is_eligible dates now job ≡ true =
        subst (λ j. is_eligible dates now j ≡ true) (sym (some-injective job old b)) fits in
      let e : false ≡ true = sym (not_eligible now early) ∙ same in cc
  foreign-unchanged call after foreign (was_completed now worker old c b owned a) =
      let e : false ≡ true =
        sym (other_owner key worker (subst (IsForeign key lease.owner lease.until) c foreign) refl)
        ∙ subst (λ j. is_value j.lease_owner worker ≡ true) (sym (some-injective job old b))
            owned in
      cc
  foreign-unchanged call after foreign (was_failed now worker error at dead old c b owned a) =
      let e : false ≡ true =
        sym (other_owner key worker (subst (IsForeign key lease.owner lease.until) c foreign) refl)
        ∙ subst (λ j. is_value j.lease_owner worker ≡ true) (sym (some-injective job old b))
            owned in
      cc
  foreign-unchanged call after foreign (was_purged s d limit old c b over a) =
      let e : is_terminal leased ≡ true =
        subst (λ s. is_terminal s ≡ true) held
          (subst (λ j. is_terminal j.status ≡ true) (sym (some-injective job old b)) over) in
      cc

module _ (dates : Dates) (locale : Collation) (key : String) (job : WebhookJob)
    (held : job.status ≡ leased) (lease : Lease dates job) where
  -- A delivery under lease stays exactly as it was claimed, through any dated calls on a sound queue of
  -- which none claims at the lease's expiry or later and none is its own worker's completion or failure of
  -- it: until then no other worker is given the delivery, ends it or loses it.
  pub queue_run-lease_held :
      (calls : List Call) (webhooks : Webhooks)
      → All IsDated calls
      → All (IsForeign key lease.owner lease.until) calls
      → QueueSound dates webhooks
      → lookup key webhooks ≡ some job
      → lookup key (queue_run dates locale calls webhooks) ≡ some job
  unfolding queue_run
  queue_run-lease_held [] webhooks dated foreign queue found = found
  queue_run-lease_held (call ∷ calls) webhooks (now, later) (other, others) queue found =
      queue_run-lease_held calls _ later others
        (queue_step-QueueSound dates locale call webhooks now queue)
        (foreign-unchanged dates key job held lease call _ other (
          subst (λ o. Effect dates key call o (lookup key (queue_step dates locale call webhooks)))
            found (queue_step-Effect dates webhooks queue locale call key)))
