-- ===== src/Store/Webhooks/Oldest.antt =====
-- apps/control-plane/src/store.ts, `MemoryStore.claimWebhook`: lemmas on which delivery is claimed.
use guardianbot.Prelude.{
  refl, ℕ, Bool, String, ◌≡◌, ltb, some, false, true, lookup, ◌||◌, nat_beq, arith, ◌∙◌, Option,
  sym, values, Option-cases, ◌&&◌, and_iff, All-mem, inl, first-sort_least_among, ◌≢◌, none, filter,
  inr, string_eq, All-filter, mem-filter, some-injective, lookup-insert_self, ap, ◌⊎◌, ◌<◌, ◌+◌,
}
use guardianbot.Prelude.Js.{Dates, Collation, time_at_most}
use guardianbot.Store.Webhooks.{
  WebhookJob, leased, claim_before, is_eligible, next_eligible, is_available, Webhooks,
  claim_webhook, claim_first, claimed_job,
}
use mathlib.Core.List.{Memᴰ}
use guardianbot.Store.Webhooks.Sound.{QueueSound}
use mathlib.Core.Option.{none}
use guardianbot.Store.Webhooks.Effect.{next_eligible_lem}
use guardianbot.Prelude.Keys.{lookup-insert_ne}
use guardianbot.Store.Webhooks.Due.{IsDue, eligible-IsDue, IsDue-eligible}

module _ (dates : Dates) (now : ℕ) (locale : Collation) where
  -- A job whose availability can be read.
  HasTime : WebhookJob → Type 0
  HasTime job = (t : ℕ) × (dates.parse job.available_at ≡ some t)

  by_time : ℕ → ℕ → Bool → Bool
  by_time l r by_id = ltb l r || (nat_beq l r && by_id)

  claim_before-time :
      (a b : WebhookJob) (s t : ℕ)
      → dates.parse a.available_at ≡ some s
      → dates.parse b.available_at ≡ some t
      → claim_before dates locale a b ≡ by_time s t (locale.collate a.delivery_id b.delivery_id)
  unfolding claim_before by_time
  claim_before-time a b s t p q = rw (p, q) refl

  by_time_total :
      (s t : ℕ) (x y : Bool) → (x ≡ false → y ≡ true) → by_time s t x ≡ false → by_time t s y ≡ true
  unfolding by_time
  by_time_total s t x y h k = ground (arith, h, k)

  by_time_trans :
      (s t u : ℕ) (x y z : Bool)
      → (x ≡ true → y ≡ true → z ≡ true)
      → by_time s t x ≡ true
      → by_time t u y ≡ true
      → by_time s u z ≡ true
  unfolding by_time
  by_time_trans s t u x y z h k l = ground (arith, h, k, l)

  claim_before_total :
      (a b : WebhookJob)
      → HasTime a
      → HasTime b
      → claim_before dates locale a b ≡ false
      → claim_before dates locale b a ≡ true
  unfolding HasTime
  claim_before_total a b (s, p) (t, q) h =
      claim_before-time b a t s q p
      ∙ by_time_total s t _ _ (locale.collate_total a.delivery_id b.delivery_id)
          (sym (claim_before-time a b s t p q) ∙ h)

  claim_before_trans :
      (a b c : WebhookJob)
      → HasTime a
      → HasTime b
      → HasTime c
      → claim_before dates locale a b ≡ true
      → claim_before dates locale b c ≡ true
      → claim_before dates locale a c ≡ true
  unfolding HasTime
  claim_before_trans a b c (s, p) (t, q) (u, r) h k =
      claim_before-time a c s u p r
      ∙ by_time_trans s t u _ _ _ (locale.collate_trans a.delivery_id b.delivery_id c.delivery_id)
          (sym (claim_before-time a b s t p q) ∙ h) (sym (claim_before-time b c t u q r) ∙ k)

  eligible-HasTime : (job : WebhookJob) → is_eligible dates now job ≡ true → HasTime job
  unfolding HasTime is_eligible is_available
  eligible-HasTime job fits = readable (dates.parse job.available_at) ((and_iff _ _).0 fits).1
    where
      readable : (o : Option ℕ) → time_at_most o now ≡ true → (t : ℕ) × (o ≡ some t)
      readable none h = let e : false ≡ true = unfold time_at_most in h in cc
      readable (some t) h = (t, refl)

  -- Of the eligible deliveries the one that is claimed was available first, and of those available at the
  -- same time it comes first by id.
  next_eligible_least :
      (webhooks : Webhooks) (job : WebhookJob)
      → next_eligible dates now locale webhooks ≡ some job
      → (other : WebhookJob) → Memᴰ other (values webhooks)
      → is_eligible dates now other ≡ true
      → claim_before dates locale job other ≡ true
  unfolding next_eligible
  next_eligible_least webhooks job next other inside fits =
      All-mem _ _
        (first-sort_least_among (claim_before dates locale) HasTime claim_before_total
          claim_before_trans (filter (is_eligible dates now) (values webhooks)) job
          (All-filter HasTime _ (values webhooks) (λ a m. eligible-HasTime a)) next)
        (mem-filter _ (values webhooks) inside fits)

by_time-earlier :
    (s t : ℕ) (by_id : Bool)
    → (ltb s t || (nat_beq s t && by_id)) ≡ true
    → (s < t) ⊎ ((s ≡ t) × (by_id ≡ true))
by_time-earlier s t by_id h = ground (arith, h)

module _ (dates : Dates) (now : ℕ) (locale : Collation) (worker : String) (lease_ms : ℕ) where
  -- What a claim promises of the job it gives out, on the queue that it found.
  pub record Granted (webhooks : Webhooks) (given : WebhookJob) : Type 0 where
    pub job : WebhookJob
    pub found : lookup job.delivery_id webhooks ≡ some job
    pub due : IsDue dates now job
    -- Every other job that a claim may take became available later, or then and has a later id.
    pub oldest :
        (other : WebhookJob)
        → Memᴰ other (values webhooks)
        → IsDue dates now other
        → (s t : ℕ) → dates.parse job.available_at ≡ some s
        → dates.parse other.available_at ≡ some t
        → (s < t) ⊎ ((s ≡ t) × (locale.collate job.delivery_id other.delivery_id ≡ true))
    pub leased_to : given ≡ record job {
      status = leased;
      attempts = job.attempts + 1;
      lease_owner = some worker;
      lease_expires_at = some (dates.to_iso (now + lease_ms));
      updated_at = some (dates.to_iso now);
    }
    pub recorded :
        lookup job.delivery_id (claim_webhook dates now locale worker lease_ms webhooks).1
        ≡ some given
    pub alone :
        (key : String)
        → key ≢ job.delivery_id
        → lookup key (claim_webhook dates now locale worker lease_ms webhooks).1
          ≡ lookup key webhooks

  -- A claim on a sound queue gives out a delivery that waits, or whose lease is over or has no end, and that is
  -- available: the one that became available first, by id where several did. It records exactly that delivery as
  -- leased to the worker until the lease's end with one more attempt, and leaves every other delivery as it was.
  pub claim-Granted :
      (webhooks : Webhooks) (given : WebhookJob)
      → QueueSound dates webhooks
      → (claim_webhook dates now locale worker lease_ms webhooks).0 ≡ some given
      → Granted webhooks given
  unfolding claim_webhook claim_first by_time claimed_job
  claim-Granted webhooks given queue h =
      elim (Option-cases (next_eligible dates now locale webhooks)) [
        | inl idle ↦ let e : none ≡ some given = rw (idle, claim_webhook) at h in cc
        | inr (job, next) ↦
            let (found, fits) = next_eligible_lem dates locale webhooks queue now job next in
            let same : claimed_job dates now worker lease_ms job ≡ given =
              some-injective _ given (rw (next, claim_webhook) at h) in
            record {
              job = job;
              found = found;
              due = eligible-IsDue dates now job fits;
              oldest = λ other inside may s t p q. by_time-earlier s t _ (
                  sym (claim_before-time dates now locale job other s t p q)
                  ∙ next_eligible_least dates now locale webhooks job next other inside
                      (IsDue-eligible dates now other may));
              leased_to = sym same;
              recorded =
                  rw (next, claim_webhook)
                    (lookup-insert_self job.delivery_id _ webhooks ∙ ap some same);
              alone = λ key ne.
                  rw (next, claim_webhook)
                    (lookup-insert_ne job.delivery_id key _ webhooks (λ e. ne (sym e)));
            }
      ]
