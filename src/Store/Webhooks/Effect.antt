-- ===== src/Store/Webhooks/Effect.antt =====
-- apps/control-plane/src/store.ts, `MemoryStore`: lemmas on what one call does to one delivery.
use guardianbot.Store.Webhooks.Deletion.{delete_jobs-cases}
use guardianbot.Prelude.{
  refl, Bool, String, true, false, Option, lookup, ℕ, ◌≡◌, none, Option-cases, some, inr, inl,
  Bool-cases, ◌==◌, is_value, subst, insert, string_eq, sym, lookup-insert_self, mem-filter_inv,
  values, first-sort_mem, All, All-mem, All-sort, Result, All-members, ◌>>=◌, ok, err,
}
use guardianbot.Store.Webhooks.{
  JobStatus, Webhooks, enqueue_webhook, WebhookJob, succeeded, dead_letter, is_eligible,
  claimed_job, completed_job, failed_job, new_job, update_owned, complete_webhook, fail_webhook,
  next_eligible, claim_webhook, claim_first, claim_before, pending, leased,
}
use guardianbot.Prelude.Js.{Dates, Fields, Collation, Number}
use guardianbot.Store.Webhooks.Calls.{
  queue_step, Call, enqueues, claims, completes, fails, after_purge, purges,
}
use guardianbot.Prelude.Keys.{lookup-insert_ne, ne_of_beq}
use guardianbot.Store.Webhooks.Sound.{QueueSound, lookup_of_value}
use guardianbot.Store.Webhooks.Purge.{
  is_purgeable, purge_candidates, purge_within, purge_terminal_webhook_jobs, purge_before,
  PurgeError, checked_purge_limit,
}
use guardianbot.Prelude.Distinct.{All-take}

unfoldable pub is_terminal : JobStatus → Bool
is_terminal succeeded = true
is_terminal dead_letter = true
is_terminal _ = false

-- What a call does to the job under a key, from the job before to the job after.
pub data Effect (dates : Dates) (key : String) (call : Call) (before after : Option WebhookJob)
    : Type 0 where
  was_unchanged : after ≡ before → Effect dates key call before after
  was_enqueued :
      (now : ℕ) (event_name : String) (payload : Fields)
      → call ≡ enqueues now key event_name payload
      → before ≡ none
      → after ≡ some (new_job dates now key event_name payload)
      → Effect dates key call before after
  was_claimed :
      (now : ℕ) (worker : String) (lease_ms : ℕ) (job : WebhookJob)
      → call ≡ claims now worker lease_ms
      → before ≡ some job
      → is_eligible dates now job ≡ true
      → after ≡ some (claimed_job dates now worker lease_ms job)
      → Effect dates key call before after
  was_completed :
      (now : ℕ) (worker : String) (job : WebhookJob)
      → call ≡ completes now key worker
      → before ≡ some job
      → is_value job.lease_owner worker ≡ true
      → after ≡ some (completed_job dates now job)
      → Effect dates key call before after
  was_failed :
      (now : ℕ) (worker error : String) (retry_at : Option ℕ) (dead : Bool) (job : WebhookJob)
      → call ≡ fails now key worker error retry_at dead
      → before ≡ some job
      → is_value job.lease_owner worker ≡ true
      → after ≡ some (failed_job dates now error retry_at dead job)
      → Effect dates key call before after
  was_purged :
      (succeeded_before dead_before : ℕ) (limit : Number) (job : WebhookJob)
      → call ≡ purges succeeded_before dead_before limit
      → before ≡ some job
      → is_terminal job.status ≡ true
      → after ≡ none
      → Effect dates key call before after

module _ (dates : Dates) (webhooks : Webhooks) where
  -- A write of one job, or its deletion, has the effect that it has on the job's own key.
  write-Effect :
      (call : Call) (own key : String) (job : WebhookJob)
      → Effect dates own call (lookup own webhooks) (some job)
      → Effect dates key call (lookup key webhooks) (lookup key (insert own job webhooks))
  write-Effect call own key job h = elim (Bool-cases (own == key)) [
    | inr differ ↦ was_unchanged (lookup-insert_ne own key job webhooks (ne_of_beq own key differ))
    | inl same ↦
        subst (λ k. Effect dates k call (lookup k webhooks) (lookup k (insert own job webhooks)))
          ((string_eq.beq_iff own key).0 same)
          (subst (Effect dates own call (lookup own webhooks))
            (sym (lookup-insert_self own job webhooks)) h)
  ]

  owned-Effect :
      (call : Call) (own key worker : String) (change : WebhookJob → WebhookJob)
      → ((job : WebhookJob)
          → lookup own webhooks ≡ some job
          → is_value job.lease_owner worker ≡ true
          → Effect dates own call (lookup own webhooks) (some (change job)))
      → Effect dates key call
          (lookup key webhooks)
          (lookup key (update_owned worker change own (lookup own webhooks) webhooks))
  unfolding update_owned
  owned-Effect call own key worker change h = elim (Option-cases (lookup own webhooks)) [
    | inl missing ↦ rw (missing, update_owned) (was_unchanged refl)
    | inr (job, found) ↦
        rw (found, update_owned)
          (elim (Bool-cases (is_value job.lease_owner worker)) [
            | inl owned ↦ rw owned (write-Effect call own key (change job) (h job found owned))
            | inr other ↦ rw other (was_unchanged refl)
          ])
  ]

  enqueue-Effect :
      (now : ℕ) (own event_name : String) (payload : Fields) (key : String)
      → Effect dates key
          (enqueues now own event_name payload)
          (lookup key webhooks)
          (lookup key (enqueue_webhook dates now own event_name payload webhooks).1)
  unfolding enqueue_webhook
  enqueue-Effect now own event_name payload key = elim (Option-cases (lookup own webhooks)) [
    | inr (job, found) ↦ rw (found, enqueue_webhook) (was_unchanged refl)
    | inl missing ↦
        rw (missing, enqueue_webhook)
          (write-Effect _ own key _ (was_enqueued now event_name payload refl missing refl))
  ]

  complete-Effect :
      (now : ℕ) (own worker : String) (key : String)
      → Effect dates key
          (completes now own worker)
          (lookup key webhooks)
          (lookup key (complete_webhook dates now own worker webhooks))
  unfolding complete_webhook
  complete-Effect now own worker key =
      owned-Effect _ own key worker _
        λ job found owned. was_completed now worker job refl found owned refl

  fail-Effect :
      (now : ℕ) (own worker error : String) (retry_at : Option ℕ) (dead : Bool) (key : String)
      → Effect dates key
          (fails now own worker error retry_at dead)
          (lookup key webhooks)
          (lookup key (fail_webhook dates now own worker error retry_at dead webhooks))
  unfolding fail_webhook
  fail-Effect now own worker error retry_at dead key =
      owned-Effect _ own key worker _
        λ job found owned. was_failed now worker error retry_at dead job refl found owned refl

module _ (dates : Dates) (locale : Collation) (webhooks : Webhooks)
    (queue : QueueSound dates webhooks) where
  -- The job that is was_claimed is one of the queue's, eligible, under its own key.
  pub next_eligible_lem :
      (now : ℕ) (job : WebhookJob)
      → next_eligible dates now locale webhooks ≡ some job
      → (lookup job.delivery_id webhooks ≡ some job) × (is_eligible dates now job ≡ true)
  unfolding next_eligible
  next_eligible_lem now job h =
      let (inside, fits) =
        mem-filter_inv (is_eligible dates now) (values webhooks)
          (first-sort_mem (claim_before dates locale) _ job h) in
      (lookup_of_value dates job webhooks queue inside, fits)

  claim-Effect :
      (now : ℕ) (worker : String) (lease_ms : ℕ) (key : String)
      → Effect dates key
          (claims now worker lease_ms)
          (lookup key webhooks)
          (lookup key (claim_webhook dates now locale worker lease_ms webhooks).1)
  unfolding claim_webhook claim_first
  claim-Effect now worker lease_ms key =
      elim (Option-cases (next_eligible dates now locale webhooks)) [
        | inl idle ↦ rw (idle, claim_webhook) (was_unchanged refl)
        | inr (job, next) ↦
            let (found, fits) = next_eligible_lem now job next in
            rw (next, claim_webhook)
              (write-Effect dates webhooks _ job.delivery_id key _
                (was_claimed now worker lease_ms job refl found fits refl))
      ]

module _ (dates : Dates) where
  is_purgeable-terminal :
      (s d : ℕ) (status : JobStatus) (job : WebhookJob)
      → is_purgeable dates s d status job ≡ true
      → is_terminal status ≡ true
  unfolding is_purgeable is_terminal
  is_purgeable-terminal s d succeeded job h = refl
  is_purgeable-terminal s d dead_letter job h = refl
  is_purgeable-terminal s d pending job h = cc
  is_purgeable-terminal s d leased job h = cc

module _ (dates : Dates) (webhooks : Webhooks) (queue : QueueSound dates webhooks) where
  purge_candidates-terminal :
      (s d limit : ℕ)
      → All
          (λ job. (lookup job.delivery_id webhooks ≡ some job) × (is_terminal job.status ≡ true))
          (purge_candidates dates s d limit webhooks)
  unfolding purge_candidates
  purge_candidates-terminal s d limit =
      All-take (λ job. job.delivery_id) _ limit _
        ((All-sort (purge_before dates) _ _).0 (
          All-members _ _ λ job inside.
            let (there, fits) = mem-filter_inv _ (values webhooks) inside in
            (
              lookup_of_value dates job webhooks queue there,
              is_purgeable-terminal dates s d job.status job fits,
            )))

  purge_within-Effect :
      (asked : Number) (s d limit : ℕ) (key : String)
      → Effect dates key
          (purges s d asked)
          (lookup key webhooks)
          (lookup key (purge_within dates s d limit webhooks).1)
  unfolding purge_within
  purge_within-Effect asked s d limit key =
      elim (delete_jobs-cases key (purge_candidates dates s d limit webhooks) webhooks) [
        | inl same ↦ was_unchanged same
        | inr (job, inside, own, gone) ↦
            let (found, over) = All-mem _ _ (purge_candidates-terminal s d limit) inside in
            was_purged s d asked job refl (subst (λ k. lookup k webhooks ≡ some job) own found) over
              gone
      ]

  purge-Effect :
      (s d : ℕ) (limit : Number) (key : String)
      → Effect dates key
          (purges s d limit)
          (lookup key webhooks)
          (lookup key (after_purge (purge_terminal_webhook_jobs dates s d limit webhooks) webhooks))
  unfolding after_purge purge_terminal_webhook_jobs
  purge-Effect s d limit key = go (checked_purge_limit limit)
    where
      go :
          (checked : Result PurgeError ℕ)
          → Effect dates key (purges s d limit) (lookup key webhooks) (
              lookup key
                (after_purge (checked >>= λ n. ok (purge_within dates s d n webhooks)) webhooks))
      go (ok n) = purge_within-Effect limit s d n key
      go (err e) = was_unchanged refl

  -- What a call does to each delivery of a sound queue.
  pub queue_step-Effect :
      (locale : Collation) (call : Call) (key : String)
      → Effect dates key call
          (lookup key webhooks)
          (lookup key (queue_step dates locale call webhooks))
  unfolding queue_step
  queue_step-Effect locale (enqueues now own event_name payload) key =
      enqueue-Effect dates webhooks now own event_name payload key
  queue_step-Effect locale (claims now worker lease_ms) key =
      claim-Effect dates locale webhooks queue now worker lease_ms key
  queue_step-Effect locale (completes now own worker) key =
      complete-Effect dates webhooks now own worker key
  queue_step-Effect locale (fails now own worker error retry_at dead) key =
      fail-Effect dates webhooks now own worker error retry_at dead key
  queue_step-Effect locale (purges s d limit) key = purge-Effect s d limit key
