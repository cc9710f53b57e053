-- ===== src/Store/Webhooks/Invariant.antt =====
-- apps/control-plane/src/store.ts, `MemoryStore`: lemmas on the well-formed queue of deliveries under each
-- call.
use guardianbot.Prelude.{
  refl, List, String, Option, ℕ, All, ◌≡◌, is_value, Bool, ◌+◌, true, ◌<◌, some, ◌∷◌, [], inl, ◌≤◌,
  false, and_iff, Bool-cases, leb_iff, arith, subst, sym, ◌∙◌, is_some, inr, string_eq,
  some-injective, lookup, Result, ◌>>=◌, ok, err, if◌then◌else◌, insert,
}
use guardianbot.Prelude.Js.{Dates, time_at_most, Collation, Fields}
use guardianbot.Store.Webhooks.Purge.{
  delete_jobs, purge_terminal_webhook_jobs, purge_within, PurgeError, checked_purge_limit,
  purge_candidates,
}
use guardianbot.Store.Webhooks.{
  update_owned, new_job, is_claimable, claimed_job, completed_job, failed_job, is_eligible,
  WebhookJob, is_available, Webhooks, enqueue_webhook, JobStatus, claim_webhook, claim_first,
  complete_webhook, pending, fail_webhook, leased, succeeded, dead_letter, next_eligible,
}
use guardianbot.Store.Webhooks.Calls.{
  IsDated, Call, after_purge, enqueues, claims, completes, fails, purges, queue_step, queue_run,
}
use guardianbot.Store.Webhooks.Sound.{is_dead, QueueSound, JobSound, leased_of_owner}
use guardianbot.Store.Webhooks.Effect.{
  Effect, queue_step-Effect, was_unchanged, was_enqueued, was_claimed, was_failed, was_purged,
  was_completed,
}
use guardianbot.Prelude.Keys.{HasDistinctKeys, delete-HasDistinctKeys, insert-HasDistinctKeys}
use guardianbot.Prelude.Distinct.{AreDistinct}
use mathlib.Core.Option.{none}

module _ (dates : Dates) where
  new_job-JobSound :
      (now : ℕ) (key event_name : String) (payload : Fields)
      → JobSound dates key (new_job dates now key event_name payload)
  unfolding new_job is_dead
  new_job-JobSound now key event_name payload = record {
    keyed = refl;
    leased_held = (λ e. cc);
    unleased_free = (λ e. (refl, refl));
    dated = refl;
    tried = inl refl;
  }

  at_most_time :
      (o : Option ℕ) (now : ℕ) → time_at_most o now ≡ true → (t : ℕ) × (o ≡ some t) × (t ≤ now)
  unfolding time_at_most
  at_most_time none now h = cc
  at_most_time (some t) now h = (t, refl, (leb_iff t now).0 h)

  is_dead-claimable :
      (now : ℕ) (status : JobStatus) (expiry : Option String)
      → is_claimable dates now status expiry ≡ true
      → is_dead status ≡ false
  unfolding is_claimable is_dead
  is_dead-claimable now pending expiry h = refl
  is_dead-claimable now leased expiry h = refl
  is_dead-claimable now succeeded expiry h = cc
  is_dead-claimable now dead_letter expiry h = cc

  claimed_job-JobSound :
      (now : ℕ) (key worker : String) (lease_ms : ℕ) (job : WebhookJob)
      → now + lease_ms < 8_640_000_000_000_000
      → is_eligible dates now job ≡ true
      → JobSound dates key job
      → JobSound dates key (claimed_job dates now worker lease_ms job)
  unfolding claimed_job is_eligible is_available is_dead
  claimed_job-JobSound now key worker lease_ms job dated fits sound =
      let (claimable, open_now) = (and_iff _ _).0 fits in
      let (since, available, early) = at_most_time (dates.parse job.available_at) now open_now in
      record {
        keyed = sound.keyed;
        leased_held = λ e. record {
          owner = worker;
          owned = refl;
          expiry = dates.to_iso (now + lease_ms);
          expires = refl;
          until = now + lease_ms;
          read = dates.parse-to_iso (now + lease_ms) dated;
          since = since;
          available = available;
          ordered = omega (arith, early);
        };
        unleased_free = λ e. absurd (e refl);
        dated = sound.dated ∙ is_dead-claimable now job.status job.lease_expires_at claimable;
        tried = inr (omega arith);
      }

  completed_job-JobSound :
      (now : ℕ) (key worker : String) (job : WebhookJob)
      → is_value job.lease_owner worker ≡ true
      → JobSound dates key job
      → JobSound dates key (completed_job dates now job)
  unfolding completed_job is_dead
  completed_job-JobSound now key worker job owned sound =
      let held = leased_of_owner dates key worker job sound owned in
      record {
        keyed = sound.keyed;
        leased_held = (λ e. cc);
        unleased_free = (λ e. (refl, refl));
        dated = subst (λ s. is_some job.dead_lettered_at ≡ is_dead s) held sound.dated;
        tried = elim sound.tried [
          | inl waiting ↦ let e : pending ≡ leased = sym waiting ∙ held in cc
          | inr tried ↦ inr tried
        ];
      }

  failed_job-JobSound :
      (now : ℕ) (key worker error : String) (retry_at : Option ℕ) (dead : Bool) (job : WebhookJob)
      → is_value job.lease_owner worker ≡ true
      → JobSound dates key job
      → JobSound dates key (failed_job dates now error retry_at dead job)
  unfolding failed_job is_dead
  failed_job-JobSound now key worker error retry_at true job owned sound = record {
    keyed = sound.keyed;
    leased_held = (λ e. cc);
    unleased_free = (λ e. (refl, refl));
    dated = refl;
    tried = elim sound.tried [
      | inl waiting ↦
          let e : pending ≡ leased =
            sym waiting ∙ leased_of_owner dates key worker job sound owned in
          cc
      | inr tried ↦ inr tried
    ];
  }
  failed_job-JobSound now key worker error retry_at false job owned sound = record {
    keyed = sound.keyed;
    leased_held = (λ e. cc);
    unleased_free = (λ e. (refl, refl));
    dated = refl;
    tried = inl refl;
  }

  -- A sound job that a call leaves under a key is sound again.
  Effect-JobSound :
      (key : String) (call : Call) (before after : Option WebhookJob)
      → IsDated call
      → Effect dates key call before after
      → ((job : WebhookJob) → before ≡ some job → JobSound dates key job)
      → (job : WebhookJob) → after ≡ some job
      → JobSound dates key job
  unfolding IsDated
  Effect-JobSound key call before after dated (was_unchanged same) sound job h =
      sound job (sym same ∙ h)
  Effect-JobSound key call before after dated (was_enqueued now name payload c b a) sound job h =
      subst (JobSound dates key) (some-injective _ job (sym a ∙ h))
        (new_job-JobSound now key name payload)
  Effect-JobSound key call before after dated (was_claimed now worker lease_ms old c b fits a) sound
        job h =
      subst (JobSound dates key) (some-injective _ job (sym a ∙ h)) (
        claimed_job-JobSound now key worker lease_ms old (subst IsDated c dated) fits (sound old b))
  Effect-JobSound key call before after dated (was_completed now worker old c b owned a) sound job
        h =
      subst (JobSound dates key) (some-injective _ job (sym a ∙ h))
        (completed_job-JobSound now key worker old owned (sound old b))
  Effect-JobSound key call before after dated (was_failed now worker e at dead old c b owned a)
        sound job h =
      subst (JobSound dates key) (some-injective _ job (sym a ∙ h))
        (failed_job-JobSound now key worker e at dead old owned (sound old b))
  Effect-JobSound key call before after dated (was_purged s d limit old c b over gone) sound job h =
      let e : none ≡ some job = sym gone ∙ h in cc

delete_jobs-HasDistinctKeys :
    (jobs : List WebhookJob) (webhooks : Webhooks)
    → HasDistinctKeys webhooks
    → HasDistinctKeys (delete_jobs jobs webhooks)
unfolding delete_jobs
delete_jobs-HasDistinctKeys [] webhooks h = h
delete_jobs-HasDistinctKeys (job ∷ jobs) webhooks h =
    delete_jobs-HasDistinctKeys jobs _ (delete-HasDistinctKeys job.delivery_id webhooks h)

update_owned-HasDistinctKeys :
    (worker : String) (change : WebhookJob → WebhookJob) (key : String) (found : Option WebhookJob)
    (webhooks : Webhooks)
    → HasDistinctKeys webhooks
    → HasDistinctKeys (update_owned worker change key found webhooks)
unfolding update_owned
update_owned-HasDistinctKeys worker change key none webhooks h = h
update_owned-HasDistinctKeys worker change key (some job) webhooks h =
    elim (Bool-cases (is_value job.lease_owner worker)) [
      | inl owned ↦ rw owned (insert-HasDistinctKeys key _ webhooks h)
      | inr other ↦ rw other h
    ]

module _ (dates : Dates) (locale : Collation) where
  queue_step-HasDistinctKeys :
      (call : Call) (webhooks : Webhooks)
      → HasDistinctKeys webhooks
      → HasDistinctKeys (queue_step dates locale call webhooks)
  unfolding queue_step enqueue_webhook claim_webhook claim_first claimed_job complete_webhook
      fail_webhook after_purge purge_terminal_webhook_jobs purge_within
  queue_step-HasDistinctKeys (enqueues now own name payload) webhooks h =
      go (is_some (lookup own webhooks))
    where
      go :
          (known : Bool)
          → let next : Bool × Webhooks =
              if known
              then (false, webhooks)
              else (true, insert own (new_job dates now own name payload) webhooks) in
            HasDistinctKeys next.1
      go true = h
      go false = insert-HasDistinctKeys own _ webhooks h
  queue_step-HasDistinctKeys (claims now worker lease_ms) webhooks h =
      go (next_eligible dates now locale webhooks)
    where
      go :
          (next : Option WebhookJob)
          → HasDistinctKeys (claim_first dates now worker lease_ms next webhooks).1
      go none = h
      go (some job) =
          insert-HasDistinctKeys job.delivery_id (claimed_job dates now worker lease_ms job)
            webhooks h
  queue_step-HasDistinctKeys (completes now own worker) webhooks h =
      update_owned-HasDistinctKeys worker _ own _ webhooks h
  queue_step-HasDistinctKeys (fails now own worker error retry_at dead) webhooks h =
      update_owned-HasDistinctKeys worker _ own _ webhooks h
  queue_step-HasDistinctKeys (purges s d limit) webhooks h = go (checked_purge_limit limit)
    where
      go :
          (checked : Result PurgeError ℕ)
          → HasDistinctKeys
              (after_purge (checked >>= λ n. ok (purge_within dates s d n webhooks)) webhooks)
      go (ok n) = delete_jobs-HasDistinctKeys (purge_candidates dates s d n webhooks) webhooks h
      go (err e) = h

  pub queue_step-QueueSound :
      (call : Call) (webhooks : Webhooks)
      → IsDated call
      → QueueSound dates webhooks
      → QueueSound dates (queue_step dates locale call webhooks)
  queue_step-QueueSound call webhooks dated queue = record {
    distinct = queue_step-HasDistinctKeys call webhooks queue.distinct;
    sound = λ key.
        Effect-JobSound dates key call _ _ dated
          (queue_step-Effect dates webhooks queue locale call key) (queue.sound key);
  }

  run_from-QueueSound :
      (calls : List Call) (webhooks : Webhooks)
      → All IsDated calls
      → QueueSound dates webhooks
      → QueueSound dates (queue_run dates locale calls webhooks)
  unfolding queue_run
  run_from-QueueSound [] webhooks dated queue = queue
  run_from-QueueSound (call ∷ calls) webhooks (now, later) queue =
      run_from-QueueSound calls _ later (queue_step-QueueSound call webhooks now queue)

  -- Whatever calls reach the empty queue, in any order and of any workers, as long as the times that they
  -- print are dates: each delivery stands once, under its own id; it has an owner and an expiry that can be
  -- read exactly while it is leased, and was available before that expiry; it has the time of its death
  -- exactly while it is in dead-letter; and it was tried unless it is pending.
  pub queue_run-QueueSound :
      (calls : List Call) → All IsDated calls → QueueSound dates (queue_run dates locale calls [])
  queue_run-QueueSound calls dated =
      run_from-QueueSound calls [] dated
        (record { distinct = unfold AreDistinct in tt; sound = (λ key job h. cc) })
