-- ===== src/Store/Examples.antt =====
-- Deliveries, locks and options at concrete inputs.
use guardianbot.Prelude.{
  refl, List, lookup, is_some, All, [], some, if◌then◌else◌, arith, none, ◌≡◌, Result, ◌==◌, ◌∷◌,
  inr, ltb, string_eq, true, eq_iff, length, filter, ok, values, ◌≢◌, ℕ, err, String, false,
}
use guardianbot.Store.Webhooks.Calls.{
  IsDated, webhooks_open, queue_run, Call, enqueues, claims, completes, fails, queue_step,
}
use guardianbot.Store.Webhooks.{Webhooks, WebhookJob, claim_webhook, leased, is_eligible}
use guardianbot.Store.Webhooks.Sound.{QueueSound, Lease}
use guardianbot.Samples.{sample_dates, sample_collation}
use guardianbot.Store.Webhooks.Leases.{IsForeign, queue_run-lease_held}
use guardianbot.Store.Webhooks.Oldest.{Granted, claim-Granted}
use guardianbot.Store.Webhooks.Cleanup.{PurgeEnds, purge-PurgeEnds}
use guardianbot.Store.Retention.{Environment, webhook_retention_options}
use guardianbot.Store.Retention.Bounded.{RetentionEnds, webhook_retention-RetentionEnds}
use guardianbot.Store.Locks.Fifo.{
  fifo_run, fifo_step, fifo_acquire, fifo_release, fifo_next, holders_of, Represents, waiting_for,
}
use guardianbot.Store.Locks.{lock_run, LockCall, acquires, releases, no_locks}
use guardianbot.Store.Webhooks.Invariant.{queue_run-QueueSound, queue_step-QueueSound}
use guardianbot.Prelude.Js.{end, nat, other}
use guardianbot.Store.Locks.Orderly.{in_turn, lock_run-Represents, lock_run-served}
use guardianbot.Prelude.Distinct.{AreDistinct}
use guardianbot.Store.Webhooks.Counts.{count_webhook_jobs}
use guardianbot.Store.Webhooks.Purge.{purge_terminal_webhook_jobs, PurgeError}
use guardianbot.Store.Webhooks.Graph.{Moves, status_of, queue_run-Moves}
use guardianbot.Store.Webhooks.Runnable.{claim-runnable}
use guardianbot.Store.Payload.{is_bot}
use guardianbot.Prelude.Text.{ends_with}

-- Two deliveries arrive, and a worker claims the first.
abbrev arrivals : List Call
arrivals = enqueues 1 "a" "push" end ∷ enqueues 2 "bb" "push" end ∷ claims 3 "w" 4 ∷ []

arrivals-IsDated : All IsDated arrivals
unfolding IsDated
arrivals-IsDated = (tt, (tt, (omega arith, tt)))

abbrev queue : Webhooks
queue = queue_run sample_dates sample_collation arrivals []

queue_run-QueueSound_example : QueueSound sample_dates queue
queue_run-QueueSound_example =
    queue_run-QueueSound sample_dates sample_collation arrivals arrivals-IsDated

no_deliveries_sound : QueueSound sample_dates []
no_deliveries_sound = record { distinct = unfold AreDistinct in tt; sound = (λ key job h. cc) }

queue_run-Moves_example :
    Moves "a"
      (completes 5 "a" "w")
      (status_of "a" (queue_run sample_dates sample_collation arrivals []))
      (status_of "a" (
        queue_step sample_dates sample_collation
          (completes 5 "a" "w")
          (queue_run sample_dates sample_collation arrivals [])))
queue_run-Moves_example =
    queue_run-Moves sample_dates sample_collation "a" arrivals (completes 5 "a" "w") []
      arrivals-IsDated no_deliveries_sound

abbrev first_job : WebhookJob
first_job = record {
  delivery_id = "a";
  event_name = "push";
  payload = end;
  status = leased;
  attempts = 1;
  available_at = "T";
  lease_owner = some "w";
  lease_expires_at = some "TIIIIIII";
  last_error = none;
  dead_lettered_at = none;
  updated_at = some "TIII";
}

first_lease : Lease sample_dates first_job
unfolding sample_dates
first_lease = record {
  owner = "w";
  owned = refl;
  expiry = "TIIIIIII";
  expires = refl;
  until = 7;
  read = refl;
  since = 0;
  available = refl;
  ordered = omega arith;
}

first_found : lookup "a" queue ≡ some first_job
unfolding webhooks_open sample_dates sample_collation
first_found = refl

-- Another worker claims, and tries to settle what it does not own.
abbrev others : List Call
others = claims 4 "v" 9 ∷ completes 5 "a" "v" ∷ fails 5 "a" "v" "boom" none true ∷ []

others-IsDated : All IsDated others
unfolding IsDated
others-IsDated = (omega arith, (tt, (omega arith, tt)))

v_is_not_w : ◌≢◌ {A = String} "v" "w"
v_is_not_w e = ground (arith, eq_iff "v" "w", e)

others-IsForeign : All (IsForeign "a" "w" 7) others
unfolding IsForeign
others-IsForeign = (omega arith, (inr v_is_not_w, (inr v_is_not_w, tt)))

queue_run-lease_held_example :
    lookup "a" (queue_run sample_dates sample_collation others queue) ≡ some first_job
unfolding first_lease
queue_run-lease_held_example =
    queue_run-lease_held sample_dates sample_collation "a" first_job refl first_lease others queue
      others-IsDated others-IsForeign queue_run-QueueSound_example first_found

claim-runnable_example :
    (is_some (claim_webhook sample_dates 4 sample_collation "v" 9 queue).0
      ≡ ltb 0 (count_webhook_jobs sample_dates 4 queue).runnable)
    × ((count_webhook_jobs sample_dates 4 queue).runnable
        ≡ length (filter (is_eligible sample_dates 4) (values queue)))
claim-runnable_example =
    claim-runnable sample_dates 4 sample_collation queue "v" 9 queue_run-QueueSound_example

one_runnable : (count_webhook_jobs sample_dates 4 queue).runnable ≡ 1
unfolding webhooks_open sample_dates sample_collation
one_runnable = refl

abbrev second_job : WebhookJob
second_job = record first_job {
  delivery_id = "bb";
  lease_owner = some "v";
  lease_expires_at = some "TIIIIIIIIIIIII";
  updated_at = some "TIIII";
}

second_given : (claim_webhook sample_dates 4 sample_collation "v" 9 queue).0 ≡ some second_job
unfolding webhooks_open sample_dates sample_collation
second_given = refl

claim-Granted_example : Granted sample_dates 4 sample_collation "v" 9 queue second_job
claim-Granted_example =
    claim-Granted sample_dates 4 sample_collation "v" 9 queue second_job
      queue_run-QueueSound_example second_given

-- The first delivery succeeds, and is purged later.
abbrev settled : List Call
settled = completes 4 "a" "w" ∷ []

abbrev settled_queue : Webhooks
settled_queue = queue_run sample_dates sample_collation settled queue

settled-IsDated : All IsDated settled
unfolding IsDated
settled-IsDated = (tt, tt)

settled_sound : QueueSound sample_dates settled_queue
unfolding queue_run
settled_sound =
    queue_step-QueueSound sample_dates sample_collation (completes 4 "a" "w") queue
      (unfold IsDated in tt) queue_run-QueueSound_example

purge-PurgeEnds_example :
    PurgeEnds sample_dates 9 9
      (nat 5)
      settled_queue
      (purge_terminal_webhook_jobs sample_dates 9 9 (nat 5) settled_queue)
purge-PurgeEnds_example = purge-PurgeEnds sample_dates 9 9 (nat 5) settled_queue settled_sound

deleted_by : Result PurgeError (ℕ × Webhooks) → ℕ
deleted_by (ok (deleted, left)) = deleted
deleted_by (err e) = 0

one_purged : deleted_by (purge_terminal_webhook_jobs sample_dates 9 9 (nat 5) settled_queue) ≡ 1
unfolding webhooks_open sample_dates sample_collation deleted_by
one_purged = refl

abbrev environment : Environment
environment = record {
  variable =
      λ name. if name == "GUARDIANBOT_WEBHOOK_CLEANUP_BATCH_LIMIT" then some "none" else none;
  to_number = λ text. other;
}

webhook_retention-RetentionEnds_example :
    RetentionEnds environment (webhook_retention_options environment)
webhook_retention-RetentionEnds_example = webhook_retention-RetentionEnds environment

-- Three callers want the lock of repository 7, one that of 8, and the first releases.
abbrev contended : List LockCall
contended = acquires 7 1 ∷ acquires 7 2 ∷ acquires 8 4 ∷ acquires 7 3 ∷ releases 7 1 ∷ []

lock_run-Represents_example :
    Represents 7 (lock_run contended no_locks) (record { owner = some 2; line = 3 ∷ [] })
unfolding fifo_run fifo_step fifo_acquire fifo_release fifo_next
lock_run-Represents_example = lock_run-Represents 7 contended

lock_run-served_example :
    let after = lock_run (in_turn 7 (2 ∷ [])) (lock_run contended no_locks) in
    (holders_of 7 after ≡ 3 ∷ []) × (waiting_for 7 after ≡ [])
lock_run-served_example =
    lock_run-served 7 2 3 [] [] (lock_run contended no_locks) lock_run-Represents_example

-- The placeholder of a comment's author tells people and bots apart.
bots_by_suffix : (is_bot "dependabot[bot]" ≡ true) × (is_bot "ot]" ≡ false)
unfolding is_bot ends_with
bots_by_suffix = (refl, refl)
