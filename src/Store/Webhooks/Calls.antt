-- ===== src/Store/Webhooks/Calls.antt =====
-- apps/control-plane/src/store.ts, `MemoryStore`: the calls that change the queue of deliveries, one
-- after the other as the workers' calls reach the store.
use guardianbot.Prelude.{
  ℕ, Result, ◌+◌, String, ◌<◌, List, get_or_else, Option, ◌∷◌, ok, Bool, err, sort, insert_sorted,
}
use guardianbot.Prelude.Js.{Dates, Collation, Fields, Number, time_at_most, time_below}
use guardianbot.Store.Webhooks.Purge.{
  PurgeError, purge_terminal_webhook_jobs, checked_purge_limit, parsed, is_purgeable, purge_before,
  purge_candidates, delete_jobs, purge_within,
}
use guardianbot.Store.Webhooks.{
  Webhooks, enqueue_webhook, claim_webhook, complete_webhook, fail_webhook, new_job, lease_over,
  is_available, is_claimable, is_eligible, claim_before, claimed_job, next_eligible, claim_first,
  update_owned, completed_job, failed_job,
}
use mathlib.Core.List.{[]}
use guardianbot.Store.Payload.{scrub_webhook_payload}
use guardianbot.Store.Webhooks.Counts.{plus_if, count_job, count_jobs, count_webhook_jobs}

pub data Call : Type 0 where
  enqueues : (now : ℕ) (delivery_id event_name : String) (payload : Fields) → Call
  claims : (now : ℕ) (worker : String) (lease_ms : ℕ) → Call
  completes : (now : ℕ) (delivery_id worker : String) → Call
  fails : (now : ℕ) (delivery_id worker error : String) (retry_at : Option ℕ) (dead : Bool) → Call
  purges : (succeeded_before dead_before : ℕ) (limit : Number) → Call

-- A call that throws leaves the queue as it was.
unfoldable pub after_purge : Result PurgeError (ℕ × Webhooks) → Webhooks → Webhooks
after_purge (ok (deleted, left)) webhooks = left
after_purge (err e) webhooks = webhooks

module _ (dates : Dates) (locale : Collation) where
  unfoldable pub queue_step : Call → Webhooks → Webhooks
  unfolding after_purge enqueue_webhook claim_webhook complete_webhook fail_webhook
      purge_terminal_webhook_jobs
  queue_step (enqueues now delivery_id event_name payload) webhooks =
      (enqueue_webhook dates now delivery_id event_name payload webhooks).1
  queue_step (claims now worker lease_ms) webhooks =
      (claim_webhook dates now locale worker lease_ms webhooks).1
  queue_step (completes now delivery_id worker) webhooks =
      complete_webhook dates now delivery_id worker webhooks
  queue_step (fails now delivery_id worker error retry_at dead) webhooks =
      fail_webhook dates now delivery_id worker error retry_at dead webhooks
  queue_step (purges succeeded_before dead_before limit) webhooks =
      after_purge (purge_terminal_webhook_jobs dates succeeded_before dead_before limit webhooks)
        webhooks

  unfoldable pub queue_run : List Call → Webhooks → Webhooks
  unfolding queue_step
  queue_run [] webhooks = webhooks
  queue_run (call ∷ calls) webhooks = queue_run calls (queue_step call webhooks)

-- Every time that a call prints is in the engine's range of dates; elsewhere `toISOString` throws.
unfoldable pub IsDated : Call → Type 0
IsDated (enqueues now delivery_id event_name payload) = Unit
IsDated (claims now worker lease_ms) = now + lease_ms < 8_640_000_000_000_000
IsDated (completes now delivery_id worker) = Unit
IsDated (fails now delivery_id worker error retry_at dead) =
    get_or_else retry_at now < 8_640_000_000_000_000
IsDated (purges succeeded_before dead_before limit) = Unit

-- Opens the whole queue: for tests.
unfoldable pub webhooks_open : Unit {0}
unfolding sort insert_sorted scrub_webhook_payload new_job enqueue_webhook lease_over is_available
    is_claimable is_eligible claim_before claimed_job next_eligible claim_first claim_webhook
    update_owned completed_job complete_webhook failed_job fail_webhook checked_purge_limit parsed
    is_purgeable purge_before purge_candidates delete_jobs purge_within purge_terminal_webhook_jobs
    after_purge queue_step queue_run plus_if count_job count_jobs count_webhook_jobs time_at_most
    time_below
webhooks_open = tt
