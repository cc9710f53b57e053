-- ===== src/Store/Webhooks.antt =====
-- apps/control-plane/src/store.ts, `MemoryStore`: the queue of webhook deliveries. Each call takes the
-- time of its `new Date()` as an argument and gives its result with the queue that it leaves.
use guardianbot.Prelude.{
  String, List, Option, ℕ, Bool, ◌+◌, some, lookup, if◌then◌else◌, true, ◌&&◌, ltb, first, insert,
  string_eq, is_some, ◌==◌, false, ◌||◌, sort, is_value, get_or_else, nat_beq, filter, values,
}
use guardianbot.Prelude.Js.{Dates, Fields, Collation, time_at_most}
use mathlib.Core.Option.{none}
use guardianbot.Store.Payload.{scrub_webhook_payload}
pub mod Counts
pub mod Purge
pub mod Calls
pub mod Sound
pub mod Deletion
pub mod Effect
pub mod Invariant
pub mod Graph
pub mod Leases
pub mod Runnable
pub mod Expired
pub mod Due
pub mod Oldest
pub mod Cleanup

pub data JobStatus : Type 0 where
  pending leased succeeded dead_letter : JobStatus

pub record WebhookJob : Type 0 where
  pub delivery_id : String
  pub event_name : String
  pub payload : Fields
  pub status : JobStatus
  pub attempts : ℕ
  pub available_at : String
  pub lease_owner : Option String
  pub lease_expires_at : Option String
  pub last_error : Option String
  pub dead_lettered_at : Option String
  pub updated_at : Option String

-- `Map<string, WebhookJob>`
abbrev pub Webhooks : Type 0
Webhooks = List (String × WebhookJob)

-- `Date.parse(text)` of a field that may be missing
unfoldable pub time_of : Dates → Option String → Option ℕ
time_of dates none = none
time_of dates (some text) = dates.parse text

module _ (dates : Dates) where
  -- The comparison of the sort: by time of availability, then by delivery.
  unfoldable pub claim_before : Collation → WebhookJob → WebhookJob → Bool
  claim_before locale left right =
      times (dates.parse left.available_at) (dates.parse right.available_at)
    where
      by_id : Bool
      by_id = locale.collate left.delivery_id right.delivery_id

      times : Option ℕ → Option ℕ → Bool
      times (some l) (some r) = ltb l r || (nat_beq l r && by_id)
      times _ _ = true

-- `!current || current.leaseOwner !== workerId`: what the call does to the job it finds
unfoldable pub update_owned :
    String → (WebhookJob → WebhookJob) → String → Option WebhookJob → Webhooks → Webhooks
update_owned worker change delivery_id none webhooks = webhooks
update_owned worker change delivery_id (some current) webhooks =
    if is_value current.lease_owner worker
    then insert delivery_id (change current) webhooks
    else webhooks

module _ (dates : Dates) (now : ℕ) where
  unfoldable pub new_job : String → String → Fields → WebhookJob
  unfolding scrub_webhook_payload
  new_job delivery_id event_name payload = record {
    delivery_id = delivery_id;
    event_name = event_name;
    payload = scrub_webhook_payload event_name payload;
    status = pending;
    attempts = 0;
    available_at = dates.to_iso 0;
    lease_owner = none;
    lease_expires_at = none;
    last_error = none;
    dead_lettered_at = none;
    updated_at = some (dates.to_iso now);
  }

  unfoldable pub enqueue_webhook : String → String → Fields → Webhooks → Bool × Webhooks
  unfolding new_job
  enqueue_webhook delivery_id event_name payload webhooks =
      if is_some (lookup delivery_id webhooks)
      then (false, webhooks)
      else (true, insert delivery_id (new_job delivery_id event_name payload) webhooks)

  -- `!job.leaseExpiresAt || new Date(job.leaseExpiresAt).getTime() <= now.getTime()`; the empty text is
  -- no expiry either
  unfoldable pub lease_over : Option String → Bool
  lease_over none = true
  lease_over (some text) = (text == "") || time_at_most (dates.parse text) now

  unfoldable pub is_available : WebhookJob → Bool
  is_available job = time_at_most (dates.parse job.available_at) now

  unfoldable pub is_claimable : JobStatus → Option String → Bool
  unfolding lease_over
  is_claimable pending expiry = true
  is_claimable leased expiry = lease_over expiry
  is_claimable _ expiry = false

  unfoldable pub is_eligible : WebhookJob → Bool
  unfolding is_claimable is_available
  is_eligible job = is_claimable job.status job.lease_expires_at && is_available job

  unfoldable pub claimed_job : String → ℕ → WebhookJob → WebhookJob
  claimed_job worker lease_ms job = record job {
    status = leased;
    attempts = job.attempts + 1;
    lease_owner = some worker;
    lease_expires_at = some (dates.to_iso (now + lease_ms));
    updated_at = some (dates.to_iso now);
  }

  unfoldable pub next_eligible : Collation → Webhooks → Option WebhookJob
  unfolding is_eligible claim_before
  next_eligible locale webhooks =
      first (sort (claim_before dates locale) (filter is_eligible (values webhooks)))

  unfoldable pub claim_first :
      String → ℕ → Option WebhookJob → Webhooks → Option WebhookJob × Webhooks
  unfolding claimed_job
  claim_first worker lease_ms none webhooks = (none, webhooks)
  claim_first worker lease_ms (some job) webhooks =
      let claimed = claimed_job worker lease_ms job in
      (some claimed, insert claimed.delivery_id claimed webhooks)

  unfoldable pub claim_webhook : Collation → String → ℕ → Webhooks → Option WebhookJob × Webhooks
  unfolding next_eligible claim_first
  claim_webhook locale worker lease_ms webhooks =
      claim_first worker lease_ms (next_eligible locale webhooks) webhooks

  unfoldable pub completed_job : WebhookJob → WebhookJob
  completed_job job = record job {
    status = succeeded;
    lease_owner = none;
    lease_expires_at = none;
    updated_at = some (dates.to_iso now);
  }

  unfoldable pub complete_webhook : String → String → Webhooks → Webhooks
  unfolding update_owned completed_job
  complete_webhook delivery_id worker webhooks =
      update_owned worker completed_job delivery_id (lookup delivery_id webhooks) webhooks

  unfoldable pub failed_job : String → Option ℕ → Bool → WebhookJob → WebhookJob
  failed_job error retry_at dead job = record job {
    status = if dead then dead_letter else pending;
    lease_owner = none;
    lease_expires_at = none;
    available_at = if dead then job.available_at else dates.to_iso (get_or_else retry_at now);
    last_error = some error;
    dead_lettered_at = if dead then some (dates.to_iso now) else none;
    updated_at = some (dates.to_iso now);
  }

  unfoldable pub fail_webhook : String → String → String → Option ℕ → Bool → Webhooks → Webhooks
  unfolding update_owned failed_job
  fail_webhook delivery_id worker error retry_at dead webhooks =
      update_owned worker (failed_job error retry_at dead) delivery_id (lookup delivery_id webhooks)
        webhooks

-- `getWebhook`
abbrev pub get_webhook : String → Webhooks → Option WebhookJob
get_webhook = lookup
