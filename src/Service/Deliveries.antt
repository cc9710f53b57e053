-- ===== src/Service/Deliveries.antt =====
-- apps/control-plane/src/service.ts, `processNextWebhook` and `failClaimedWebhook`: a worker takes the next
-- delivery, handles it and settles it in the store. How the handler ends is an argument, as are the times
-- of the claim and of the settlement; the metrics are left out.
use Prim.Native.Nat.{max}
pub mod Ends
use guardianbot.Prelude.{
  ℕ, String, Bool, List, min, ◌*◌, get_or_else, if◌then◌else◌, ◌||◌, Option, false, ◌^◌, lookup,
  ltb, some, leb, delete, ◌-◌, length, none, not, true, string_eq, insert, ◌+◌,
}
use guardianbot.Store.Webhooks.{Webhooks, WebhookJob, fail_webhook, complete_webhook, claim_webhook}
use guardianbot.Prelude.Js.{Dates, Collation}
use mathlib.Core.Bool.{true}

-- How `this.handle` ends: it returns, or throws a GitHub rate limit, an abort, a `BackendError` or
-- anything else.
pub data Outcome : Type 0 where
  handled : Outcome
  rate_limited : (retry_at : ℕ) → Outcome
  aborted : Outcome
  backend_error : (retryable : Bool) (message : String) → Outcome
  other_error : (message : String) → Outcome

pub record ServiceState : Type 0 where
  pub webhooks : Webhooks
  -- `uncountedAttempts`
  pub uncounted : List (String × ℕ)

abbrev pub max_uncounted_deliveries : ℕ
max_uncounted_deliveries = 10_000

-- `Math.min(30_000 * 2 ** Math.max(0, attempt - 1), 30 * 60_000)`; `-` stops at 0
unfoldable pub compute_backoff_ms : ℕ → ℕ
compute_backoff_ms attempt = min (30_000 * 2 ^ (attempt - 1)) (30 * 60_000)

-- `this.uncountedAttempts.get(job.deliveryId) ?? 0`
unfoldable pub credits : String → List (String × ℕ) → ℕ
credits delivery_id uncounted = get_or_else (lookup delivery_id uncounted) 0

-- `Math.max(1, job.attempts - credits)`; `-` stops at 0, which the maximum hides
unfoldable pub charged_attempt : WebhookJob → List (String × ℕ) → ℕ
unfolding credits
charged_attempt job uncounted = max 1 (job.attempts - credits job.delivery_id uncounted)

unfoldable pub credit_claim : String → List (String × ℕ) → List (String × ℕ)
unfolding credits
credit_claim delivery_id uncounted =
    if ltb (length uncounted) max_uncounted_deliveries
    then insert delivery_id (credits delivery_id uncounted + 1) uncounted
    else uncounted

module _ (dates : Dates) (max_attempts : ℕ) (worker : String) where
  -- The rate limit and the abort: the claim is credited back and the delivery waits for its retry.
  unfoldable pub fail_uncounted : ℕ → WebhookJob → String → ℕ → ServiceState → ServiceState
  unfolding credit_claim
  fail_uncounted now job message retry_at state = record {
    webhooks =
        fail_webhook dates now job.delivery_id worker message (some retry_at) false state.webhooks;
    uncounted = credit_claim job.delivery_id state.uncounted;
  }

  unfoldable pub fail_counted : ℕ → WebhookJob → String → Bool → ServiceState → ServiceState
  unfolding charged_attempt compute_backoff_ms
  fail_counted now job message permanent state =
      let attempt = charged_attempt job state.uncounted in
      let dead = permanent || leb max_attempts attempt in
      record {
        webhooks =
            fail_webhook dates now job.delivery_id worker message
              (if dead then none else some (now + compute_backoff_ms attempt)) dead state.webhooks;
        uncounted = if dead then delete job.delivery_id state.uncounted else state.uncounted;
      }

  -- What happens after the handler: `completeWebhook`, or `failClaimedWebhook`.
  unfoldable pub settle : ℕ → WebhookJob → Outcome → ServiceState → ServiceState
  unfolding fail_uncounted fail_counted
  settle now job handled state = record {
    webhooks = complete_webhook dates now job.delivery_id worker state.webhooks;
    uncounted = delete job.delivery_id state.uncounted;
  }
  settle now job (rate_limited retry_at) state =
      fail_uncounted now job "GitHub rate limit exceeded" retry_at state
  settle now job aborted state =
      fail_uncounted now job "webhook processing aborted for shutdown" now state
  settle now job (backend_error retryable message) state =
      fail_counted now job message (not retryable) state
  settle now job (other_error message) state = fail_counted now job message false state

  unfoldable pub process_claimed :
      ℕ → Outcome → Option WebhookJob × Webhooks → List (String × ℕ) → Bool × ServiceState
  unfolding settle
  process_claimed later outcome (none, webhooks) uncounted =
      (false, record { webhooks = webhooks; uncounted = uncounted })
  process_claimed later outcome (some job, webhooks) uncounted =
      (true, settle later job outcome (record { webhooks = webhooks; uncounted = uncounted }))

module _ (dates : Dates) (locale : Collation) (max_attempts lease_ms : ℕ) (worker : String) where
  -- `signal?.aborted`, the time of the claim, the time when the handler has ended, and how it ends.
  unfoldable pub process_next_webhook : Bool → ℕ → ℕ → Outcome → ServiceState → Bool × ServiceState
  unfolding process_claimed
  process_next_webhook true now later outcome state = (false, state)
  process_next_webhook false now later outcome state =
      process_claimed dates max_attempts worker later outcome
        (claim_webhook dates now locale worker lease_ms state.webhooks) state.uncounted
