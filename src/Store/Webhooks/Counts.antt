-- ===== src/Store/Webhooks/Counts.antt =====
-- apps/control-plane/src/store.ts, `MemoryStore.countWebhookJobs`: the gauges of the queue.
use guardianbot.Prelude.{ℕ, Bool, List, values, if◌then◌else◌, ◌∷◌, ◌+◌}
use guardianbot.Prelude.Js.{Dates}
use guardianbot.Store.Webhooks.{
  is_available, Webhooks, lease_over, WebhookJob, JobStatus, pending, leased, dead_letter,
  succeeded,
}
use mathlib.Core.List.{[]}

pub record QueueCounts : Type 0 where
  pub pending : ℕ
  pub leased : ℕ
  pub dead_letter : ℕ
  pub runnable : ℕ

-- `if (test) n += 1`
unfoldable pub plus_if : Bool → ℕ → ℕ
plus_if test n = if test then n + 1 else n

module _ (dates : Dates) (now : ℕ) where
  -- One turn of the loop.
  unfoldable pub count_job : JobStatus → WebhookJob → QueueCounts → QueueCounts
  unfolding plus_if is_available lease_over
  count_job pending job counts = record counts {
    pending = counts.pending + 1;
    runnable = plus_if (is_available dates now job) counts.runnable;
  }
  count_job leased job counts = record counts {
    leased = counts.leased + 1;
    runnable = plus_if (lease_over dates now job.lease_expires_at) counts.runnable;
  }
  count_job dead_letter job counts = record counts { dead_letter = counts.dead_letter + 1 }
  count_job succeeded job counts = counts

  unfoldable pub count_jobs : List WebhookJob → QueueCounts → QueueCounts
  unfolding count_job
  count_jobs [] counts = counts
  count_jobs (job ∷ jobs) counts = count_jobs jobs (count_job job.status job counts)

  unfoldable pub count_webhook_jobs : Webhooks → QueueCounts
  unfolding count_jobs
  count_webhook_jobs webhooks =
      count_jobs (values webhooks)
        (record { pending = 0; leased = 0; dead_letter = 0; runnable = 0 })
