-- ===== src/Store/Webhooks/Purge.antt =====
-- apps/control-plane/src/store.ts: the retention of terminal deliveries: the options from the environment
-- and `MemoryStore.purgeTerminalWebhookJobs`.
use guardianbot.Prelude.{
  ℕ, Result, Option, List, String, Bool, take, ◌∷◌, length, ◌>>=◌, sort, delete, ok, some,
  if◌then◌else◌, leb, false, filter, ◌==◌, true, values, string_eq, get_or_else, ◌&&◌, err,
}
use guardianbot.Prelude.Js.{Number, Dates, nat, time_below, max_safe_integer}
use guardianbot.Store.Webhooks.{JobStatus, WebhookJob, Webhooks, succeeded, dead_letter}
use mathlib.Core.Option.{none}
use mathlib.Core.List.{[]}

abbrev pub min_cleanup_batch : ℕ
min_cleanup_batch = 1

abbrev pub max_cleanup_batch : ℕ
max_cleanup_batch = 10_000

pub data PurgeError : Type 0 where
  invalid_limit : PurgeError

-- `assertWebhookPurgeLimit`; what it lets through is a natural number
unfoldable pub checked_purge_limit : Number → Result PurgeError ℕ
checked_purge_limit (nat n) =
    if leb n max_safe_integer && leb min_cleanup_batch n && leb n max_cleanup_batch
    then ok n
    else err invalid_limit
checked_purge_limit _ = err invalid_limit

unfoldable pub delete_jobs : List WebhookJob → Webhooks → Webhooks
delete_jobs [] webhooks = webhooks
delete_jobs (job ∷ jobs) webhooks = delete_jobs jobs (delete job.delivery_id webhooks)

module _ (dates : Dates) where
  -- `text ? Date.parse(text) : Number.NaN`
  unfoldable pub parsed : Option String → Option ℕ
  parsed none = none
  parsed (some text) = if text == "" then none else dates.parse text

  -- `left ?? right`
  abbrev pub or_text : Option String → Option String → Option String
  or_text none right = right
  or_text (some text) right = some text

  unfoldable pub is_purgeable : ℕ → ℕ → JobStatus → WebhookJob → Bool
  unfolding parsed
  is_purgeable succeeded_before dead_before succeeded job =
      time_below (parsed job.updated_at) succeeded_before
  is_purgeable succeeded_before dead_before dead_letter job =
      time_below (parsed (or_text job.dead_lettered_at job.updated_at)) dead_before
  is_purgeable succeeded_before dead_before _ job = false

  -- The comparison of the sort. A difference that is not a number counts as 0.
  unfoldable pub purge_before : WebhookJob → WebhookJob → Bool
  purge_before left right =
      times (dates.parse (get_or_else left.updated_at left.available_at))
        (dates.parse (get_or_else right.updated_at right.available_at))
    where
      times : Option ℕ → Option ℕ → Bool
      times (some l) (some r) = leb l r
      times _ _ = true

  unfoldable pub purge_candidates : ℕ → ℕ → ℕ → Webhooks → List WebhookJob
  unfolding is_purgeable purge_before
  purge_candidates succeeded_before dead_before limit webhooks = take limit (
      sort purge_before (
        filter (λ job. is_purgeable succeeded_before dead_before job.status job) (values webhooks)))

  unfoldable pub purge_within : ℕ → ℕ → ℕ → Webhooks → ℕ × Webhooks
  unfolding purge_candidates delete_jobs
  purge_within succeeded_before dead_before limit webhooks =
      let candidates = purge_candidates succeeded_before dead_before limit webhooks in
      (length candidates, delete_jobs candidates webhooks)

  -- The number of deliveries deleted, with the queue that is left.
  unfoldable pub purge_terminal_webhook_jobs :
      ℕ → ℕ → Number → Webhooks → Result PurgeError (ℕ × Webhooks)
  unfolding checked_purge_limit purge_within
  purge_terminal_webhook_jobs succeeded_before dead_before limit webhooks = do
    n ← checked_purge_limit limit
    ok (purge_within succeeded_before dead_before n webhooks)
