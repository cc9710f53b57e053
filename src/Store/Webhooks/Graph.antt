-- ===== src/Store/Webhooks/Graph.antt =====
-- apps/control-plane/src/store.ts, `MemoryStore`: the diagram of a delivery's states.
use mathlib.Core.Option
use guardianbot.Prelude.{
  String, Option, Bool, none, ℕ, ◌≡◌, some, true, subst, List, sym, All, if◌then◌else◌, ◌∷◌, lookup,
  string_eq, ap, and_iff, ◌∙◌,
}
use guardianbot.Prelude.Js.{Dates, Collation, Fields, Number}
use guardianbot.Store.Webhooks.{
  Webhooks, JobStatus, is_claimable, new_job, claimed_job, pending, leased, completed_job,
  succeeded, failed_job, dead_letter, is_eligible, WebhookJob,
}
use guardianbot.Store.Webhooks.Effect.{
  is_terminal, queue_step-Effect, Effect, was_unchanged, was_enqueued, was_claimed, was_completed,
  was_failed, was_purged,
}
use guardianbot.Store.Webhooks.Calls.{
  Call, enqueues, claims, completes, fails, purges, queue_run, queue_step, IsDated,
}
use guardianbot.Store.Webhooks.Sound.{QueueSound, JobSound, leased_of_owner}
use mathlib.Core.Bool.{false}
use guardianbot.Store.Webhooks.Invariant.{queue_step-QueueSound}
use mathlib.Core.List.{[]}

abbrev pub status_of : String → Webhooks → Option JobStatus
status_of key webhooks = Option.map (λ job. job.status) (lookup key webhooks)

-- What a call may do to the state of the delivery `key`; `none` is a delivery that the store does not know.
pub data Moves (key : String) : Call → Option JobStatus → Option JobStatus → Type 0 where
  stay : {call : Call} {s : Option JobStatus} → Moves key call s s
  arrive :
      (now : ℕ) (event_name : String) (payload : Fields)
      → Moves key (enqueues now key event_name payload) none (some pending)
  claim :
      (now : ℕ) (worker : String) (lease_ms : ℕ)
      → Moves key (claims now worker lease_ms) (some pending) (some leased)
  take_over :
      (now : ℕ) (worker : String) (lease_ms : ℕ)
      → Moves key (claims now worker lease_ms) (some leased) (some leased)
  finish :
      (now : ℕ) (worker : String)
      → Moves key (completes now key worker) (some leased) (some succeeded)
  retry :
      (now : ℕ) (worker error : String) (retry_at : Option ℕ)
      → Moves key (fails now key worker error retry_at false) (some leased) (some pending)
  give_up :
      (now : ℕ) (worker error : String) (retry_at : Option ℕ)
      → Moves key (fails now key worker error retry_at true) (some leased) (some dead_letter)
  forget_done :
      (succeeded_before dead_before : ℕ) (limit : Number)
      → Moves key (purges succeeded_before dead_before limit) (some succeeded) none
  forget_dead :
      (succeeded_before dead_before : ℕ) (limit : Number)
      → Moves key (purges succeeded_before dead_before limit) (some dead_letter) none

module _ (dates : Dates) (key : String) where
  claimable-Moves :
      (now : ℕ) (worker : String) (lease_ms : ℕ) (status : JobStatus) (expiry : Option String)
      → is_claimable dates now status expiry ≡ true
      → Moves key (claims now worker lease_ms) (some status) (some leased)
  unfolding is_claimable
  claimable-Moves now worker lease_ms pending expiry h = claim now worker lease_ms
  claimable-Moves now worker lease_ms leased expiry h = take_over now worker lease_ms
  claimable-Moves now worker lease_ms succeeded expiry h = cc
  claimable-Moves now worker lease_ms dead_letter expiry h = cc

  terminal-Moves :
      (s d : ℕ) (limit : Number) (status : JobStatus)
      → is_terminal status ≡ true
      → Moves key (purges s d limit) (some status) none
  unfolding is_terminal
  terminal-Moves s d limit succeeded h = forget_done s d limit
  terminal-Moves s d limit dead_letter h = forget_dead s d limit
  terminal-Moves s d limit pending h = cc
  terminal-Moves s d limit leased h = cc

  failed-Moves :
      (now : ℕ) (worker error : String) (retry_at : Option ℕ) (dead : Bool)
      → Moves key
          (fails now key worker error retry_at dead)
          (some leased)
          (some (if dead then dead_letter else pending))
  failed-Moves now worker error retry_at true = give_up now worker error retry_at
  failed-Moves now worker error retry_at false = retry now worker error retry_at

  -- The same move between equal states, of an equal call.
  along :
      {call made : Call} {s t u v : Option JobStatus}
      → call ≡ made
      → s ≡ t
      → v ≡ u
      → Moves key made t u
      → Moves key call s v
  along {call} {made} {s} {t} {u} {v} same before after move =
      subst (λ c. Moves key c s v) (sym same)
        (subst (λ x. Moves key made x v) (sym before)
          (subst (λ x. Moves key made t x) (sym after) move))

  Effect-Moves :
      (call : Call) (before after : Option WebhookJob)
      → Effect dates key call before after
      → ((job : WebhookJob) → before ≡ some job → JobSound dates key job)
      → Moves key call
          (Option.map (λ job. job.status) before)
          (Option.map (λ job. job.status) after)
  unfolding new_job claimed_job completed_job failed_job is_eligible
  Effect-Moves call before after (was_unchanged same) sound =
      subst
        (λ o.
          Moves key call (Option.map (λ job. job.status) before) (Option.map (λ job. job.status) o))
        (sym same) stay
  Effect-Moves call before after (was_enqueued now name payload c b a) sound =
      along c (ap (Option.map (λ job. job.status)) b) (ap (Option.map (λ job. job.status)) a)
        (arrive now name payload)
  Effect-Moves call before after (was_claimed now worker lease_ms job c b fits a) sound =
      along c (ap (Option.map (λ job. job.status)) b) (ap (Option.map (λ job. job.status)) a) (
        claimable-Moves now worker lease_ms job.status job.lease_expires_at
          ((and_iff _ _).0 fits).0)
  Effect-Moves call before after (was_completed now worker job c b owned a) sound =
      along c
        (ap (Option.map (λ job. job.status)) b
          ∙ ap some (leased_of_owner dates key worker job (sound job b) owned))
        (ap (Option.map (λ job. job.status)) a) (finish now worker)
  Effect-Moves call before after (was_failed now worker e at dead job c b owned a) sound =
      along c
        (ap (Option.map (λ job. job.status)) b
          ∙ ap some (leased_of_owner dates key worker job (sound job b) owned))
        (ap (Option.map (λ job. job.status)) a) (failed-Moves now worker e at dead)
  Effect-Moves call before after (was_purged s d limit job c b over a) sound =
      along c (ap (Option.map (λ job. job.status)) b) (ap (Option.map (λ job. job.status)) a)
        (terminal-Moves s d limit job.status over)

module _ (dates : Dates) (locale : Collation) (key : String) where
  -- After any dated calls on a sound queue, each further call does to the state of a delivery what that call may
  -- do: an enqueue under its id makes it pending where it was unknown; a claim leases it from pending or takes it
  -- over from a lease; from a lease, a completion of it makes it succeeded and a failure of it pending or
  -- dead-letter, as the failure says; a purge forgets it from succeeded or dead-letter; or its state stays.
  pub queue_run-Moves :
      (earlier : List Call) (call : Call) (webhooks : Webhooks)
      → All IsDated earlier
      → QueueSound dates webhooks
      → Moves key call
          (status_of key (queue_run dates locale earlier webhooks))
          (status_of key (queue_step dates locale call (queue_run dates locale earlier webhooks)))
  unfolding queue_run
  queue_run-Moves [] call webhooks dated queue =
      Effect-Moves dates key call _ _ (queue_step-Effect dates webhooks queue locale call key)
        (queue.sound key)
  queue_run-Moves (first ∷ earlier) call webhooks (now, later) queue =
      queue_run-Moves earlier call (queue_step dates locale first webhooks) later
        (queue_step-QueueSound dates locale first webhooks now queue)
