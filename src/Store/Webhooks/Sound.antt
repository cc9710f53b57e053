-- ===== src/Store/Webhooks/Sound.antt =====
-- apps/control-plane/src/store.ts, `MemoryStore`: a well-formed queue of deliveries.
use guardianbot.Prelude.{
  refl, Bool, String, ◌≡◌, some, true, is_value, ℕ, false, ◌≢◌, lookup, ◌⊎◌, values, inl, ◌≤◌, none,
  inr, string_eq, is_some, ◌<◌, subst, sym,
}
use guardianbot.Prelude.Js.{Dates}
use guardianbot.Store.Webhooks.{
  JobStatus, WebhookJob, Webhooks, leased, dead_letter, pending, succeeded,
}
use guardianbot.Prelude.Keys.{HasDistinctKeys, key_of_value, lookup_of_mem}
use mathlib.Core.List.{Memᴰ}

-- The lease of a job: who holds it, until when, and since when the job was available.
pub record Lease (dates : Dates) (job : WebhookJob) : Type 0 where
  pub owner : String
  pub owned : job.lease_owner ≡ some owner
  pub expiry : String
  pub expires : job.lease_expires_at ≡ some expiry
  pub until : ℕ
  pub read : dates.parse expiry ≡ some until
  pub since : ℕ
  pub available : dates.parse job.available_at ≡ some since
  pub ordered : since ≤ until

unfoldable pub is_dead : JobStatus → Bool
is_dead dead_letter = true
is_dead _ = false

-- What holds of the job under a key: it is the key's delivery, it has a lease exactly while it is leased,
-- and the time of its death exactly while it is in dead-letter; what is no longer pending was tried.
pub record JobSound (dates : Dates) (key : String) (job : WebhookJob) : Type 0 where
  pub keyed : job.delivery_id ≡ key
  pub leased_held : job.status ≡ leased → Lease dates job
  pub unleased_free : job.status ≢ leased → (job.lease_owner ≡ none) × (job.lease_expires_at ≡ none)
  pub dated : is_some job.dead_lettered_at ≡ is_dead job.status
  pub tried : (job.status ≡ pending) ⊎ (0 < job.attempts)

pub record QueueSound (dates : Dates) (webhooks : Webhooks) : Type 0 where
  pub distinct : HasDistinctKeys webhooks
  pub sound :
      (key : String) (job : WebhookJob) → lookup key webhooks ≡ some job → JobSound dates key job

pub leased-cases : (s : JobStatus) → (s ≡ leased) ⊎ (s ≢ leased)
leased-cases pending = inr (λ e. cc)
leased-cases leased = inl refl
leased-cases succeeded = inr (λ e. cc)
leased-cases dead_letter = inr (λ e. cc)

module _ (dates : Dates) where
  -- A job that a worker owns is under lease.
  pub leased_of_owner :
      (key worker : String) (job : WebhookJob)
      → JobSound dates key job
      → is_value job.lease_owner worker ≡ true
      → job.status ≡ leased
  leased_of_owner key worker job sound owned = elim (leased-cases job.status) [
    | inl held ↦ held
    | inr free ↦ let e : false ≡ true = rw (sound.unleased_free free).0 at owned in cc
  ]

  -- A value of a sound queue stands under its own delivery.
  pub lookup_of_value :
      (job : WebhookJob) (webhooks : Webhooks)
      → QueueSound dates webhooks
      → Memᴰ job (values webhooks)
      → lookup job.delivery_id webhooks ≡ some job
  lookup_of_value job webhooks queue inside =
      subst (λ k. lookup k webhooks ≡ some job) (sym (queue.sound key job found).keyed) found
    where
      key : String
      key = (key_of_value job webhooks inside).0

      found : lookup key webhooks ≡ some job
      found = lookup_of_mem key job webhooks queue.distinct (key_of_value job webhooks inside).1

  pub sound_of_value :
      (job : WebhookJob) (webhooks : Webhooks)
      → QueueSound dates webhooks
      → Memᴰ job (values webhooks)
      → JobSound dates job.delivery_id job
  sound_of_value job webhooks queue inside =
      queue.sound job.delivery_id job (lookup_of_value job webhooks queue inside)
