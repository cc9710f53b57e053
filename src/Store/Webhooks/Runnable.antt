-- ===== src/Store/Webhooks/Runnable.antt =====
-- apps/control-plane/src/store.ts, `MemoryStore`: lemmas on the runnable gauge and the claim.
use guardianbot.Prelude.{
  refl, ℕ, String, Bool, List, ◌≡◌, false, true, ◌+◌, length, arith, filter, leb_iff, ◌∷◌, sym, ◌∙◌,
  ap, Bool-cases, inl, inr, is_some, ◌&&◌, first, ltb, Option, values, is_some-first-sort, some,
}
use guardianbot.Prelude.Js.{Dates, time_at_most, Collation}
use guardianbot.Store.Webhooks.{
  JobStatus, is_available, WebhookJob, lease_over, is_eligible, pending, leased, is_claimable,
  Webhooks, succeeded, claim_webhook, next_eligible, dead_letter, claim_first, claim_before,
}
use guardianbot.Store.Webhooks.Counts.{
  count_jobs, plus_if, QueueCounts, count_job, count_webhook_jobs,
}
use guardianbot.Store.Webhooks.Sound.{Lease, QueueSound, sound_of_value}
use guardianbot.Store.Webhooks.Leases.{lease_over-read}
use mathlib.Core.List.{[], Memᴰ}
use mathlib.Core.Option.{none}

module _ (dates : Dates) (now : ℕ) where
  runs : JobStatus → WebhookJob → Bool
  runs pending job = is_available dates now job
  runs leased job = lease_over dates now job.lease_expires_at
  runs _ job = false

  count_job-runnable :
      (status : JobStatus) (job : WebhookJob) (counts : QueueCounts)
      → (count_job dates now status job counts).runnable ≡ plus_if (runs status job) counts.runnable
  unfolding count_job runs plus_if
  count_job-runnable pending job counts = refl
  count_job-runnable leased job counts = refl
  count_job-runnable succeeded job counts = refl
  count_job-runnable dead_letter job counts = refl

  count_jobs-runnable :
      (jobs : List WebhookJob) (counts : QueueCounts)
      → (count_jobs dates now jobs counts).runnable
        ≡ counts.runnable + length (filter (λ job. runs job.status job) jobs)
  unfolding count_jobs plus_if
  count_jobs-runnable [] counts = omega arith
  count_jobs-runnable (job ∷ jobs) counts =
      count_jobs-runnable jobs (count_job dates now job.status job counts)
      ∙ elim (Bool-cases (runs job.status job)) [
        | inl counts_in ↦ rw (count_job-runnable job.status job counts, counts_in) (omega arith)
        | inr left_out ↦ rw (count_job-runnable job.status job counts, left_out) refl
      ]

  lease_over-available :
      (job : WebhookJob)
      → Lease dates job
      → lease_over dates now job.lease_expires_at ≡ true
      → is_available dates now job ≡ true
  unfolding is_available time_at_most
  lease_over-available job lease over = rw lease.available (
      (leb_iff lease.since now).1 (
        omega (
          arith,
          lease.ordered,
          (leb_iff lease.until now).0 (
              sym (
                ap (lease_over dates now) lease.expires
                ∙ lease_over-read dates now lease.expiry lease.until lease.read)
              ∙ over),
        )))

  leased-eligible :
      (job : WebhookJob)
      → Lease dates job
      → lease_over dates now job.lease_expires_at
        ≡ (lease_over dates now job.lease_expires_at && is_available dates now job)
  leased-eligible job lease = elim (Bool-cases (lease_over dates now job.lease_expires_at)) [
    | inl over ↦ rw (over, lease_over-available job lease over) refl
    | inr running ↦ rw running refl
  ]

  runs-eligible :
      (status : JobStatus) (job : WebhookJob)
      → (status ≡ leased → Lease dates job)
      → runs status job
        ≡ (is_claimable dates now status job.lease_expires_at && is_available dates now job)
  unfolding runs is_claimable
  runs-eligible pending job held = refl
  runs-eligible leased job held = leased-eligible job (held refl)
  runs-eligible succeeded job held = refl
  runs-eligible dead_letter job held = refl

zero_add : (n : ℕ) → 0 + n ≡ n
zero_add n = omega arith

module _ {ℓ} {A : Type ℓ} where
  filter_ext_on :
      (p q : A → Bool) (xs : List A) → ((a : A) → Memᴰ a xs → p a ≡ q a) → filter p xs ≡ filter q xs
  filter_ext_on p q [] h = refl
  filter_ext_on p q (x ∷ xs) h =
      rw (h x (Memᴰ.head refl), filter_ext_on p q xs (λ a m. h a (Memᴰ.tail m))) refl

  is_some-first-length : (xs : List A) → is_some (first xs) ≡ ltb 0 (length xs)
  is_some-first-length [] = refl
  is_some-first-length (x ∷ xs) = ground arith

module _ (dates : Dates) (now : ℕ) (locale : Collation) (webhooks : Webhooks) where
  -- The runnable gauge is the number of deliveries that a claim may take.
  runnable-length :
      QueueSound dates webhooks
      → (count_webhook_jobs dates now webhooks).runnable
        ≡ length (filter (is_eligible dates now) (values webhooks))
  unfolding count_webhook_jobs is_eligible
  runnable-length queue =
      count_jobs-runnable dates now (values webhooks)
        (record { pending = 0; leased = 0; dead_letter = 0; runnable = 0 })
      ∙ zero_add _
      ∙ ap length (
          filter_ext_on (λ job. runs dates now job.status job) (is_eligible dates now)
            (values webhooks)
            λ job inside.
              runs-eligible dates now job.status job
                (sound_of_value dates job webhooks queue inside).leased_held)

  claim-is_some :
      (worker : String) (lease_ms : ℕ)
      → is_some (claim_webhook dates now locale worker lease_ms webhooks).0
        ≡ is_some (next_eligible dates now locale webhooks)
  unfolding claim_webhook
  claim-is_some worker lease_ms = go (next_eligible dates now locale webhooks)
    where
      go :
          (next : Option WebhookJob)
          → is_some (claim_first dates now worker lease_ms next webhooks).0 ≡ is_some next
      go none = unfold claim_first in refl
      go (some job) = unfold claim_first in refl

  -- On a sound queue a claim is given a delivery exactly when the runnable gauge of that moment is above 0,
  -- and the gauge is the number of deliveries that a claim may take.
  pub claim-runnable :
      (worker : String) (lease_ms : ℕ)
      → QueueSound dates webhooks
      → (is_some (claim_webhook dates now locale worker lease_ms webhooks).0
          ≡ ltb 0 (count_webhook_jobs dates now webhooks).runnable)
        × ((count_webhook_jobs dates now webhooks).runnable
            ≡ length (filter (is_eligible dates now) (values webhooks)))
  unfolding next_eligible
  claim-runnable worker lease_ms queue = (
    claim-is_some worker lease_ms
        ∙ is_some-first-sort (claim_before dates locale) _
        ∙ is_some-first-length (filter (is_eligible dates now) (values webhooks))
        ∙ ap (ltb 0) (sym (runnable-length queue)),
    runnable-length queue,
  )
