-- ===== src/Store/Webhooks/Expired.antt =====
-- apps/control-plane/src/store.ts, `MemoryStore.purgeTerminalWebhookJobs`: when a delivery is past its retention.
use guardianbot.Prelude.{
  refl, String, ℕ, ◌≡◌, ◌≢◌, none, some, ◌⊎◌, true, inl, string_eq, Bool-cases, beq_of_ne, inr,
  ◌==◌, ◌<◌, false, Option, ltb_iff,
}
use guardianbot.Prelude.Js.{Dates, time_below}
use guardianbot.Store.Webhooks.Purge.{parsed, or_text, is_purgeable}
use guardianbot.Store.Webhooks.{WebhookJob, JobStatus, succeeded, dead_letter, pending, leased}

early_time :
    (found : Option ℕ) (cutoff : ℕ)
    → time_below found cutoff ≡ true
    → (t : ℕ) × (found ≡ some t) × (t < cutoff)
unfolding time_below
early_time none cutoff h = cc
early_time (some t) cutoff h = (t, refl, (ltb_iff t cutoff).0 h)

module _ (dates : Dates) (succeeded_before dead_before : ℕ) where
  -- A delivery past its retention: it succeeded, and was last updated before the one time; or it is in dead-letter
  -- since, or where that is not recorded was last updated, before the other.
  pub data IsExpired (job : WebhookJob) : Type 0 where
    done :
        (updated : String) (t : ℕ)
        → job.status ≡ succeeded
        → job.updated_at ≡ some updated
        → updated ≢ ""
        → dates.parse updated ≡ some t
        → t < succeeded_before
        → IsExpired job
    dead :
        (died : String) (t : ℕ)
        → job.status ≡ dead_letter
        → (job.dead_lettered_at ≡ some died)
          ⊎ ((job.dead_lettered_at ≡ none) × (job.updated_at ≡ some died))
        → died ≢ ""
        → dates.parse died ≡ some t
        → t < dead_before
        → IsExpired job

  before_cutoff :
      (found : Option String) (cutoff : ℕ)
      → time_below (parsed dates found) cutoff ≡ true
      → (text : String) × (t : ℕ) × (found ≡ some text)
        × (text ≢ "")
        × (dates.parse text ≡ some t)
        × (t < cutoff)
  unfolding parsed
  before_cutoff none cutoff h = let e : false ≡ true = unfold time_below in h in cc
  before_cutoff (some text) cutoff h = elim (Bool-cases (text == "")) [
    | inl empty ↦
        let e : time_below none cutoff ≡ true = rw empty at h in
        let k : false ≡ true = unfold time_below in e in cc
    | inr full ↦
        let (t, known, early) = early_time (dates.parse text) cutoff (rw full at h) in
        (text, t, refl, (λ e. let k = (string_eq.beq_iff text "").1 e in cc), known, early)
  ]

  died_at :
      (dead_at updated_at : Option String) (died : String)
      → or_text dates dead_at updated_at ≡ some died
      → (dead_at ≡ some died) ⊎ ((dead_at ≡ none) × (updated_at ≡ some died))
  died_at none updated_at died h = inr (refl, h)
  died_at (some text) updated_at died h = inl h

  pub purgeable-IsExpired :
      (status : JobStatus) (job : WebhookJob)
      → job.status ≡ status
      → is_purgeable dates succeeded_before dead_before status job ≡ true
      → IsExpired job
  unfolding is_purgeable
  purgeable-IsExpired succeeded job known h =
      let (text, t, found, full, read, early) = before_cutoff job.updated_at succeeded_before h in
      done text t known found full read early
  purgeable-IsExpired dead_letter job known h =
      let (text, t, found, full, read, early) =
        before_cutoff (or_text dates job.dead_lettered_at job.updated_at) dead_before h in
      dead text t known (died_at job.dead_lettered_at job.updated_at text found) full read early
  purgeable-IsExpired pending job known h = cc
  purgeable-IsExpired leased job known h = cc

  early_enough :
      (found : Option String) (text : String) (t cutoff : ℕ)
      → found ≡ some text
      → text ≢ ""
      → dates.parse text ≡ some t
      → t < cutoff
      → time_below (parsed dates found) cutoff ≡ true
  unfolding parsed time_below
  early_enough found text t cutoff is full read early =
      rw (is, beq_of_ne text "" full, read) ((ltb_iff t cutoff).1 early)

  died_text :
      (dead_at updated_at : Option String) (died : String)
      → (dead_at ≡ some died) ⊎ ((dead_at ≡ none) × (updated_at ≡ some died))
      → or_text dates dead_at updated_at ≡ some died
  died_text dead_at updated_at died (inl known) = rw known refl
  died_text dead_at updated_at died (inr (never, since)) = rw never since

  pub IsExpired-purgeable :
      (job : WebhookJob)
      → IsExpired job
      → is_purgeable dates succeeded_before dead_before job.status job ≡ true
  unfolding is_purgeable
  IsExpired-purgeable job (done updated t known found full read early) =
      rw known (early_enough job.updated_at updated t succeeded_before found full read early)
  IsExpired-purgeable job (dead died t known found full read early) = rw known (
      early_enough (or_text dates job.dead_lettered_at job.updated_at) died t dead_before
        (died_text job.dead_lettered_at job.updated_at died found) full read early)
