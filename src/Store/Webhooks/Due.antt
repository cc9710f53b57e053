-- ===== src/Store/Webhooks/Due.antt =====
-- apps/control-plane/src/store.ts, `MemoryStore.claimWebhook`: which deliveries a claim may take.
use guardianbot.Prelude.{
  refl, ℕ, String, ◌≡◌, some, true, ◌||◌, Option, and_iff, inl, none, inr, string_eq, ◌≤◌, ◌⊎◌,
  ◌==◌, leb_iff, Bool-cases,
}
use guardianbot.Prelude.Js.{Dates, time_at_most}
use guardianbot.Store.Webhooks.{
  WebhookJob, JobStatus, pending, leased, succeeded, dead_letter, is_claimable, lease_over,
  is_eligible, is_available,
}
use mathlib.Core.Option.{none}

-- A job that a worker may have now: it waits, or it was leased and the lease has no end or one that is over; and it
-- has been available since a readable time.
pub record IsDue (dates : Dates) (now : ℕ) (job : WebhookJob) : Type 0 where
  pub since : ℕ
  pub since_read : dates.parse job.available_at ≡ some since
  pub since_past : since ≤ now
  pub free :
      (job.status ≡ pending)
      ⊎ ((job.status ≡ leased)
          × ((job.lease_expires_at ≡ none)
              ⊎ ((text : String) × (job.lease_expires_at ≡ some text)
                  × ((text ≡ "") ⊎ ((t : ℕ) × (dates.parse text ≡ some t) × (t ≤ now))))))

past_time :
    (found : Option ℕ) (now : ℕ)
    → time_at_most found now ≡ true
    → (t : ℕ) × (found ≡ some t) × (t ≤ now)
unfolding time_at_most
past_time none now h = cc
past_time (some t) now h = (t, refl, (leb_iff t now).0 h)

module _ (dates : Dates) (now : ℕ) where
  lease_over-text :
      (text : String)
      → ((text == "") || time_at_most (dates.parse text) now) ≡ true
      → (text ≡ "") ⊎ ((t : ℕ) × (dates.parse text ≡ some t) × (t ≤ now))
  lease_over-text text h = elim (Bool-cases (text == "")) [
    | inl empty ↦ inl ((string_eq.beq_iff text "").0 empty)
    | inr full ↦ inr (past_time (dates.parse text) now (rw full at h))
  ]

  claimable-free :
      (status : JobStatus) (expiry : Option String)
      → is_claimable dates now status expiry ≡ true
      → (status ≡ pending)
        ⊎ ((status ≡ leased)
            × ((expiry ≡ none)
                ⊎ ((text : String) × (expiry ≡ some text)
                    × ((text ≡ "") ⊎ ((t : ℕ) × (dates.parse text ≡ some t) × (t ≤ now))))))
  unfolding is_claimable lease_over
  claimable-free pending expiry h = inl refl
  claimable-free leased none h = inr (refl, inl refl)
  claimable-free leased (some text) h = inr (refl, inr (text, refl, lease_over-text text h))
  claimable-free succeeded expiry h = cc
  claimable-free dead_letter expiry h = cc

  pub eligible-IsDue : (job : WebhookJob) → is_eligible dates now job ≡ true → IsDue dates now job
  unfolding is_eligible is_available
  eligible-IsDue job h =
      let (claimable, available) = (and_iff _ _).0 h in
      let (t, known, past) = past_time (dates.parse job.available_at) now available in
      record {
        since = t;
        since_read = known;
        since_past = past;
        free = claimable-free job.status job.lease_expires_at claimable;
      }

  read_past : (found : Option ℕ) (t : ℕ) → found ≡ some t → t ≤ now → time_at_most found now ≡ true
  unfolding time_at_most
  read_past found t e h = rw e ((leb_iff t now).1 h)

  free-claimable :
      (status : JobStatus) (expiry : Option String)
      → (status ≡ pending)
        ⊎ ((status ≡ leased)
            × ((expiry ≡ none)
                ⊎ ((text : String) × (expiry ≡ some text)
                    × ((text ≡ "") ⊎ ((t : ℕ) × (dates.parse text ≡ some t) × (t ≤ now))))))
      → is_claimable dates now status expiry ≡ true
  unfolding is_claimable lease_over
  free-claimable status expiry (inl waits) = rw waits refl
  free-claimable status expiry (inr (held, inl open_end)) = rw (held, open_end) refl
  free-claimable status expiry (inr (held, inr (text, e, inl empty))) = rw (held, e, empty) refl
  free-claimable status expiry (inr (held, inr (text, e, inr (t, read, over)))) =
      rw (held, e)
        (elim (Bool-cases (text == "")) [
          | inl empty ↦ rw empty refl
          | inr full ↦ rw full (read_past (dates.parse text) t read over)
        ])

  pub IsDue-eligible : (job : WebhookJob) → IsDue dates now job → is_eligible dates now job ≡ true
  unfolding is_eligible is_available
  IsDue-eligible job due = (and_iff _ _).1 (
    free-claimable job.status job.lease_expires_at due.free,
    read_past (dates.parse job.available_at) due.since due.since_read due.since_past,
  )
