-- ===== src/Store/Webhooks/Deletion.antt =====
-- apps/control-plane/src/store.ts, `MemoryStore`: lemmas on the deletion of deliveries.
use guardianbot.Prelude.{
  refl, String, lookup, ◌≡◌, none, inr, inl, Bool-cases, ◌==◌, subst, string_eq, List, ◌∷◌, ◌⊎◌,
  delete, lookup-delete_self, ◌∙◌, sym, length, ap, suc, All, ◌≢◌, beq_of_ne, arith, All-members,
  All-mem, some, ◌+◌,
}
use guardianbot.Store.Webhooks.{Webhooks, WebhookJob}
use guardianbot.Prelude.Keys.{ne_of_beq, lookup-delete_ne, HasDistinctKeys, delete-HasDistinctKeys}
use guardianbot.Prelude.Distinct.{AreDistinct}
use guardianbot.Store.Webhooks.Purge.{delete_jobs}
use mathlib.Core.List.{Memᴰ, []}

pub delete_jobs-none :
    (key : String) (jobs : List WebhookJob) (webhooks : Webhooks)
    → lookup key webhooks ≡ none
    → lookup key (delete_jobs jobs webhooks) ≡ none
unfolding delete_jobs
delete_jobs-none key [] webhooks h = h
delete_jobs-none key (job ∷ jobs) webhooks h =
    delete_jobs-none key jobs _ (elim (Bool-cases (job.delivery_id == key)) [
      | inl same ↦
          subst (λ k. lookup k (delete job.delivery_id webhooks) ≡ none)
            ((string_eq.beq_iff job.delivery_id key).0 same)
            (lookup-delete_self job.delivery_id webhooks)
      | inr differ ↦
          lookup-delete_ne job.delivery_id key webhooks (ne_of_beq job.delivery_id key differ) ∙ h
    ])

-- A deletion either leaves a key alone or takes away a job that stands under it.
pub delete_jobs-cases :
    (key : String) (jobs : List WebhookJob) (webhooks : Webhooks)
    → (lookup key (delete_jobs jobs webhooks) ≡ lookup key webhooks)
      ⊎ ((job : WebhookJob) × Memᴰ job jobs
          × (job.delivery_id ≡ key)
          × (lookup key (delete_jobs jobs webhooks) ≡ none))
unfolding delete_jobs
delete_jobs-cases key [] webhooks = inl refl
delete_jobs-cases key (job ∷ jobs) webhooks = elim (Bool-cases (job.delivery_id == key)) [
  | inl same ↦
      let here : job.delivery_id ≡ key = (string_eq.beq_iff job.delivery_id key).0 same in
      inr (
        job,
        Memᴰ.head refl,
        here,
        delete_jobs-none key jobs _ (
            subst (λ k. lookup k (delete job.delivery_id webhooks) ≡ none) here
              (lookup-delete_self job.delivery_id webhooks)),
      )
  | inr differ ↦ elim (delete_jobs-cases key jobs (delete job.delivery_id webhooks)) [
    | inl same ↦ inl (
        same ∙ lookup-delete_ne job.delivery_id key webhooks (ne_of_beq job.delivery_id key differ))
    | inr (old, inside, own, gone) ↦ inr (old, Memᴰ.tail inside, own, gone)
  ]
]

module _ {ℓ} {V : Type ℓ} where
  length-delete-none :
      (k : String) (m : List (String × V)) → lookup k m ≡ none → length (delete k m) ≡ length m
  length-delete-none k [] h = refl
  length-delete-none k ((j, w) ∷ m) h = elim (Bool-cases (j == k)) [
    | inl same ↦ let e : some w ≡ none = rw same at h in cc
    | inr differ ↦ rw differ (ap suc (length-delete-none k m (rw differ at h)))
  ]

  not_found :
      (k : String) (m : List (String × V)) → All (λ entry. k ≢ entry.0) m → lookup k m ≡ none
  not_found k [] h = refl
  not_found k ((j, w) ∷ m) (ne, h) = rw (beq_of_ne j k (λ e. ne (sym e))) (not_found k m h)

  -- A key that is there stands once.
  length-delete :
      (k : String) (v : V) (m : List (String × V))
      → HasDistinctKeys m
      → lookup k m ≡ some v
      → suc (length (delete k m)) ≡ length m
  unfolding AreDistinct
  length-delete k v [] d h = cc
  length-delete k v ((j, w) ∷ m) (ne, d) h = elim (Bool-cases (j == k)) [
    | inl same ↦ rw same (
        ap suc (
          length-delete-none k m (
            not_found k m
              (subst (λ i. All (λ entry. i ≢ entry.0) m) ((string_eq.beq_iff j k).0 same) ne))))
    | inr differ ↦ rw differ (ap suc (length-delete k v m d (rw differ at h)))
  ]

pub delete_jobs-length :
    (jobs : List WebhookJob) (webhooks : Webhooks)
    → HasDistinctKeys webhooks
    → AreDistinct (λ job. job.delivery_id) jobs
    → All (λ job. lookup job.delivery_id webhooks ≡ some job) jobs
    → length jobs + length (delete_jobs jobs webhooks) ≡ length webhooks
unfolding delete_jobs AreDistinct
delete_jobs-length [] webhooks d apart found = omega arith
delete_jobs-length (job ∷ jobs) webhooks d (ne, apart) (here, found) = omega (
  arith,
  length-delete job.delivery_id job webhooks d here,
  delete_jobs-length jobs (delete job.delivery_id webhooks)
      (delete-HasDistinctKeys job.delivery_id webhooks d) apart
      (All-members _ jobs λ other inside.
        lookup-delete_ne job.delivery_id other.delivery_id webhooks (All-mem _ jobs ne inside)
        ∙ All-mem _ jobs found inside),
)

pub delete_jobs-gone :
    (jobs : List WebhookJob) (webhooks : Webhooks) (job : WebhookJob)
    → Memᴰ job jobs
    → lookup job.delivery_id (delete_jobs jobs webhooks) ≡ none
unfolding delete_jobs
delete_jobs-gone [] webhooks job inside = elim inside [ ]
delete_jobs-gone (first ∷ jobs) webhooks job (Memᴰ.head same) =
    subst (λ j. lookup j.delivery_id (delete_jobs jobs (delete first.delivery_id webhooks)) ≡ none)
      (sym same)
      (delete_jobs-none first.delivery_id jobs _ (lookup-delete_self first.delivery_id webhooks))
delete_jobs-gone (first ∷ jobs) webhooks job (Memᴰ.tail inside) =
    delete_jobs-gone jobs (delete first.delivery_id webhooks) job inside
