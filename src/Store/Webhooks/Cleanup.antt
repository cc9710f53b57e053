-- ===== src/Store/Webhooks/Cleanup.antt =====
-- apps/control-plane/src/store.ts, `MemoryStore.purgeTerminalWebhookJobs`: lemmas on what a purge deletes.
use guardianbot.Prelude.{
  refl, String, ℕ, lookup, All, ◌≤◌, ◌≡◌, none, some, values, All-members, ◌+◌, length, All-mem,
  arith, ◌⊎◌, true, ◌∷◌, inl, string_eq, Bool-cases, mem-map_inv, All-sort, inr, sym,
  mem-filter_inv, subst, ap, ◌∙◌, length-take, leb, sort, Result, filter, ◌&&◌, err, ◌<◌, false, ok,
  take_all, fits_or_full, mem_of_lookup, mem-filter,
}
use guardianbot.Prelude.Distinct.{
  AreDistinct, take-AreDistinct, sort-AreDistinct, filter-AreDistinct, All-take,
}
use guardianbot.Prelude.Js.{Dates, nat, Number, max_safe_integer, neg, other, nat_injective}
use guardianbot.Store.Webhooks.Purge.{
  purge_candidates, purge_within, max_cleanup_batch, is_purgeable, purge_before,
  purge_terminal_webhook_jobs, checked_purge_limit, PurgeError, min_cleanup_batch,
}
use guardianbot.Store.Webhooks.{Webhooks, WebhookJob}
use guardianbot.Prelude.Keys.{HasDistinctKeys, lookup_of_mem}
use guardianbot.Store.Webhooks.Sound.{QueueSound, lookup_of_value}
use guardianbot.Store.Webhooks.Deletion.{delete_jobs-cases, delete_jobs-gone, delete_jobs-length}
use guardianbot.Store.Webhooks.Expired.{IsExpired, purgeable-IsExpired, IsExpired-purgeable}
use mathlib.Core.List.{Memᴰ}
use mathlib.Core.List.{[]}

module _ (dates : Dates) where
  keyed-AreDistinct :
      (webhooks : Webhooks)
      → All (λ entry. entry.1.delivery_id ≡ entry.0) webhooks
      → HasDistinctKeys webhooks
      → AreDistinct (λ job. job.delivery_id) (values webhooks)
  unfolding AreDistinct
  keyed-AreDistinct [] keyed d = tt
  keyed-AreDistinct ((key, job) ∷ webhooks) (own, keyed) (ne, d) = (
    All-members _ (values webhooks) λ other inside.
        let (entry, at_entry, same) = mem-map_inv (λ e. e.1) webhooks inside in
        λ e.
          All-mem _ webhooks ne at_entry
            (sym own ∙ e ∙ ap (λ j. j.delivery_id) (sym same) ∙ All-mem _ webhooks keyed at_entry),
    keyed-AreDistinct webhooks keyed d,
  )

  queue-keyed :
      (webhooks : Webhooks)
      → QueueSound dates webhooks
      → All (λ entry. entry.1.delivery_id ≡ entry.0) webhooks
  queue-keyed webhooks queue = All-members _ webhooks λ entry inside.
      (queue.sound entry.0 entry.1
        (lookup_of_mem entry.0 entry.1 webhooks queue.distinct inside)).keyed

module _ (dates : Dates) (succeeded_before dead_before : ℕ) where
  -- What a purge within a limit leaves and reports.
  pub record Purged (webhooks : Webhooks) (limit deleted : ℕ) (left : Webhooks) : Type 0 where
    pub bounded : deleted ≤ limit
    pub counted : deleted + length left ≡ length webhooks
    -- Where fewer than the limit are deleted, none that is past its retention is left.
    pub thorough :
        (deleted ≡ limit)
        ⊎ ((job : WebhookJob)
            → lookup job.delivery_id webhooks ≡ some job
            → IsExpired dates succeeded_before dead_before job
            → lookup job.delivery_id left ≡ none)
    pub only_old :
        (key : String)
        → (lookup key left ≡ lookup key webhooks)
          ⊎ ((job : WebhookJob) × (lookup key webhooks ≡ some job)
              × IsExpired dates succeeded_before dead_before job
              × (lookup key left ≡ none))

  candidates-purgeable :
      (webhooks : Webhooks) (limit : ℕ)
      → QueueSound dates webhooks
      → All
          (λ job.
            (lookup job.delivery_id webhooks ≡ some job)
            × (is_purgeable dates succeeded_before dead_before job.status job ≡ true))
          (purge_candidates dates succeeded_before dead_before limit webhooks)
  unfolding purge_candidates
  candidates-purgeable webhooks limit queue =
      All-take (λ job. job.delivery_id) _ limit _
        ((All-sort (purge_before dates) _ _).0 (
          All-members _ _ λ job inside.
            let (there, fits) = mem-filter_inv _ (values webhooks) inside in
            (lookup_of_value dates job webhooks queue there, fits)))

  candidates-AreDistinct :
      (webhooks : Webhooks) (limit : ℕ)
      → QueueSound dates webhooks
      → AreDistinct
          (λ job. job.delivery_id)
          (purge_candidates dates succeeded_before dead_before limit webhooks)
  unfolding purge_candidates
  candidates-AreDistinct webhooks limit queue = take-AreDistinct _ limit _ (
      sort-AreDistinct _ (purge_before dates) _ (
        filter-AreDistinct _ _ _
          (keyed-AreDistinct dates webhooks (queue-keyed dates webhooks queue) queue.distinct)))

  length-candidates :
      (webhooks : Webhooks) (limit : ℕ)
      → length (purge_candidates dates succeeded_before dead_before limit webhooks) ≤ limit
  unfolding purge_candidates
  length-candidates webhooks limit = omega (
    arith,
    length-take limit (
        sort (purge_before dates) (
          filter (λ job. is_purgeable dates succeeded_before dead_before job.status job)
            (values webhooks))),
  )

  expired-chosen :
      (webhooks : Webhooks) (limit : ℕ) (job : WebhookJob)
      → length (
          sort (purge_before dates) (
            filter
              (λ job. is_purgeable dates succeeded_before dead_before job.status job)
              (values webhooks)))
        ≤ limit
      → lookup job.delivery_id webhooks ≡ some job
      → IsExpired dates succeeded_before dead_before job
      → Memᴰ job (purge_candidates dates succeeded_before dead_before limit webhooks)
  unfolding purge_candidates
  expired-chosen webhooks limit job fits there old =
      let p = λ (j : WebhookJob). is_purgeable dates succeeded_before dead_before j.status j in
      let sorted = sort (purge_before dates) (filter p (values webhooks)) in
      subst (λ xs. Memᴰ job xs) (sym (take_all limit sorted fits))
        (All-mem _ (filter p (values webhooks))
          ((All-sort (purge_before dates) (λ j. Memᴰ j sorted) (filter p (values webhooks))).1
            (All-members _ sorted λ j inside. inside))
          (mem-filter p (values webhooks) (mem_of_lookup job.delivery_id job webhooks there)
            (IsExpired-purgeable dates succeeded_before dead_before job old)))

  purge_within-Purged :
      (webhooks : Webhooks) (limit : ℕ)
      → QueueSound dates webhooks
      → let (deleted, left) = purge_within dates succeeded_before dead_before limit webhooks in
        Purged webhooks limit deleted left
  unfolding purge_within
  purge_within-Purged webhooks limit queue =
      let chosen = purge_candidates dates succeeded_before dead_before limit webhooks in
      let facts = candidates-purgeable webhooks limit queue in
      record {
        bounded = length-candidates webhooks limit;
        counted =
            delete_jobs-length chosen webhooks queue.distinct
              (candidates-AreDistinct webhooks limit queue)
              (All-members _ chosen λ job inside. (All-mem _ chosen facts inside).0);
        thorough =
            elim (fits_or_full limit (
              sort (purge_before dates) (
                filter (λ job. is_purgeable dates succeeded_before dead_before job.status job)
                  (values webhooks)))) [
                    | inr full ↦ inl (unfold purge_candidates in full)
                    | inl fits ↦ inr (λ job there old.
                        delete_jobs-gone chosen webhooks job
                          (expired-chosen webhooks limit job fits there old))
                  ];
        only_old = λ key. elim (delete_jobs-cases key chosen webhooks) [
          | inl same ↦ inl same
          | inr (job, inside, own, gone) ↦
              let (found, old) = All-mem _ chosen facts inside in
              inr (
                job,
                subst (λ k. lookup k webhooks ≡ some job) own found,
                purgeable-IsExpired dates succeeded_before dead_before job.status job refl old,
                gone,
              )
        ];
      }

  -- How a purge with a limit ends: with an error, where the limit is no natural number from 1 to 10,000, or
  -- with what a purge within that limit promises.
  unfoldable pub PurgeEnds : Number → Webhooks → Result PurgeError (ℕ × Webhooks) → Type 0
  PurgeEnds limit webhooks (err e) =
      (n : ℕ) → limit ≡ nat n → (n < min_cleanup_batch) ⊎ (max_cleanup_batch < n)
  PurgeEnds limit webhooks (ok (deleted, left)) =
      (n : ℕ) × (limit ≡ nat n)
      × (min_cleanup_batch ≤ n)
      × (n ≤ max_cleanup_batch)
      × Purged webhooks n deleted left

  within_batch :
      (n : ℕ)
      → (leb n max_safe_integer && leb min_cleanup_batch n && leb n max_cleanup_batch) ≡ true
      → (min_cleanup_batch ≤ n) × (n ≤ max_cleanup_batch)
  within_batch n h = ground (arith, h)

  outside_batch :
      (n : ℕ)
      → (leb n max_safe_integer && leb min_cleanup_batch n && leb n max_cleanup_batch) ≡ false
      → (n < min_cleanup_batch) ⊎ (max_cleanup_batch < n)
  outside_batch n h = ground (arith, h)

  -- On a sound queue a purge throws exactly where its limit is no natural number from 1 to 10,000. Elsewhere
  -- it deletes at most as many deliveries as the limit, each of them succeeded or in dead-letter since before
  -- the time that bounds its retention, and fewer only where it deletes all that are; it keeps every other
  -- delivery as it was, and reports the number of deliveries that are gone.
  pub purge-PurgeEnds :
      (limit : Number) (webhooks : Webhooks)
      → QueueSound dates webhooks
      → PurgeEnds limit webhooks
          (purge_terminal_webhook_jobs dates succeeded_before dead_before limit webhooks)
  unfolding purge_terminal_webhook_jobs checked_purge_limit PurgeEnds
  purge-PurgeEnds (nat n) webhooks queue =
      elim (Bool-cases
        (leb n max_safe_integer && leb min_cleanup_batch n && leb n max_cleanup_batch)) [
          | inl good ↦ rw good (
              let (low, high) = within_batch n good in
              (n, refl, low, high, purge_within-Purged webhooks n queue))
          | inr bad ↦ rw bad (λ m e.
              subst (λ i. (i < min_cleanup_batch) ⊎ (max_cleanup_batch < i)) (nat_injective n m e)
                (outside_batch n bad))
        ]
  purge-PurgeEnds (neg n) webhooks queue = λ m e. cc
  purge-PurgeEnds other webhooks queue = λ m e. cc
