-- ===== src/Service/Deliveries/Ends.antt =====
-- apps/control-plane/src/service.ts, `processNextWebhook`: lemmas on a delivery whose handler keeps failing.
use guardianbot.Prelude.{
  refl, ℕ, String, Bool, ◌==◌, ◌∷◌, ◌≡◌, List, true, [], ◌≤◌, string_eq, false, ◌<◌, ◌+◌, some,
  sort, Option, ◌*◌, insert_sorted, is_value, none, leb, not, ◌⊎◌, arith, ap, length, ◌-◌, ◌||◌,
  Bool-cases, leb_iff, inl, inr, subst, sym,
}
use guardianbot.Service.Deliveries.{
  Outcome, process_next_webhook, backend_error, ServiceState, other_error, settle,
  compute_backoff_ms, fail_counted, process_claimed, credits, max, charged_attempt, rate_limited,
  handled, aborted,
}
use guardianbot.Store.Webhooks.{
  WebhookJob, Webhooks, claim_webhook, fail_webhook, pending, next_eligible, update_owned,
  claim_first, failed_job, claimed_job, is_eligible, dead_letter, is_claimable, is_available,
}
use guardianbot.Prelude.Js.{Dates, Collation, time_at_most}

-- One turn of a worker: when it claims, when the handler has ended, and how.
pub record Round : Type 0 where
  pub start : ℕ
  pub finish : ℕ
  pub outcome : Outcome

-- The errors that count as an attempt: all but rate limits and aborts.
unfoldable pub is_counted : Outcome → Bool
is_counted (backend_error retryable message) = true
is_counted (other_error message) = true
is_counted _ = false

unfoldable pub alone : WebhookJob → Webhooks
alone job = (job.delivery_id, job) ∷ []

beq_refl : (s : String) → (s == s) ≡ true
beq_refl s = (string_eq.beq_iff s s).1 refl

module _ (dates : Dates) (locale : Collation) (max_attempts lease_ms : ℕ) (worker : String) where
  unfoldable pub run_rounds : List Round → ServiceState → ServiceState
  unfolding process_next_webhook
  run_rounds [] state = state
  run_rounds (round ∷ rounds) state =
      run_rounds rounds
        (process_next_webhook dates locale max_attempts lease_ms worker false round.start
          round.finish round.outcome state).1

  -- Turns that all fail with a counted error, none of them before `ready`, each at least the longest backoff
  -- after the one before, at times that can be printed.
  unfoldable pub Failing : ℕ → List Round → Type 0
  Failing ready [] = Unit
  Failing ready (round ∷ rounds) =
      (ready ≤ round.start)
      × (is_counted round.outcome ≡ true)
      × (round.start + lease_ms < 8_640_000_000_000_000)
      × (round.finish + 30 * 60_000 < 8_640_000_000_000_000)
      × Failing (round.finish + 30 * 60_000) rounds

  -- A delivery that waits: pending after `n` attempts, of fewer than the maximum, and available at `ready`.
  pub record Waiting (n ready : ℕ) (job : WebhookJob) : Type 0 where
    pub is_pending : job.status ≡ pending
    pub tried : job.attempts ≡ n
    pub few : n < max_attempts
    pub since : ℕ
    pub available : dates.parse job.available_at ≡ some since
    pub early : since ≤ ready

  claim_alone :
      (now : ℕ) (job : WebhookJob)
      → is_eligible dates now job ≡ true
      → claim_webhook dates now locale worker lease_ms (alone job) ≡ (
        some (claimed_job dates now worker lease_ms job),
        alone (claimed_job dates now worker lease_ms job),
      )
  unfolding claim_webhook next_eligible claim_first alone claimed_job sort insert_sorted
  claim_alone now job fits = rw fits (rw (beq_refl job.delivery_id) refl)

  claim_alone_none :
      (now : ℕ) (job : WebhookJob)
      → is_eligible dates now job ≡ false
      → claim_webhook dates now locale worker lease_ms (alone job) ≡ (none, alone job)
  unfolding claim_webhook next_eligible claim_first alone sort
  claim_alone_none now job fits = rw fits refl

  fail_alone :
      (now : ℕ) (message : String) (retry_at : Option ℕ) (dead : Bool) (job : WebhookJob)
      → is_value job.lease_owner worker ≡ true
      → fail_webhook dates now job.delivery_id worker message retry_at dead (alone job)
        ≡ alone (failed_job dates now message retry_at dead job)
  unfolding fail_webhook update_owned alone failed_job
  fail_alone now message retry_at dead job owned =
      rw (beq_refl job.delivery_id) (rw owned (rw (beq_refl job.delivery_id) refl))

  settle_counted :
      (now : ℕ) (job : WebhookJob) (outcome : Outcome) (state : ServiceState)
      → is_counted outcome ≡ true
      → (message : String) × (permanent : Bool) × (settle dates max_attempts worker now job outcome
            state
          ≡ fail_counted dates max_attempts worker now job message permanent state)
  unfolding settle is_counted
  settle_counted now job (backend_error retryable message) state h = (message, not retryable, refl)
  settle_counted now job (other_error message) state h = (message, false, refl)
  settle_counted now job handled state h = let e : false ≡ true = h in cc
  settle_counted now job (rate_limited retry_at) state h = let e : false ≡ true = h in cc
  settle_counted now job aborted state h = let e : false ≡ true = h in cc

  -- What one failing turn leaves of a delivery that is alone and eligible.
  Left : ℕ → ℕ → List (String × ℕ) → ServiceState → Type 0
  Left n ready uncounted state =
      (job : WebhookJob) × (state.webhooks ≡ alone job)
      × ((job.status ≡ dead_letter)
          ⊎ (Waiting n ready job
              × (state.uncounted ≡ uncounted)
              × (credits job.delivery_id uncounted ≡ 0)))

  backoff_le : (attempt : ℕ) → compute_backoff_ms attempt ≤ 30 * 60_000
  unfolding compute_backoff_ms
  backoff_le attempt = omega arith

  few_of_test : (n : ℕ) → leb max_attempts (max 1 (n + 1 - 0)) ≡ false → n + 1 < max_attempts
  few_of_test n h = ground (arith, h)

  fail_counted-Left :
      (now n : ℕ) (job : WebhookJob) (message : String) (permanent : Bool)
      (uncounted : List (String × ℕ))
      → now + 30 * 60_000 < 8_640_000_000_000_000
      → is_value job.lease_owner worker ≡ true
      → job.attempts ≡ n + 1
      → credits job.delivery_id uncounted ≡ 0
      → Left (n + 1) (now + 30 * 60_000) uncounted (
          fail_counted dates max_attempts worker now job message permanent
            (record { webhooks = alone job; uncounted = uncounted }))
  unfolding Left fail_counted charged_attempt failed_job
  fail_counted-Left now n job message permanent uncounted dated owned tried none_credited =
      let test =
        permanent || leb max_attempts (max 1 (job.attempts - credits job.delivery_id uncounted)) in
      elim (Bool-cases test) [
        | inl dead ↦ rw dead (
          failed_job dates now message none true job,
          fail_alone now message none true job owned,
          inl refl,
        )
        | inr alive ↦
            let backoff =
              compute_backoff_ms (max 1 (job.attempts - credits job.delivery_id uncounted)) in
            rw alive (
              failed_job dates now message (some (now + backoff)) false job,
              fail_alone now message (some (now + backoff)) false job owned,
              inr (
                (record {
                  is_pending = refl;
                  tried = tried;
                  few = few_of_test n (rw (tried, none_credited) at (or_false permanent _ alive));
                  since = now + backoff;
                  available = dates.parse-to_iso (now + backoff) (
                      omega (
                        arith,
                        dated,
                        backoff_le (max 1 (job.attempts - credits job.delivery_id uncounted)),
                      ));
                  early = omega (
                    arith,
                    backoff_le (max 1 (job.attempts - credits job.delivery_id uncounted)),
                  );
                }),
                refl,
                none_credited,
              ),
            )
      ]
    where
      or_false : (a b : Bool) → (a || b) ≡ false → b ≡ false
      or_false a b h = ground (arith, h)

  is_eligible_of_Waiting :
      (n ready now : ℕ) (job : WebhookJob)
      → Waiting n ready job
      → ready ≤ now
      → is_eligible dates now job ≡ true
  unfolding is_eligible is_claimable is_available time_at_most
  is_eligible_of_Waiting n ready now job waiting late =
      rw (waiting.is_pending, is_claimable, waiting.available)
        ((leb_iff waiting.since now).1 (omega (arith, waiting.early, late)))

  process-Left :
      (round : Round) (n ready : ℕ) (job : WebhookJob) (uncounted : List (String × ℕ))
      → Waiting n ready job
      → credits job.delivery_id uncounted ≡ 0
      → ready ≤ round.start
      → is_counted round.outcome ≡ true
      → round.finish + 30 * 60_000 < 8_640_000_000_000_000
      → Left
          (n + 1)
          (round.finish + 30 * 60_000)
          uncounted
          (process_next_webhook dates locale max_attempts lease_ms worker false round.start
            round.finish round.outcome
            (record { webhooks = alone job; uncounted = uncounted })).1
  unfolding process_next_webhook process_claimed claimed_job
  process-Left round n ready job uncounted waiting none_credited late counted dated =
      let claimed = claimed_job dates round.start worker lease_ms job in
      let held : ServiceState = record { webhooks = alone claimed; uncounted = uncounted } in
      let (message, permanent, same) =
        settle_counted round.finish claimed round.outcome held counted in
      rw (claim_alone round.start job (is_eligible_of_Waiting n ready round.start job waiting late))
        (rw same (
          fail_counted-Left round.finish n claimed message permanent uncounted dated
            (beq_refl worker) (ap (λ a. a + 1) waiting.tried) none_credited))

  process_dead :
      (round : Round) (job : WebhookJob) (uncounted : List (String × ℕ))
      → job.status ≡ dead_letter
      → (process_next_webhook dates locale max_attempts lease_ms worker false round.start
          round.finish round.outcome
          (record { webhooks = alone job; uncounted = uncounted })).1
        ≡ record { webhooks = alone job; uncounted = uncounted }
  unfolding process_next_webhook process_claimed is_eligible is_claimable
  process_dead round job uncounted dead =
      rw (claim_alone_none round.start job (rw (dead, is_claimable) refl)) refl

  unfoldable pub Dead : ServiceState → Type 0
  Dead state = (last : WebhookJob) × (state.webhooks ≡ alone last) × (last.status ≡ dead_letter)

  run_rounds_of_dead_letter :
      (rounds : List Round) (job : WebhookJob) (uncounted : List (String × ℕ))
      → job.status ≡ dead_letter
      → Dead (run_rounds rounds (record { webhooks = alone job; uncounted = uncounted }))
  unfolding run_rounds Dead
  run_rounds_of_dead_letter [] job uncounted dead = (job, refl, dead)
  run_rounds_of_dead_letter (round ∷ rounds) job uncounted dead =
      subst (λ s. Dead (run_rounds rounds s)) (sym (process_dead round job uncounted dead))
        (run_rounds_of_dead_letter rounds job uncounted dead)

  -- What the turn left goes on as a delivery in dead-letter or one that waits.
  Left-Dead :
      (rounds : List Round) (state : ServiceState) (n ready : ℕ) (uncounted : List (String × ℕ))
      → Left n ready uncounted state
      → ((job : WebhookJob)
          → Waiting n ready job
          → credits job.delivery_id uncounted ≡ 0
          → Dead (run_rounds rounds (record { webhooks = alone job; uncounted = uncounted })))
      → Dead (run_rounds rounds state)
  unfolding Left
  Left-Dead rounds state n ready uncounted (job, same, inl dead) later =
      subst (λ w. Dead (run_rounds rounds (record { webhooks = w; uncounted = state.uncounted })))
        (sym same) (run_rounds_of_dead_letter rounds job state.uncounted dead)
  Left-Dead rounds state n ready uncounted (job, same, inr (waiting, kept, none_credited)) later =
      subst (λ w. Dead (run_rounds rounds (record { webhooks = w; uncounted = state.uncounted })))
        (sym same)
        (subst (λ u. Dead (run_rounds rounds (record { webhooks = alone job; uncounted = u })))
          (sym kept) (later job waiting none_credited))

  -- A delivery that is alone in the queue, waits, and has no claim credited to it, ends in dead-letter when
  -- the turns that follow all fail with a counted error, each at least the longest backoff after the one
  -- before, and there are at least as many of them as attempts are left: it is neither retried for ever
  -- nor lost.
  pub run_rounds-Dead :
      (rounds : List Round) (n ready : ℕ) (job : WebhookJob) (uncounted : List (String × ℕ))
      → Waiting n ready job
      → credits job.delivery_id uncounted ≡ 0
      → Failing ready rounds
      → max_attempts ≤ n + length rounds
      → Dead (run_rounds rounds (record { webhooks = alone job; uncounted = uncounted }))
  unfolding run_rounds Failing
  run_rounds-Dead [] n ready job uncounted waiting none_credited failing enough =
      absurd (omega (arith, waiting.few, enough))
  run_rounds-Dead (round ∷ rounds) n ready job uncounted waiting none_credited
        (late, counted, printable, dated, rest) enough =
      Left-Dead rounds _ (n + 1) (round.finish + 30 * 60_000) uncounted
        (process-Left round n ready job uncounted waiting none_credited late counted dated)
        λ next next_waiting next_credited.
          run_rounds-Dead rounds (n + 1) (round.finish + 30 * 60_000) next uncounted next_waiting
            next_credited rest (omega (arith, enough))
