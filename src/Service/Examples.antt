-- ===== src/Service/Examples.antt =====
-- A delivery whose handler fails twice, with two attempts allowed.
use guardianbot.Prelude.{refl, List, arith, none, ◌∷◌, [], true}
use guardianbot.Store.Webhooks.{WebhookJob, pending}
use guardianbot.Samples.{sample_dates, sample_collation}
use guardianbot.Service.Deliveries.Ends.{
  Failing, Dead, Round, Waiting, is_counted, run_rounds, run_rounds-Dead, alone,
}
use guardianbot.Prelude.Js.{end}
use guardianbot.Service.Deliveries.{other_error, backend_error, credits}

abbrev waiting_job : WebhookJob
waiting_job = record {
  delivery_id = "a";
  event_name = "push";
  payload = end;
  status = pending;
  attempts = 0;
  available_at = "T";
  lease_owner = none;
  lease_expires_at = none;
  last_error = none;
  dead_lettered_at = none;
  updated_at = none;
}

abbrev rounds : List Round
rounds =
    record { start = 5; finish = 6; outcome = other_error "boom" }
    ∷ record { start = 1_900_000; finish = 1_900_001; outcome = backend_error true "slow" }
    ∷ []

waits : Waiting sample_dates sample_collation 2 900_000 "w" 0 0 waiting_job
unfolding sample_dates
waits = record {
  is_pending = refl;
  tried = refl;
  few = omega arith;
  since = 0;
  available = refl;
  early = omega arith;
}

rounds-Failing : Failing sample_dates sample_collation 2 900_000 "w" 0 rounds
unfolding Failing is_counted
rounds-Failing =
    (omega arith, refl, omega arith, omega arith, (omega arith, refl, omega arith, omega arith, tt))

run_rounds-Dead_example : Dead sample_dates sample_collation 2 900_000 "w" (
    run_rounds sample_dates sample_collation 2 900_000 "w" rounds
      (record { webhooks = alone waiting_job; uncounted = [] }))
run_rounds-Dead_example =
    run_rounds-Dead sample_dates sample_collation 2 900_000 "w" rounds 0 0 waiting_job [] waits
      (unfold credits in refl) rounds-Failing (omega arith)
