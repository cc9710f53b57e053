-- ===== src/Monitoring/ExpectedRuns.antt =====
-- packages/monitoring/src/expected-runs.ts: the workflow runs that a repository is expected to have,
-- against those that were observed.
pub mod Current
pub mod Missing
use guardianbot.Prelude.{
  String, Option, Bool, ℕ, List, get_or_else, ◌==◌, ◌+s◌, some, if◌then◌else◌, true, ◌&&◌, first,
  not, map, ◌∷◌, false, sort, leb, filter, length, string_eq, [],
}
use guardianbot.Monitoring.Status.{
  Status, Age, Check, Metadata, absent, is_over, failing, age_of, text_or_null, meets, warning,
  worst_status, txt, not_applicable, status_eq, flag, passing,
}
use guardianbot.Prelude.Js.{Dates}
use mathlib.Core.Option.{none}
use text.Mathlib.Text.{starts_with}

pub data Event : Type 0 where
  pull_request push schedule workflow_dispatch : Event

abbrev pub event_name : Event → String
event_name pull_request = "pull_request"
event_name push = "push"
event_name schedule = "schedule"
event_name workflow_dispatch = "workflow_dispatch"

pub data Conclusion : Type 0 where
  success failure cancelled timed_out action_required neutral skipped : Conclusion

abbrev pub conclusion_name : Conclusion → String
conclusion_name success = "success"
conclusion_name failure = "failure"
conclusion_name cancelled = "cancelled"
conclusion_name timed_out = "timed_out"
conclusion_name action_required = "action_required"
conclusion_name neutral = "neutral"
conclusion_name skipped = "skipped"

pub data RunStatus : Type 0 where
  queued in_progress completed : RunStatus

abbrev pub run_status_name : RunStatus → String
run_status_name queued = "queued"
run_status_name in_progress = "in_progress"
run_status_name completed = "completed"

pub record ExpectedRun : Type 0 where
  pub key : String
  pub workflow : String
  pub event : Event
  pub branch : Option String
  pub required : Bool
  pub max_age : ℕ

pub record ObservedRun : Type 0 where
  pub workflow : String
  pub event : String
  pub branch : Option String
  pub started_at : String
  pub completed_at : Option String
  pub status : RunStatus
  pub conclusion : Option Conclusion
  pub url : Option String

pub record RunReconciliation : Type 0 where
  pub status : Status
  pub checks : List Check
  pub missing_required : ℕ
  pub failing_count : ℕ
  pub warning_count : ℕ

-- `run?.status ?? null` and its like
abbrev field_of : (ObservedRun → Option String) → Option ObservedRun → Metadata
field_of f none = absent
field_of f (some run) = text_or_null (f run)

abbrev conclusion_text : Option Conclusion → Option String
conclusion_text none = none
conclusion_text (some c) = some (conclusion_name c)

unfoldable pub run_metadata : ExpectedRun → Option ObservedRun → List (String × Metadata)
run_metadata expected run =
    ("workflow", txt expected.workflow)
    ∷ ("event", txt (event_name expected.event))
    ∷ ("branch", text_or_null expected.branch)
    ∷ ("required", flag expected.required)
    ∷ ("status", field_of (λ r. some (run_status_name r.status)) run)
    ∷ ("conclusion", field_of (λ r. conclusion_text r.conclusion) run)
    ∷ ("url", field_of (λ r. r.url) run)
    ∷ []

abbrev pub observed_text : ObservedRun → String
observed_text run = get_or_else run.completed_at run.started_at

-- `timestampForRun(left) >= timestampForRun(right)`, where a time that is not read counts as -1.
abbrev pub time_leb : Option ℕ → Option ℕ → Bool
time_leb none t = true
time_leb (some s) none = false
time_leb (some s) (some t) = leb s t

unfoldable pub newer_run : Dates → ObservedRun → ObservedRun → Bool
newer_run dates left right =
    time_leb (dates.parse (observed_text right)) (dates.parse (observed_text left))

unfoldable pub matches_run : ExpectedRun → ObservedRun → Bool
matches_run expected run =
    run.workflow == expected.workflow
    && run.event == event_name expected.event
    && meets expected.branch run.branch

unfoldable pub latest_run : Dates → ExpectedRun → List ObservedRun → Option ObservedRun
latest_run dates expected observed =
    first (sort (newer_run dates) (filter (matches_run expected) observed))

-- "<workflow> <event> run" and what is said of it
unfoldable pub run_summary : ExpectedRun → String → String
run_summary expected note =
    expected.workflow +s (" " +s (event_name expected.event +s (" run" +s note)))

-- The check of a run that was found.
run_check : ExpectedRun → ObservedRun → Age → Status → String → Check
run_check expected run age status note = record {
  key = expected.key;
  status = status;
  summary = run_summary expected note;
  observed_at = some (observed_text run);
  age = some age;
  metadata = run_metadata expected (some run);
}

unfoldable pub is_accepted : Option Conclusion → Bool
is_accepted (some success) = true
is_accepted (some neutral) = true
is_accepted (some skipped) = true
is_accepted _ = false

open_run_check : ExpectedRun → ObservedRun → Age → Check
unfolding run_check
open_run_check expected run age =
    if is_over age expected.max_age
    then run_check expected run age failing " is still in progress past its freshness window"
    else run_check expected run age warning " is still in progress"

completed_run_check : ExpectedRun → ObservedRun → Age → Check
unfolding run_check is_accepted
completed_run_check expected run age =
    if not (is_accepted run.conclusion)
    then run_check expected run age failing
        (" concluded " +s get_or_else (conclusion_text run.conclusion) "unknown")
    else if is_over age expected.max_age
    then run_check expected run age (if expected.required then warning else not_applicable)
        " is stale"
    else run_check expected run age passing " is current"

unfoldable pub found_run_check : ExpectedRun → ObservedRun → Age → Check
unfolding open_run_check completed_run_check
found_run_check expected run age = elim run.status [
  | completed ↦ completed_run_check expected run age
  | _ ↦ open_run_check expected run age
]

unfoldable pub missing_run_check : ExpectedRun → Check
missing_run_check expected = record {
  key = expected.key;
  status = if expected.required then failing else warning;
  summary =
      if expected.required
      then "Expected " +s run_summary expected " is missing"
      else "Optional " +s run_summary expected " has not executed";
  observed_at = none;
  age = none;
  metadata = run_metadata expected none;
}

unfoldable pub latest_run_check : Dates → ℕ → ExpectedRun → Option ObservedRun → Check
latest_run_check dates now expected none = missing_run_check expected
latest_run_check dates now expected (some run) =
    found_run_check expected run (age_of (dates.parse (observed_text run)) now)

unfoldable pub expected_run_check : Dates → ℕ → List ObservedRun → ExpectedRun → Check
expected_run_check dates now observed expected =
    latest_run_check dates now expected (latest_run dates expected observed)

-- What `missingRequiredCount` counts.
unfoldable pub counts_missing : Check → Bool
counts_missing check = check.status == failing && starts_with check.summary "Expected "

unfoldable pub reconcile_expected_runs :
    Dates → ℕ → List ExpectedRun → List ObservedRun → RunReconciliation
reconcile_expected_runs dates now expected observed =
    let checks = map (expected_run_check dates now observed) expected in
    record {
      status = worst_status (map (λ check. check.status) checks);
      checks = checks;
      missing_required = length (filter counts_missing checks);
      failing_count = length (filter (λ check. check.status == failing) checks);
      warning_count = length (filter (λ check. check.status == warning) checks);
    }
