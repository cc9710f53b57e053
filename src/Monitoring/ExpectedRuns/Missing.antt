-- ===== src/Monitoring/ExpectedRuns/Missing.antt =====
-- `reconcileExpectedRuns`: lemmas on `missingRequiredCount`.
use guardianbot.Prelude.{
  List, ℕ, Bool, is_some, ◌≡◌, Option, length, any, true, filter, ◌&&◌, not, false, ◌≤◌,
  is_some-first-sort, length-filter-map, some, length-filter_mono, ◌∙◌, and_iff,
  is_some-first-filter, not-true,
}
use guardianbot.Monitoring.ExpectedRuns.{
  latest_run, missing_run_check, latest_run_check, reconcile_expected_runs, ObservedRun,
  counts_missing, expected_run_check, ExpectedRun, matches_run, run_summary, newer_run,
}
use guardianbot.Prelude.Js.{Dates}
use text.Mathlib.TextPositions.{starts_with-append}
use mathlib.Core.Option.{none}
use guardianbot.Monitoring.Status.{status_weight}

-- A required run that no observed run matches.
unfoldable pub is_missing : List ObservedRun → ExpectedRun → Bool
is_missing observed expected = expected.required && not (any (matches_run expected) observed)

is_some-latest_run :
    (dates : Dates) (expected : ExpectedRun) (observed : List ObservedRun)
    → is_some (latest_run dates expected observed) ≡ any (matches_run expected) observed
unfolding latest_run
is_some-latest_run dates expected observed =
    is_some-first-sort (newer_run dates) (filter (matches_run expected) observed)
    ∙ is_some-first-filter (matches_run expected) observed

missing_run_check-counts :
    (expected : ExpectedRun)
    → expected.required ≡ true
    → counts_missing (missing_run_check expected) ≡ true
unfolding missing_run_check counts_missing status_weight run_summary
missing_run_check-counts expected required =
    rw required (starts_with-append "Expected " (run_summary expected " is missing"))

latest_run_check-counts :
    (dates : Dates) (now : ℕ) (expected : ExpectedRun) (latest : Option ObservedRun)
    → expected.required ≡ true
    → is_some latest ≡ false
    → counts_missing (latest_run_check dates now expected latest) ≡ true
unfolding latest_run_check
latest_run_check-counts dates now expected none required h =
    missing_run_check-counts expected required
latest_run_check-counts dates now expected (some run) required h = cc

-- Every required run that was never observed is counted: `missingRequiredCount` is at least their
-- number.
pub missing_required-covers :
    (dates : Dates) (now : ℕ) (expected : List ExpectedRun) (observed : List ObservedRun)
    → length (filter (is_missing observed) expected)
      ≤ (reconcile_expected_runs dates now expected observed).missing_required
unfolding reconcile_expected_runs is_missing expected_run_check
missing_required-covers dates now expected observed =
    rw (length-filter-map (expected_run_check dates now observed) counts_missing expected) (
      length-filter_mono (is_missing observed) _ expected (λ e h.
        let (required, unseen) = (and_iff e.required _).0 h in
        latest_run_check-counts dates now e (latest_run dates e observed) required
          (is_some-latest_run dates e observed ∙ not-true _ unseen)))
