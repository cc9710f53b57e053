-- ===== src/Monitoring/Repository.antt =====
-- packages/monitoring/src/repository-monitor.ts: the checks of one repository, its inventory state
-- and its overall status.
pub mod Enforced
pub mod Overall
use guardianbot.Prelude.{
  String, Bool, List, Option, is_value, if◌then◌else◌, ℕ, is_false, not, [], ◌++◌, some, ◌||◌, ◌∷◌,
  map, ◌&&◌, ltb, sort, insert_sorted,
}
use guardianbot.Monitoring.Status.{
  InventoryState, Status, Check, failing, report_only, worst_status, misconfigured, advisory_only,
  enforced, status_eq, not_applicable_repository, missing_expected_runs, is_worse, worse, worse_of,
  status_weight, meets,
}
use mathlib.Core.Option
use guardianbot.Prelude.Js.{Dates}
use guardianbot.Monitoring.ExpectedRuns.{
  ExpectedRun, RunReconciliation, ObservedRun, reconcile_expected_runs, newer_run, matches_run,
  latest_run, is_accepted, found_run_check, run_summary, run_metadata, missing_run_check,
  latest_run_check, expected_run_check, counts_missing,
}
use guardianbot.Monitoring.Evidence.{
  EvidenceReconciliation, EvidenceRequirement, EvidenceRecord, ImageEvidenceInput,
  reconcile_evidence, evaluate_image_evidence, evidence_metadata, matches_evidence, newer_evidence,
  latest_evidence, missing_evidence_check, dated_evidence_check, latest_evidence_check,
  requirement_check, ends_missing, image_requirement, image_requirements, deployed_digest_check,
  with_deployed,
}
use guardianbot.Monitoring.Suppressions.{
  SuppressionEvaluation, Suppression, evaluate_suppressions, standing_at, standing, file_one,
  file_all, open_expired, suppressions_status, suppressions_summary, suppressions_report,
}
use guardianbot.Monitoring.Freshness.{
  IndexInput, evaluate_index_freshness, evaluate_freshness, ratio_ltb, with_index_coverage, trails,
}
use mathlib.Core.Option.{none}
use guardianbot.Prelude.Text.{decimal, ends_with}

pub data ScannerMode : Type 0 where
  advisory report_only_mode enforce : ScannerMode

pub record RepositoryInput : Type 0 where
  pub key : String
  pub review_enabled : Bool
  pub config_valid : Bool
  pub scanner_mode : ScannerMode
  pub deterministic_applicable : Bool
  pub baseline_ready : Option Bool
  pub expected_runs : Option (List ExpectedRun × List ObservedRun)
  pub index : Option IndexInput
  pub evidence : Option (List EvidenceRequirement × List EvidenceRecord)
  pub image : Option ImageEvidenceInput
  pub suppressions : Option (List Suppression × ℕ)

pub record Snapshot : Type 0 where
  pub repository : String
  pub inventory_state : InventoryState
  pub overall_status : Status
  pub checks : List Check
  pub expected_runs : Option RunReconciliation
  pub evidence : Option EvidenceReconciliation
  pub suppressions : Option SuppressionEvaluation

pub record InventoryInput : Type 0 where
  pub config_valid : Bool
  pub deterministic_applicable : Bool
  pub review_enabled : Bool
  pub scanner_mode : ScannerMode
  pub baseline_ready : Option Bool
  pub expected_runs_status : Option Status
  pub missing_expected_runs : ℕ
  pub evidence_status : Option Status
  pub image_status : Option Status
  pub index_status : Option Status

-- `[...].filter(Boolean).includes("failing")`
abbrev pub any_failing : InventoryInput → Bool
any_failing input =
    is_value input.expected_runs_status failing
    || is_value input.evidence_status failing
    || is_value input.image_status failing
    || is_value input.index_status failing

enforced_state : InventoryInput → InventoryState
enforced_state input =
    if is_false input.baseline_ready
    then misconfigured
    else if any_failing input
    then misconfigured
    else enforced

mode_state : InventoryInput → InventoryState
unfolding enforced_state
mode_state input = elim input.scanner_mode [
  | enforce ↦ enforced_state input
  | report_only_mode ↦ if input.deterministic_applicable then report_only else advisory_only
  | advisory ↦ advisory_only
]

unfoldable pub classify_inventory_state : InventoryInput → InventoryState
unfolding mode_state
classify_inventory_state input =
    if not input.config_valid
    then misconfigured
    else if not input.deterministic_applicable && not input.review_enabled
    then not_applicable_repository
    else if ltb 0 input.missing_expected_runs
    then missing_expected_runs
    else mode_state input

-- `value ? [...checks(value)] : []`
abbrev pub checks_of {ℓ} : {A : Type ℓ} → (A → List Check) → Option A → List Check
checks_of f none = []
checks_of f (some a) = f a

abbrev pub missing_of : Option RunReconciliation → ℕ
missing_of none = 0
missing_of (some runs) = runs.missing_required

abbrev pub runs_of : Dates → ℕ → RepositoryInput → Option RunReconciliation
runs_of dates now input =
    Option.map (λ r. reconcile_expected_runs dates now (r.0) (r.1)) input.expected_runs

abbrev pub index_of : Dates → ℕ → RepositoryInput → Option Check
index_of dates now input = Option.map (evaluate_index_freshness dates now) input.index

abbrev pub evidence_of : Dates → ℕ → RepositoryInput → Option EvidenceReconciliation
evidence_of dates now input =
    Option.map (λ e. reconcile_evidence dates now (e.0) (e.1)) input.evidence

abbrev pub image_of : Dates → ℕ → RepositoryInput → Option EvidenceReconciliation
image_of dates now input = Option.map (evaluate_image_evidence dates now) input.image

abbrev pub suppressions_of : Dates → ℕ → RepositoryInput → Option SuppressionEvaluation
suppressions_of dates now input =
    Option.map (λ s. evaluate_suppressions dates now (s.1) (s.0)) input.suppressions

unfoldable pub all_checks : Dates → ℕ → RepositoryInput → List Check
all_checks dates now input =
    checks_of (λ r. r.checks) (runs_of dates now input)
    ++ (checks_of (λ c. c ∷ []) (index_of dates now input)
        ++ (checks_of (λ e. e.checks) (evidence_of dates now input)
            ++ (checks_of (λ e. e.checks) (image_of dates now input)
                ++ checks_of (λ s. s.check ∷ []) (suppressions_of dates now input))))

unfoldable pub inventory_input : Dates → ℕ → RepositoryInput → InventoryInput
inventory_input dates now input = record {
  config_valid = input.config_valid;
  deterministic_applicable = input.deterministic_applicable;
  review_enabled = input.review_enabled;
  scanner_mode = input.scanner_mode;
  baseline_ready = input.baseline_ready;
  expected_runs_status = Option.map (λ r. r.status) (runs_of dates now input);
  missing_expected_runs = missing_of (runs_of dates now input);
  evidence_status = Option.map (λ e. e.status) (evidence_of dates now input);
  image_status = Option.map (λ e. e.status) (image_of dates now input);
  index_status = Option.map (λ c. c.status) (index_of dates now input);
}

unfoldable pub evaluate_repository : Dates → ℕ → RepositoryInput → Snapshot
evaluate_repository dates now input = record {
  repository = input.key;
  inventory_state = classify_inventory_state (inventory_input dates now input);
  overall_status = worst_status (map (λ check. check.status) (all_checks dates now input));
  checks = all_checks dates now input;
  expected_runs = runs_of dates now input;
  evidence = evidence_of dates now input;
  suppressions = suppressions_of dates now input;
}

-- Opens the whole evaluation: for tests.
unfoldable pub monitoring_open : Unit {0}
unfolding decimal is_worse worse worse_of worst_status status_weight meets sort insert_sorted
    newer_run matches_run latest_run is_accepted found_run_check run_summary run_metadata
    missing_run_check latest_run_check expected_run_check counts_missing reconcile_expected_runs
    evidence_metadata matches_evidence newer_evidence latest_evidence missing_evidence_check
    dated_evidence_check latest_evidence_check requirement_check ends_with ends_missing
    reconcile_evidence image_requirement image_requirements deployed_digest_check with_deployed
    evaluate_image_evidence standing_at standing file_one file_all open_expired suppressions_status
    suppressions_summary suppressions_report evaluate_suppressions evaluate_freshness ratio_ltb
    with_index_coverage trails evaluate_index_freshness classify_inventory_state all_checks
    inventory_input evaluate_repository
monitoring_open = tt
