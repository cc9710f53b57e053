-- ===== src/Monitoring/Examples.antt =====
-- The monitoring of one repository: its runs, index, evidence, image and suppressions in order, and
-- the same repository after a deployment of another digest.
use guardianbot.Prelude.{
  refl, String, List, All, length, some, true, filter, none, ◌∷◌, ◌≡◌, [], ◌≤◌, false, arith, ◌↔◌,
  ◌+◌,
}
use guardianbot.Monitoring.ExpectedRuns.{
  ExpectedRun, push, Conclusion, ObservedRun, completed, reconcile_expected_runs, failure, success,
}
use guardianbot.Monitoring.Freshness.{IndexInput, ratio, trails, evaluate_index_freshness}
use guardianbot.Monitoring.Evidence.{
  EvidenceRequirement, EvidenceKind, ImageEvidenceInput, reconcile_evidence, semgrep,
  EvidenceRecord, sbom, evaluate_image_evidence, signature, trivy, deployment,
}
use guardianbot.Monitoring.Repository.{
  RepositoryInput, monitoring_open, evaluate_repository, enforce, inventory_input,
}
use guardianbot.Monitoring.Repository.Overall.{IsUntroubled, overall-IsUntroubled}
use guardianbot.Monitoring.Evidence.Image.{IsDeployedAs, HasImageEvidence, image-HasImageEvidence}
use guardianbot.Monitoring.Suppressions.{
  evaluate_suppressions, Suppression, has_expired, expires_soon, is_active,
}
use guardianbot.Monitoring.Freshness.Fresh.{IsFresh, IsCovered, evaluate_index-IsFresh}
use guardianbot.Monitoring.Lifecycle.{FindingStatus, FindingInput, high, open_finding, fixed}
use guardianbot.Monitoring.Status.Worst.{IsWorst, IsCalm, worst_status-IsWorst}
use guardianbot.Samples.{sample_dates}
use guardianbot.Monitoring.ExpectedRuns.Current.{HasCurrentRun, reconcile-HasCurrentRun}
use guardianbot.Monitoring.Evidence.Current.{HasEvidence, reconcile-HasEvidence}
use guardianbot.Monitoring.Status.{
  worst_status, status_weight, passing, enforced, misconfigured, failing, warning,
}
use guardianbot.Monitoring.ExpectedRuns.Missing.{is_missing, missing_required-covers}
use guardianbot.Monitoring.Suppressions.Partition.{
  has_standing, IsLapsed, evaluate_suppressions-failing_iff, evaluate_suppressions-partition,
}
use guardianbot.Monitoring.Repository.Enforced.{IsEnforceable, NoneFailing, evaluate-enforced_iff}
use guardianbot.Monitoring.Evidence.Missing.{is_absent, missing_count_exact}
use mathlib.Core.List.{Memᴰ}

abbrev ci : ExpectedRun
ci = record {
  key = "ci";
  workflow = "security.yml";
  event = push;
  branch = some "main";
  required = true;
  max_age = 4;
}

abbrev ci_run : String → Conclusion → ObservedRun
ci_run time conclusion = record {
  workflow = "security.yml";
  event = "push";
  branch = some "main";
  started_at = time;
  completed_at = none;
  status = completed;
  conclusion = some conclusion;
  url = none;
}

abbrev runs : List ExpectedRun × List ObservedRun
runs = (ci ∷ [], ci_run "TI" failure ∷ ci_run "TII" success ∷ [])

abbrev index : IndexInput
index = record {
  indexed_at = some "TIII";
  warn_after = 4;
  fail_after = 9;
  expected_commit = some "c0ffee";
  indexed_commit = some "c0ffee";
  truncation = some (ratio 1 19);
  truncation_warn = none;
}

abbrev semgrep_needed : EvidenceRequirement
semgrep_needed = record {
  key = "semgrep";
  kind = semgrep;
  evidence_key = none;
  required = true;
  max_age = 4;
  digest = none;
  environment = none;
  label = none;
}

abbrev evidence_record : EvidenceKind → EvidenceRecord
evidence_record kind = record {
  kind = kind;
  evidence_key = none;
  observed_at = "TIII";
  succeeded = true;
  digest = some "sha256:d1";
  environment = some "production";
  details = none;
}

abbrev image : ImageEvidenceInput
image = record {
  digest = "sha256:d1";
  deployed_digest = some "sha256:d1";
  environment = "production";
  sbom_max_age = 4;
  signature_max_age = 4;
  deployment_max_age = 4;
  scan_max_age = none;
  dast_max_age = none;
  evidence =
      evidence_record sbom
      ∷ evidence_record signature
      ∷ evidence_record deployment
      ∷ evidence_record trivy
      ∷ [];
  require_scans = none;
  require_dast = none;
}

abbrev suppression : String → Suppression
suppression expires_at = record {
  fingerprint = "f1";
  owner = "alice";
  reason = "false positive";
  ticket = "SEC-1";
  expires_at = expires_at;
  finding_open = some true;
}

abbrev repository : RepositoryInput
repository = record {
  key = "acme/shop";
  review_enabled = true;
  config_valid = true;
  scanner_mode = enforce;
  deterministic_applicable = true;
  baseline_ready = some true;
  expected_runs = some runs;
  index = some index;
  evidence = some (semgrep_needed ∷ [], evidence_record semgrep ∷ []);
  image = some image;
  suppressions = some (suppression "TIIIIIIIII" ∷ [], 1);
}

repository_calm : status_weight (evaluate_repository sample_dates 5 repository).overall_status ≤ 1
unfolding monitoring_open sample_dates
repository_calm = omega arith

repository_enforced : (evaluate_repository sample_dates 5 repository).inventory_state ≡ enforced
unfolding monitoring_open sample_dates
repository_enforced = refl

other_digest :
    (evaluate_repository sample_dates 5 (record repository {
      image = some (record image { deployed_digest = some "sha256:d2" });
    })).inventory_state
    ≡ misconfigured
unfolding monitoring_open sample_dates
other_digest = refl

overall-IsUntroubled_example : IsUntroubled sample_dates 5 repository
overall-IsUntroubled_example = overall-IsUntroubled sample_dates 5 repository repository_calm

evaluate-enforced_iff_example :
    ((evaluate_repository sample_dates 5 repository).inventory_state ≡ enforced) ↔ (
      IsEnforceable (inventory_input sample_dates 5 repository)
      × NoneFailing sample_dates 5 repository)
evaluate-enforced_iff_example = evaluate-enforced_iff sample_dates 5 repository

runs_calm : status_weight (reconcile_expected_runs sample_dates 5 (runs.0) (runs.1)).status ≤ 1
unfolding monitoring_open sample_dates
runs_calm = omega arith

reconcile-HasCurrentRun_example : All (HasCurrentRun sample_dates 5 (runs.1)) (runs.0)
reconcile-HasCurrentRun_example = reconcile-HasCurrentRun sample_dates 5 (runs.0) (runs.1) runs_calm

missing_required-covers_example :
    length (filter (is_missing []) (ci ∷ []))
    ≤ (reconcile_expected_runs sample_dates 5 (ci ∷ []) []).missing_required
missing_required-covers_example = missing_required-covers sample_dates 5 (ci ∷ []) []

evidence_calm :
    status_weight
      (reconcile_evidence sample_dates 5
        (semgrep_needed ∷ [])
        (evidence_record semgrep ∷ [])).status
    ≤ 1
unfolding monitoring_open sample_dates
evidence_calm = omega arith

reconcile-HasEvidence_example :
    All (HasEvidence sample_dates 5 (evidence_record semgrep ∷ [])) (semgrep_needed ∷ [])
reconcile-HasEvidence_example =
    reconcile-HasEvidence sample_dates 5 (semgrep_needed ∷ []) (evidence_record semgrep ∷ [])
      evidence_calm

missing_count_exact_example :
    (reconcile_evidence sample_dates 5
      (semgrep_needed ∷ [])
      (evidence_record trivy ∷ [])).missing_count
    ≡ length (filter (is_absent (evidence_record trivy ∷ [])) (semgrep_needed ∷ []))
missing_count_exact_example =
    missing_count_exact sample_dates 5 (semgrep_needed ∷ []) (evidence_record trivy ∷ [])

image_calm : status_weight (evaluate_image_evidence sample_dates 5 image).status ≤ 1
unfolding monitoring_open sample_dates
image_calm = omega arith

image-HasImageEvidence_example :
    IsDeployedAs image (some "sha256:d1")
    × HasImageEvidence sample_dates 5 image sbom 4
    × HasImageEvidence sample_dates 5 image signature 4
    × HasImageEvidence sample_dates 5 image deployment 4
image-HasImageEvidence_example = image-HasImageEvidence sample_dates 5 image image_calm

evaluate_suppressions-failing_iff_example :
    ((evaluate_suppressions sample_dates 5 1 (suppression "TII" ∷ [])).status ≡ failing)
    ↔ ((s : Suppression) × Memᴰ s (suppression "TII" ∷ []) × IsLapsed sample_dates 5 s)
evaluate_suppressions-failing_iff_example =
    evaluate_suppressions-failing_iff sample_dates 5 1 (suppression "TII" ∷ [])

abbrev three_suppressions : List Suppression
three_suppressions = suppression "TII" ∷ suppression "TIIIIII" ∷ suppression "TIIIIIIIIIIIIIII" ∷ []

evaluate_suppressions-partition_example :
    let e = evaluate_suppressions sample_dates 5 1 three_suppressions in
    (e.expired ≡ filter (has_standing sample_dates 5 1 has_expired) three_suppressions)
    × (e.expiring_soon ≡ filter (has_standing sample_dates 5 1 expires_soon) three_suppressions)
    × (e.active ≡ filter (has_standing sample_dates 5 1 is_active) three_suppressions)
    × (length e.expired + length e.expiring_soon + length e.active ≡ 3)
evaluate_suppressions-partition_example =
    evaluate_suppressions-partition sample_dates 5 1 three_suppressions

index-IsCalm : IsCalm (evaluate_index_freshness sample_dates 5 index)
unfolding monitoring_open sample_dates IsCalm
index-IsCalm = omega arith

evaluate_index-IsFresh_example :
    IsFresh sample_dates 5 (some "TIII") 4 9
    × (trails (some "c0ffee") (some "c0ffee") ≡ false)
    × IsCovered index (some (ratio 1 19))
evaluate_index-IsFresh_example = evaluate_index-IsFresh sample_dates 5 index index-IsCalm

abbrev finding : FindingStatus → FindingInput
finding status = record {
  status = status;
  severity = high;
  owner = "alice";
  first_seen_at = "TI";
  sla_due_at = some "TII";
  ticket_failed = false;
}

abbrev findings : List FindingInput
findings = finding open_finding ∷ finding fixed ∷ []

worst_status-IsWorst_example :
    IsWorst (worst_status (passing ∷ failing ∷ warning ∷ [])) (passing ∷ failing ∷ warning ∷ [])
worst_status-IsWorst_example = worst_status-IsWorst (passing ∷ failing ∷ warning ∷ [])
