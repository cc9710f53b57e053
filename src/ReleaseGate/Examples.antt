-- ===== src/ReleaseGate/Examples.antt =====
-- The release gate at one candidate: a passing input, with one finding waived by a risk acceptance.
use guardianbot.Prelude.{
  refl, String, some, Option, ◌∷◌, false, none, List, true, [], ◌≡◌, map, ok, ◌↔◌,
}
use guardianbot.ReleaseGate.Types.{
  ReleaseCandidate, RescanResult, GateEvidence, DojoFinding, DojoProduct, ReleaseGatePolicy,
  GateInput, Requirement, available, critical, GateBlocker, high, promotion_frozen, low,
  release_blocking_finding,
}
use guardianbot.ReleaseGate.Evaluate.{gate_open, evaluate_release_gate, pass, check_defect_dojo}
use guardianbot.ReleaseGate.Evaluate.Clearance.{
  EvidenceHolds, DojoHolds, pass-EvidenceHolds, pass-DojoHolds, blockers_of_EvidenceHolds,
}
use guardianbot.ReleaseGate.Evaluate.Conserved.{FindingsAccounted, findings_accounted}
use guardianbot.ReleaseGate.Scope.{finding_scope, in_scope}
use guardianbot.ReleaseGate.Policy.{parse_release_gate_policy, default_policy}
use guardianbot.ReleaseGate.Policy.Floor.{HasFloor, parse-HasFloor}
use guardianbot.Prelude.Js.{nat, Json, obj, field, bool, arr, cons, str, nil, end}
use guardianbot.Samples.{sample_dates}
use guardianbot.ReleaseGate.Scope.InScope.{IsInScope, finding_scope_iff}

abbrev candidate : ReleaseCandidate
candidate = record {
  repository = "acme/shop";
  repository_id = 42;
  commit = "c0ffee";
  digest = "sha256:d1";
  environment = "staging";
}

abbrev rescan : RescanResult
rescan = record {
  digest = "sha256:d0";
  environment = "staging";
  observed_at = "TIII";
  critical_findings = nat 0;
  frozen = false;
  artifact_accepted = true;
  ref = "rescan/1";
}

abbrev evidence : GateEvidence
evidence = record {
  signature = some (record {
    digest = "sha256:d1";
    certificate_identity = "https://github.com/Acme/workflows/image.yml";
    ref = "signature/1";
  });
  image_scan = some (record { critical_findings = nat 0; status = "success"; ref = "image/1" });
  sbom = some (record { status = "success"; ref = "sbom/1" });
  deployed_rescan = some (record {
    environment = "staging";
    deployed_digest = some "sha256:d0";
    rescan = some rescan;
  });
  candidate_rescan = none;
  commit_scan = none;
}

abbrev tags_of : String → Option (List (Option String))
tags_of profile =
    some (
      some "guardianbot:repo-id:42" ∷ some " GuardianBot:Commit:C0FFEE " ∷ some profile ∷ none ∷ [])

abbrev waived : DojoFinding
waived = record {
  id = nat 7;
  test = nat 1;
  severity = some "Critical";
  active = some true;
  verified = some true;
  false_p = none;
  duplicate = none;
  out_of_scope = none;
  is_mitigated = none;
  risk_accepted = some true;
  accepted_risks = some (
      record {
        id = nat 3;
        name = some "accepted until the next release";
        expiration_date = some "TIIIIIIIII";
        decision = some "A";
        accepted_findings = some (nat 7 ∷ []);
      }
      ∷ []);
}

abbrev dojo : DojoProduct
dojo = record {
  product_id = 5;
  tests =
      record {
        id = nat 1;
        scan_type = some "Semgrep JSON Report";
        tags = tags_of "guardianbot:profile:security";
      }
      ∷ record {
        id = nat 2;
        scan_type = some "Trivy Scan";
        tags = tags_of "guardianbot:profile:image";
      }
      ∷ [];
  findings = [];
  accepted_findings = waived ∷ [];
}

abbrev policy : ReleaseGatePolicy
policy = record default_policy {
  required_evidence = Requirement.deployed_rescan ∷ default_policy.required_evidence;
}

abbrev input : GateInput
input = record {
  candidate = candidate;
  evidence = evidence;
  expected_certificate_identity = some "https://github.com/acme/workflows/IMAGE.yml";
  defect_dojo = available dojo;
  policy = policy;
  now = 5;
}

input_passes : (evaluate_release_gate sample_dates input).decision ≡ pass
unfolding gate_open sample_dates
input_passes = refl

-- The same candidate frozen, with the finding no longer accepted.
abbrev frozen_input : GateInput
frozen_input = record input {
  evidence = record evidence {
    candidate_rescan = some (record rescan { digest = "sha256:d1"; frozen = true });
  };
  defect_dojo =
      available
        (record dojo { accepted_findings = record waived { risk_accepted = some false } ∷ [] });
}

frozen_input_blockers :
    map (λ (b : GateBlocker). b.code) (evaluate_release_gate sample_dates frozen_input).blockers
    ≡ promotion_frozen ∷ release_blocking_finding ∷ []
unfolding gate_open sample_dates
frozen_input_blockers = refl

pass-EvidenceHolds_example : EvidenceHolds sample_dates input
pass-EvidenceHolds_example = pass-EvidenceHolds sample_dates input input_passes

pass-DojoHolds_example : (found : DojoProduct) × DojoHolds sample_dates input found
pass-DojoHolds_example = pass-DojoHolds sample_dates input input_passes

blockers_of_EvidenceHolds_example :
    (evaluate_release_gate sample_dates input).blockers
    ≡ (check_defect_dojo sample_dates input input.defect_dojo).blockers
blockers_of_EvidenceHolds_example =
    blockers_of_EvidenceHolds sample_dates input
      (pass-EvidenceHolds sample_dates input input_passes)

findings_accounted_example : FindingsAccounted input dojo (evaluate_release_gate sample_dates input)
findings_accounted_example = findings_accounted sample_dates input dojo refl

-- A tag of another environment does not take a Test out of scope where the candidate's stands beside it.
two_environments :
    finding_scope
      ("guardianbot:repo-id:42" ∷ "guardianbot:env:elsewhere" ∷ "guardianbot:env:staging"
        ∷ "guardianbot:commit:c0ffee" ∷ [])
      candidate
    ≡ in_scope
unfolding gate_open
two_environments = refl

finding_scope_iff_example :
    (finding_scope ("guardianbot:repo-id:42" ∷ "guardianbot:commit:c0ffee" ∷ []) candidate
      ≡ in_scope)
    ↔ IsInScope ("guardianbot:repo-id:42" ∷ "guardianbot:commit:c0ffee" ∷ []) candidate
finding_scope_iff_example =
    finding_scope_iff ("guardianbot:repo-id:42" ∷ "guardianbot:commit:c0ffee" ∷ []) candidate

-- A parser that reads every text as one document.
abbrev sample_json : String → Option Json
sample_json text = some (
    obj (
      field "blockHigh" (bool true)
        (field "blockingSeverities" (arr (cons (str "low") (cons (str "critical") nil))) end)))

abbrev sample_policy : ReleaseGatePolicy
sample_policy = record default_policy {
  blocking_severities = critical ∷ high ∷ low ∷ [];
  block_high = true;
}

sample_policy_parsed : parse_release_gate_policy sample_json (some "{}") ≡ ok sample_policy
unfolding parse_release_gate_policy
sample_policy_parsed = refl

parse-HasFloor_example : HasFloor sample_policy
parse-HasFloor_example = parse-HasFloor sample_json (some "{}") sample_policy sample_policy_parsed
