-- ===== src/ReleaseGate/Evaluate.antt =====
-- `evaluateReleaseGate`: the parts in the order of the source, and the decision.
pub mod Clearance
pub mod Conserved
use guardianbot.ReleaseGate.Types.{
  ReleaseCandidate, DojoFinding, Pushed, GateBlocker, GateInput, ReleaseGatePolicy, DefectDojoState,
  unavailable, GateException, nothing, block, IgnoredFindings, blocker, EvidenceRef,
  gate_unavailable, ◌⊕◌, available, DojoProduct, cite, defectdojo,
}
use guardianbot.Prelude.Js.{number_leb, Dates}
use guardianbot.Prelude.{
  ℕ, List, String, Bool, sort, if◌then◌else◌, ◌∷◌, [], Option, ◌==◌, none, ◌+s◌, nat_eq, values,
  ◌++◌,
}
use guardianbot.ReleaseGate.Findings.{FindingIndex, index_findings, judge_all}
use guardianbot.Prelude.Text.{decimal}
use guardianbot.ReleaseGate.Evidence.{
  check_signature, check_image_scan, check_sbom, check_freeze, check_deployed_rescan,
}
use guardianbot.ReleaseGate.Coverage.{index_tests, check_scopes, no_tests}

pub data Decision : Type 0 where
  pass fail : Decision

pub record GateDecision : Type 0 where
  pub decision : Decision
  pub candidate : ReleaseCandidate
  pub evaluated_at : String
  pub policy : ReleaseGatePolicy
  pub expected_certificate_identity : Option String
  pub blockers : List GateBlocker
  pub exceptions : List GateException
  pub ignored_findings : IgnoredFindings
  pub evidence : List EvidenceRef

-- `sort((left, right) => left.id - right.id)` of the kept findings.
abbrev by_id : DojoFinding → DojoFinding → Bool
by_id left right = number_leb left.id right.id

sorted_findings : FindingIndex → List DojoFinding
unfolding number_leb sort
sorted_findings index = sort by_id (values index.findings)

check_malformed : ℕ → Pushed
check_malformed count =
    if count == 0
    then nothing
    else block (blocker gate_unavailable "DefectDojo returned malformed Tests or findings" none)

abbrev pub decision_of : List GateBlocker → Decision
decision_of [] = pass
decision_of (b ∷ bs) = fail

abbrev no_findings : ℕ → FindingIndex
no_findings malformed = record { findings = []; malformed = malformed }

module _ (dates : Dates) where
  check_product : GateInput → DojoProduct → Pushed
  check_product input dojo =
      let tests = index_tests input.candidate dojo.tests no_tests in
      let listed = dojo.findings ++ dojo.accepted_findings in
      let index = index_findings listed (no_findings tests.malformed) in
      cite defectdojo ("defectdojo://products/" +s decimal dojo.product_id) "success"
      ⊕ check_scopes input (values tests.scan_scope)
      ⊕ judge_all dates input tests.test_tags (sorted_findings index)
      ⊕ check_malformed index.malformed

  pub check_defect_dojo : GateInput → DefectDojoState → Pushed
  check_defect_dojo input (unavailable reason) =
      block (blocker gate_unavailable ("DefectDojo is unavailable: " +s reason) none)
  check_defect_dojo input (available dojo) = check_product input dojo

  unfoldable pub gate_pushes : GateInput → Pushed
  gate_pushes input =
      check_signature input
      ⊕ check_image_scan input
      ⊕ check_sbom input
      ⊕ check_freeze input
      ⊕ check_deployed_rescan dates input
      ⊕ check_defect_dojo input input.defect_dojo

  unfoldable pub evaluate_release_gate : GateInput → GateDecision
  evaluate_release_gate input =
      let pushed = gate_pushes input in
      record {
        decision = decision_of pushed.blockers;
        candidate = input.candidate;
        evaluated_at = dates.to_iso input.now;
        policy = input.policy;
        expected_certificate_identity = input.expected_certificate_identity;
        blockers = pushed.blockers;
        exceptions = pushed.exceptions;
        ignored_findings = pushed.ignored;
        evidence = pushed.evidence;
      }

-- Opens the whole gate: for tests.
unfoldable pub gate_open : Unit {0}
unfolding decimal index_tests check_scopes index_findings sorted_findings judge_all check_malformed
    check_product check_signature check_image_scan check_sbom check_freeze check_deployed_rescan
    check_defect_dojo gate_pushes evaluate_release_gate
gate_open = tt
