-- ===== src/ReleaseGate/Evidence.antt =====
-- `evaluateReleaseGate`, the part that reads GuardianBot's own evidence: signature, image scan, SBOM,
-- promotion freeze and deployed-digest rescan.
use guardianbot.ReleaseGate.Types.{
  GateInput, ReleaseCandidate, Requirement, SignatureEvidence, Pushed, ImageScanEvidence,
  SbomEvidence, RescanResult, RescanEvidence, block, nothing, ◌⊕◌, blocker, unsigned_digest,
  image_scan_missing, sbom_missing, deployed_rescan_missing, requirement_eq, cite, promotion_frozen,
  deployed_rescan_failed, EvidenceKind, wrong_signer, image_scan_critical,
}
pub mod Clear
pub mod Rescan
use guardianbot.Prelude.{
  Option, Bool, ℕ, String, false, true, includes, if◌then◌else◌, some, ◌∷◌, not, ◌==◌, ltb, ◌&&◌,
  ◌*◌, ◌||◌, none, ◌-◌, ◌+s◌, string_eq,
}
use guardianbot.Prelude.Text.{to_lower, decimal}
use guardianbot.Prelude.Js.{is_safe_integer, Number, Dates, neg, nat, number_eq}
use mathlib.Core.Option.{none}

-- The evidence that the policy requires; the signature always belongs to it.
abbrev pub required : GateInput → Requirement → Bool
required input r = includes (Requirement.signature ∷ input.policy.required_evidence) r

-- `expectedIdentity`, and whether it is truthy and equal to the lower-case identity.
trusted_identity : Option String → String → Bool
trusted_identity none identity = false
trusted_identity (some expected) identity =
    not (to_lower expected == "") && to_lower identity == to_lower expected

signature_verdict : ReleaseCandidate → Option String → Option SignatureEvidence → Pushed
unfolding trusted_identity to_lower
signature_verdict candidate expected none = block (
    blocker unsigned_digest "no accepted Cosign signature is bound to the exact candidate digest"
      none)
signature_verdict candidate expected (some s) =
    if not (s.digest == candidate.digest)
    then block (
        blocker unsigned_digest
          "no accepted Cosign signature is bound to the exact candidate digest" none)
    else cite EvidenceKind.signature s.ref "success"
      ⊕ (if trusted_identity expected s.certificate_identity
          then nothing
          else block (
              blocker wrong_signer
                "the candidate signature was not issued to the trusted image workflow identity"
                (some s.ref)))

unfoldable pub check_signature : GateInput → Pushed
unfolding signature_verdict
check_signature input =
    signature_verdict input.candidate input.expected_certificate_identity input.evidence.signature

-- `evidence.imageScan` with the requirement that it be Critical-clean. `-0` is 0, and a number that is
-- no integer is never 0.
image_verdict : Bool → Option ImageScanEvidence → Pushed
unfolding is_safe_integer
image_verdict needed none =
    if needed
    then block
        (blocker image_scan_missing "no accepted Trivy image result exists for the candidate" none)
    else nothing
image_verdict needed (some scan) =
    cite EvidenceKind.image_scan scan.ref scan.status
    ⊕ (if needed
          && (not (scan.status == "success")
              || not (is_safe_integer scan.critical_findings)
              || not (scan.critical_findings == nat 0))
        then block (
            blocker image_scan_critical "the accepted Trivy image result is not Critical-clean"
              (some scan.ref))
        else nothing)

unfoldable pub check_image_scan : GateInput → Pushed
unfolding image_verdict
check_image_scan input =
    image_verdict (required input Requirement.image_scan) input.evidence.image_scan

sbom_verdict : Bool → Option SbomEvidence → Pushed
sbom_verdict needed none =
    if needed
    then block (blocker sbom_missing "no accepted CycloneDX SBOM exists for the candidate" none)
    else nothing
sbom_verdict needed (some s) =
    cite EvidenceKind.sbom s.ref s.status
    ⊕ (if needed && not (s.status == "success")
        then block (
            blocker sbom_missing "no accepted CycloneDX SBOM exists for the candidate" (some s.ref))
        else nothing)

unfoldable pub check_sbom : GateInput → Pushed
unfolding sbom_verdict
check_sbom input = sbom_verdict (required input Requirement.sbom) input.evidence.sbom

-- A frozen digest is never promoted, whatever the policy requires.
freeze_verdict : ReleaseCandidate → Option RescanResult → Pushed
freeze_verdict candidate none = nothing
freeze_verdict candidate (some rescan) =
    if rescan.digest == candidate.digest && rescan.frozen
    then block (
        blocker promotion_frozen
          ("a promotion freeze is active for the candidate digest (rescan in "
            +s (rescan.environment +s ")"))
          (some rescan.ref))
    else nothing

unfoldable pub check_freeze : GateInput → Pushed
unfolding freeze_verdict
check_freeze input = freeze_verdict input.candidate input.evidence.candidate_rescan

abbrev pub rescan_max_age_hours : ℕ
rescan_max_age_hours = 48

-- `coverage`: the deployed-digest record, if it is of the candidate's environment.
abbrev pub in_environment : String → Option RescanEvidence → Option RescanEvidence
in_environment environment none = none
in_environment environment (some c) = if c.environment == environment then some c else none

abbrev pub coverage_of : GateInput → Option RescanEvidence
coverage_of input = in_environment input.candidate.environment input.evidence.deployed_rescan

cite_rescan : Option RescanEvidence → Pushed
cite_rescan none = nothing
cite_rescan (some c) = elim c.rescan [
  | none ↦ nothing
  | some r ↦ cite EvidenceKind.deployed_rescan r.ref (if r.frozen then "frozen" else "success")
]

-- The rescan that counts: of the deployed digest, in the candidate's environment.
abbrev pub rescan_of : String → String → Option RescanResult → Option RescanResult
rescan_of deployed environment none = none
rescan_of deployed environment (some r) =
    if r.digest == deployed && r.environment == environment then some r else none

-- `rescan.criticalFindings < 0`; the count is an integer.
abbrev pub is_negative : Number → Bool
is_negative (neg n) = true
is_negative _ = false

-- `!Number.isFinite(observedAt) || now - observedAt > 48 hours`
abbrev pub is_stale : Option ℕ → ℕ → Bool
is_stale none now = true
is_stale (some observed) now = ltb (rescan_max_age_hours * 3_600_000) (now - observed)

missing_rescan : String → Option String → Pushed
unfolding decimal
missing_rescan environment ref = block (
    blocker deployed_rescan_missing
      ("no verified rescan of the digest deployed in "
        +s (environment +s (" within " +s (decimal rescan_max_age_hours +s " hours"))))
      ref)

module _ (dates : Dates) where
  deployed_verdict : String → ℕ → Option RescanResult → Pushed
  unfolding missing_rescan
  deployed_verdict environment now none = missing_rescan environment none
  deployed_verdict environment now (some r) =
      if is_stale (dates.parse r.observed_at) now
      then missing_rescan environment (some r.ref)
      else if not r.artifact_accepted || is_negative r.critical_findings
      then block (
          blocker deployed_rescan_failed "the deployed-digest rescan was not fully reconciled"
            (some r.ref))
      else nothing

  coverage_verdict : String → ℕ → Option RescanEvidence → Pushed
  unfolding deployed_verdict
  coverage_verdict environment now none = block (
      blocker deployed_rescan_missing
        "deployed-digest rescan coverage for the candidate environment is unknown" none)
  coverage_verdict environment now (some c) = elim c.deployed_digest [
    | none ↦ nothing
    | some deployed ↦ deployed_verdict environment now (rescan_of deployed environment c.rescan)
  ]

  unfoldable pub check_deployed_rescan : GateInput → Pushed
  unfolding cite_rescan coverage_verdict
  check_deployed_rescan input =
      let coverage = coverage_of input in
      cite_rescan coverage
      ⊕ (if required input Requirement.deployed_rescan
          then coverage_verdict input.candidate.environment input.now coverage
          else nothing)
