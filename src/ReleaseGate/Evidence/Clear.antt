-- ===== src/ReleaseGate/Evidence/Clear.antt =====
-- `evaluateReleaseGate`, GuardianBot's own evidence: lemmas on checks that push no blocker.
use guardianbot.Prelude.Text.{to_lower}
use guardianbot.ReleaseGate.Types.{
  GateInput, SignatureEvidence, ReleaseCandidate, RescanResult, Requirement, ImageScanEvidence,
  SbomEvidence,
}
use guardianbot.ReleaseGate.Evidence.{
  check_signature, trusted_identity, signature_verdict, required, image_verdict, check_image_scan,
  sbom_verdict, check_sbom, freeze_verdict, check_freeze,
}
use guardianbot.Prelude.{
  String, ◌≡◌, Option, ◌↔◌, some, true, ◌≢◌, refl, ◌==◌, eq_iff, arith, string_eq, Bool, false,
}
use guardianbot.ReleaseGate.Pushes.{IsClear}
use mathlib.Core.Option.{none}
use text.Mathlib.TextLemmas.{cons≢nil}
use guardianbot.Prelude.Js.{nat, number_beq_iff}

to_lower-eq-nil : (s : String) → to_lower s ≡ "" → s ≡ ""
unfolding to_lower
to_lower-eq-nil String.[] h = refl
to_lower-eq-nil (String.◌∷◌ c s) h = absurd (cons≢nil h)

-- An accepted signature of exactly the candidate's digest, by the trusted workflow identity.
abbrev pub IsSigned : GateInput → Type 0
IsSigned input =
    (s : SignatureEvidence) × (input.evidence.signature ≡ some s)
    × (s.digest ≡ input.candidate.digest)
    × ((expected : String) × (input.expected_certificate_identity ≡ some expected)
        × (expected ≢ "")
        × (to_lower s.certificate_identity ≡ to_lower expected))

trusted_identity_iff :
    (o : Option String) (identity : String)
    → (trusted_identity o identity ≡ true) ↔ (
        (expected : String) × (o ≡ some expected)
        × (expected ≢ "")
        × (to_lower identity ≡ to_lower expected))
unfolding trusted_identity
trusted_identity_iff none identity = ((λ h. cc), (λ h. cc (h.1)))
trusted_identity_iff (some e) identity = (
  (λ h. (e, refl, ground (arith, facts, lowered), ground (arith, facts))),
  (λ h.
      let (x, same, given, lower) = h in
      ground (arith, facts, to_lower-eq-nil e, eq_iff (to_lower e) "", same)),
)
  where
    facts : ((to_lower identity == to_lower e) ≡ true) ↔ (to_lower identity ≡ to_lower e)
    facts = eq_iff _ _

    lowered : e ≡ "" → (to_lower e == "") ≡ true
    lowered h = rw h (unfold to_lower in refl)

signature_verdict-IsClear :
    (candidate : ReleaseCandidate) (expected : Option String) (o : Option SignatureEvidence)
    → IsClear (signature_verdict candidate expected o) ↔ (
        (s : SignatureEvidence) × (o ≡ some s)
        × (s.digest ≡ candidate.digest)
        × (trusted_identity expected s.certificate_identity ≡ true))
unfolding signature_verdict
signature_verdict-IsClear candidate expected none = ((λ h. cc), (λ h. cc (h.1)))
signature_verdict-IsClear candidate expected (some s) = (
  (λ h. (s, refl, ground (arith, eq_iff s.digest candidate.digest), ground arith)),
  (λ (t, same, digest, trusted). ground (arith, eq_iff s.digest candidate.digest)),
)

pub check_signature-IsClear : (input : GateInput) → IsClear (check_signature input) ↔ IsSigned input
unfolding check_signature
check_signature-IsClear input =
    let (to, from) =
      signature_verdict-IsClear input.candidate input.expected_certificate_identity
        input.evidence.signature in
    (
      (λ h.
          let (s, found, digest, trusted) = to h in
          (s, found, digest, (trusted_identity_iff _ _).0 trusted)),
      (λ h.
          let (s, found, digest, trusted) = h in
          from (s, found, digest, (trusted_identity_iff _ _).1 trusted)),
    )

-- Where the policy requires the image scan: one that succeeded and counted no Critical finding.
abbrev pub IsImageClean : GateInput → Type 0
IsImageClean input =
    required input Requirement.image_scan ≡ true
    → (s : ImageScanEvidence) × (input.evidence.image_scan ≡ some s)
      × (s.status ≡ "success")
      × (s.critical_findings ≡ nat 0)

image_verdict-IsClear :
    (needed : Bool) (o : Option ImageScanEvidence)
    → IsClear (image_verdict needed o) ↔ (
        needed ≡ true
        → (s : ImageScanEvidence) × (o ≡ some s)
          × (s.status ≡ "success")
          × (s.critical_findings ≡ nat 0))
unfolding image_verdict
image_verdict-IsClear false none = ((λ h n. cc), (λ h. refl))
image_verdict-IsClear true none = ((λ h n. cc), (λ h. cc ((h refl).1)))
image_verdict-IsClear false (some s) = ((λ h n. cc), (λ h. refl))
image_verdict-IsClear true (some s) = (
  (λ h n. (
    s,
    refl,
    ground (arith, eq_iff s.status "success"),
    ground (arith, number_beq_iff s.critical_findings (nat 0)),
  )),
  (λ h.
      let (t, same, status, count) = h refl in
      ground (arith, same, status, count, eq_iff s.status "success")),
)

pub check_image_scan-IsClear :
    (input : GateInput) → IsClear (check_image_scan input) ↔ IsImageClean input
unfolding check_image_scan
check_image_scan-IsClear input =
    image_verdict-IsClear (required input Requirement.image_scan) input.evidence.image_scan

-- Where the policy requires the SBOM: one that succeeded.
abbrev pub HasSbom : GateInput → Type 0
HasSbom input =
    required input Requirement.sbom ≡ true
    → (s : SbomEvidence) × (input.evidence.sbom ≡ some s) × (s.status ≡ "success")

sbom_verdict-IsClear :
    (needed : Bool) (o : Option SbomEvidence)
    → IsClear (sbom_verdict needed o)
      ↔ (needed ≡ true → (s : SbomEvidence) × (o ≡ some s) × (s.status ≡ "success"))
unfolding sbom_verdict
sbom_verdict-IsClear false none = ((λ h n. cc), (λ h. refl))
sbom_verdict-IsClear true none = ((λ h n. cc), (λ h. cc ((h refl).1)))
sbom_verdict-IsClear false (some s) = ((λ h n. cc), (λ h. refl))
sbom_verdict-IsClear true (some s) = (
  (λ h n. (s, refl, ground (arith, eq_iff s.status "success"))),
  (λ h. let (t, same, status) = h refl in ground (arith, same, status, eq_iff s.status "success")),
)

pub check_sbom-IsClear : (input : GateInput) → IsClear (check_sbom input) ↔ HasSbom input
unfolding check_sbom
check_sbom-IsClear input =
    sbom_verdict-IsClear (required input Requirement.sbom) input.evidence.sbom

-- No rescan has frozen the candidate's digest.
abbrev pub IsNotFrozen : GateInput → Type 0
IsNotFrozen input =
    (r : RescanResult)
    → input.evidence.candidate_rescan ≡ some r
    → r.digest ≡ input.candidate.digest
    → r.frozen ≡ false

freeze_verdict-IsClear :
    (candidate : ReleaseCandidate) (o : Option RescanResult)
    → IsClear (freeze_verdict candidate o)
      ↔ ((r : RescanResult) → o ≡ some r → r.digest ≡ candidate.digest → r.frozen ≡ false)
unfolding freeze_verdict
freeze_verdict-IsClear candidate none = ((λ h r e. cc), (λ h. refl))
freeze_verdict-IsClear candidate (some s) = (
  (λ h r e d. ground (arith, eq_iff s.digest candidate.digest)),
  (λ h. ground (arith, h s refl, eq_iff s.digest candidate.digest)),
)

pub check_freeze-IsClear : (input : GateInput) → IsClear (check_freeze input) ↔ IsNotFrozen input
unfolding check_freeze
check_freeze-IsClear input = freeze_verdict-IsClear input.candidate input.evidence.candidate_rescan
