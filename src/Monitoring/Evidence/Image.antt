-- ===== src/Monitoring/Evidence/Image.antt =====
-- `evaluateImageEvidence`: lemmas on checks that neither warn nor fail.
use guardianbot.Prelude.{
  refl, ℕ, Option, String, ◌≤◌, some, arith, ◌≡◌, true, ◌⊎◌, eq_iff, All, Bool-cases, not, ◌==◌,
  ◌&&◌, inl, inr, string_eq,
}
use guardianbot.Prelude.Js.{Dates}
use guardianbot.Monitoring.Evidence.{
  ImageEvidenceInput, with_deployed, evaluate_image_evidence, image_requirements, EvidenceKind,
  EvidenceReconciliation, EvidenceRecord, image_requirement, matches_evidence, sbom, signature,
  deployment, deployed_digest_check, reconcile_evidence,
}
use guardianbot.Monitoring.Status.{status_weight}
use guardianbot.Monitoring.Evidence.Current.{HasEvidence, IsCurrentEvidence, reconcile-HasEvidence}
use mathlib.Core.Option.{none}
use guardianbot.Monitoring.Status.Worst.{IsCalm, worst-IsCalm}

-- A current record of one kind, for the image's digest in its environment.
unfoldable pub HasImageEvidence : Dates → ℕ → ImageEvidenceInput → EvidenceKind → ℕ → Type 0
HasImageEvidence dates now input kind max_age =
    (item : EvidenceRecord) × IsCurrentEvidence dates now input.evidence
      (image_requirement input "" kind true max_age "") item

-- The deployed digest, where one is given, is the expected one.
unfoldable pub IsDeployedAs : ImageEvidenceInput → Option String → Type 0
IsDeployedAs input none = Unit
IsDeployedAs input (some deployed) = (deployed ≡ "") ⊎ (deployed ≡ input.digest)

with_deployed-calm :
    (input : ImageEvidenceInput) (r : EvidenceReconciliation) (deployed : Option String)
    → status_weight (with_deployed input r deployed).status ≤ 1
    → IsDeployedAs input deployed × (status_weight r.status ≤ 1)
unfolding with_deployed IsDeployedAs status_weight
with_deployed-calm input r none calm = (tt, calm)
with_deployed-calm input r (some deployed) calm =
    ground (arith, eq_iff deployed "", eq_iff deployed input.digest, calm)

-- An image whose status is neither a warning nor a failure is deployed as the expected digest, where
-- a deployed digest is given, and has a current SBOM, signature and deployment record of exactly that
-- digest and environment, as far as these are not empty.
pub image-HasImageEvidence :
    (dates : Dates) (now : ℕ) (input : ImageEvidenceInput)
    → status_weight (evaluate_image_evidence dates now input).status ≤ 1
    → IsDeployedAs input input.deployed_digest
      × HasImageEvidence dates now input sbom input.sbom_max_age
      × HasImageEvidence dates now input signature input.signature_max_age
      × HasImageEvidence dates now input deployment input.deployment_max_age
unfolding evaluate_image_evidence image_requirements HasEvidence HasImageEvidence image_requirement
    IsCurrentEvidence matches_evidence
image-HasImageEvidence dates now input calm =
    let (deployed, rest) = with_deployed-calm input _ input.deployed_digest calm in
    let (has_sbom, (has_signature, (has_deployment, others))) =
      reconcile-HasEvidence dates now (image_requirements input) input.evidence rest in
    (deployed, has_sbom refl, has_signature refl, has_deployment refl)

with_deployed-checks :
    (input : ImageEvidenceInput) (r : EvidenceReconciliation) (deployed : Option String)
    → (All IsCalm r.checks → status_weight r.status ≤ 1)
    → All IsCalm (with_deployed input r deployed).checks
    → status_weight (with_deployed input r deployed).status ≤ 1
unfolding with_deployed deployed_digest_check IsCalm status_weight
with_deployed-checks input r none h calm = h calm
with_deployed-checks input r (some deployed) h calm =
    elim (Bool-cases (not (deployed == "") && not (deployed == input.digest))) [
      | inl differs ↦ absurd (omega (arith, (rw differs at calm).0))
      | inr agrees ↦ rw agrees (h (rw agrees at calm))
    ]

-- Checks of an image that neither warn nor fail come with a status that does neither.
pub image_checks-IsCalm :
    (dates : Dates) (now : ℕ) (input : ImageEvidenceInput)
    → All IsCalm (evaluate_image_evidence dates now input).checks
    → status_weight (evaluate_image_evidence dates now input).status ≤ 1
unfolding evaluate_image_evidence reconcile_evidence
image_checks-IsCalm dates now input calm =
    with_deployed-checks input
      (reconcile_evidence dates now (image_requirements input) input.evidence) input.deployed_digest
      (λ k. worst-IsCalm _ k) calm
