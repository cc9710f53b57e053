-- ===== src/Monitoring/Repository/Overall.antt =====
-- `evaluateRepositoryMonitoring`: lemmas on the overall status.
use mathlib.Core.Option
use guardianbot.Prelude.{
  Option, List, ℕ, some, All, ◌≤◌, ◌∷◌, ◌≡◌, [], All-append_inv, false, arith,
}
use guardianbot.Prelude.Js.{Dates}
use guardianbot.Monitoring.ExpectedRuns.{reconcile_expected_runs, ExpectedRun, ObservedRun}
use guardianbot.Monitoring.Evidence.{
  evaluate_image_evidence, reconcile_evidence, EvidenceRequirement, ImageEvidenceInput,
  EvidenceRecord, sbom, signature, deployment, evaluate_image_evidence,
}
use guardianbot.Monitoring.Suppressions.{evaluate_suppressions, suppressions_report, Suppression}
use guardianbot.Monitoring.Repository.{
  evaluate_repository, all_checks, RepositoryInput, checks_of, runs_of, index_of, evidence_of,
  image_of,
}
use guardianbot.Monitoring.Status.{Check, status_weight}
use guardianbot.Monitoring.Freshness.{IndexInput, trails, evaluate_index_freshness}
use guardianbot.Monitoring.Status.Worst.{IsCalm, worst-IsCalm, statuses-IsCalm}
use Option.{none}
use guardianbot.Monitoring.Freshness.Fresh.{IsFresh, IsCovered, evaluate_index-IsFresh}
use guardianbot.Monitoring.Evidence.Image.{
  IsDeployedAs, HasImageEvidence, image-HasImageEvidence, image_checks-IsCalm,
}
use mathlib.Core.List.{Memᴰ}
use guardianbot.Monitoring.ExpectedRuns.Current.{HasCurrentRun, reconcile-HasCurrentRun}
use guardianbot.Monitoring.Evidence.Current.{HasEvidence, reconcile-HasEvidence}
use guardianbot.Monitoring.Suppressions.Partition.{IsLapsed, evaluate_suppressions-failing_iff}

module _ {ℓ} {I : Type ℓ} (P : I → Type 0) where
  -- `P` of the value, where there is one.
  unfoldable pub WhenGiven : Option I → Type 0
  WhenGiven none = Unit
  WhenGiven (some i) = P i

  given {κ} :
      {A : Type κ} (f : I → A) (checks : A → List Check)
      → ((i : I) → All IsCalm (checks (f i)) → P i)
      → (o : Option I) → All IsCalm (checks_of checks (Option.map f o))
      → WhenGiven o
  unfolding WhenGiven
  given f checks h none calm = tt
  given f checks h (some i) calm = h i calm

-- What each part of a repository's report has established, where the part is there.
unfoldable pub RunsHold : Dates → ℕ → List ExpectedRun × List ObservedRun → Type 0
RunsHold dates now r = All (HasCurrentRun dates now (r.1)) (r.0)

unfoldable pub IndexHolds : Dates → ℕ → IndexInput → Type 0
IndexHolds dates now input =
    IsFresh dates now input.indexed_at input.warn_after input.fail_after
    × (trails input.expected_commit input.indexed_commit ≡ false)
    × IsCovered input input.truncation

unfoldable pub EvidenceHolds : Dates → ℕ → List EvidenceRequirement × List EvidenceRecord → Type 0
EvidenceHolds dates now e = All (HasEvidence dates now (e.1)) (e.0)

unfoldable pub ImageHolds : Dates → ℕ → ImageEvidenceInput → Type 0
ImageHolds dates now input =
    IsDeployedAs input input.deployed_digest
    × HasImageEvidence dates now input sbom input.sbom_max_age
    × HasImageEvidence dates now input signature input.signature_max_age
    × HasImageEvidence dates now input deployment input.deployment_max_age

unfoldable pub SuppressionsHold : Dates → ℕ → List Suppression × ℕ → Type 0
SuppressionsHold dates now s = ¬ ((x : Suppression) × Memᴰ x (s.0) × IsLapsed dates now x)

unfoldable pub IsUntroubled : Dates → ℕ → RepositoryInput → Type 0
IsUntroubled dates now input =
    WhenGiven (RunsHold dates now) input.expected_runs
    × WhenGiven (IndexHolds dates now) input.index
    × WhenGiven (EvidenceHolds dates now) input.evidence
    × WhenGiven (ImageHolds dates now) input.image
    × WhenGiven (SuppressionsHold dates now) input.suppressions

runs-RunsHold :
    (dates : Dates) (now : ℕ) (r : List ExpectedRun × List ObservedRun)
    → All IsCalm (reconcile_expected_runs dates now (r.0) (r.1)).checks
    → RunsHold dates now r
unfolding reconcile_expected_runs RunsHold
runs-RunsHold dates now r calm = reconcile-HasCurrentRun dates now (r.0) (r.1) (worst-IsCalm _ calm)

evidence-EvidenceHolds :
    (dates : Dates) (now : ℕ) (e : List EvidenceRequirement × List EvidenceRecord)
    → All IsCalm (reconcile_evidence dates now (e.0) (e.1)).checks
    → EvidenceHolds dates now e
unfolding reconcile_evidence EvidenceHolds
evidence-EvidenceHolds dates now e calm =
    reconcile-HasEvidence dates now (e.0) (e.1) (worst-IsCalm _ calm)

suppressions-SuppressionsHold :
    (dates : Dates) (now : ℕ) (s : List Suppression × ℕ)
    → All IsCalm ((evaluate_suppressions dates now (s.1) (s.0)).check ∷ [])
    → SuppressionsHold dates now s
unfolding evaluate_suppressions suppressions_report SuppressionsHold IsCalm status_weight
suppressions-SuppressionsHold dates now s calm lapsed =
    let failed = (evaluate_suppressions-failing_iff dates now (s.1) (s.0)).1 lapsed in
    ground (arith, calm.0, failed)

-- A repository whose overall status is neither a warning nor a failure has, in each part of its input
-- that is given: the required runs and evidence current, the index fresh and complete enough, the
-- image deployed as expected with its SBOM, signature and deployment records, and no lapsed
-- suppression.
pub overall-IsUntroubled :
    (dates : Dates) (now : ℕ) (input : RepositoryInput)
    → status_weight (evaluate_repository dates now input).overall_status ≤ 1
    → IsUntroubled dates now input
unfolding evaluate_repository all_checks IsUntroubled IndexHolds ImageHolds
overall-IsUntroubled dates now input calm =
    let (runs, rest) =
      All-append_inv IsCalm (checks_of (λ r. r.checks) (runs_of dates now input)) _
        (statuses-IsCalm _ calm) in
    let (index, rest2) =
      All-append_inv IsCalm (checks_of (λ c. c ∷ []) (index_of dates now input)) _ rest in
    let (evidence, rest3) =
      All-append_inv IsCalm (checks_of (λ e. e.checks) (evidence_of dates now input)) _ rest2 in
    let (image, suppressions) =
      All-append_inv IsCalm (checks_of (λ e. e.checks) (image_of dates now input)) _ rest3 in
    (
      given (RunsHold dates now) _ (λ r. r.checks) (runs-RunsHold dates now) input.expected_runs
          runs,
      given (IndexHolds dates now) (evaluate_index_freshness dates now) (λ c. c ∷ [])
          (λ i k. evaluate_index-IsFresh dates now i (k.0)) input.index index,
      given (EvidenceHolds dates now) _ (λ r. r.checks) (evidence-EvidenceHolds dates now)
          input.evidence evidence,
      given (ImageHolds dates now) (evaluate_image_evidence dates now) (λ r. r.checks)
          (λ i k. image-HasImageEvidence dates now i (image_checks-IsCalm dates now i k))
          input.image image,
      given (SuppressionsHold dates now) _ (λ s. s.check ∷ [])
          (suppressions-SuppressionsHold dates now) input.suppressions suppressions,
    )
