-- ===== src/Monitoring/Evidence.antt =====
-- packages/monitoring/src/evidence.ts: the evidence that is required, against the records of it, and
-- the evidence of one image.
pub mod Current
pub mod Missing
pub mod Image
use guardianbot.Prelude.{
  String, ℕ, Bool, Eq, Option, ◌≡◌, nat_beq, true, List, ◌==◌, get_or_else, if◌then◌else◌, some,
  ◌↔◌, ◌&&◌, leb, first, ◌+s◌, ◌-◌, map, arith, sort, ◌∷◌, filter, not, length, ltb, [], false,
  string_eq,
}
use guardianbot.Monitoring.Status.{
  Status, Check, Age, failing, Metadata, not_applicable, meets, ms, worst_status, text_or_null,
  flag, warning, passing, txt,
}
use guardianbot.Prelude.Js.{Dates}
use guardianbot.Prelude.Text.{ends_with}
use mathlib.Core.Option.{none}

pub data EvidenceKind : Type 0 where
  semgrep trivy zap_smoke zap_nightly defectdojo_import sbom signature deployment : EvidenceKind

abbrev pub evidence_kind_name : EvidenceKind → String
evidence_kind_name semgrep = "semgrep"
evidence_kind_name trivy = "trivy"
evidence_kind_name zap_smoke = "zap-smoke"
evidence_kind_name zap_nightly = "zap-nightly"
evidence_kind_name defectdojo_import = "defectdojo-import"
evidence_kind_name sbom = "sbom"
evidence_kind_name signature = "signature"
evidence_kind_name deployment = "deployment"

abbrev evidence_kind_index : EvidenceKind → ℕ
evidence_kind_index semgrep = 0
evidence_kind_index trivy = 1
evidence_kind_index zap_smoke = 2
evidence_kind_index zap_nightly = 3
evidence_kind_index defectdojo_import = 4
evidence_kind_index sbom = 5
evidence_kind_index signature = 6
evidence_kind_index deployment = 7

abbrev pub evidence_kind_beq : EvidenceKind → EvidenceKind → Bool
evidence_kind_beq a b = nat_beq (evidence_kind_index a) (evidence_kind_index b)

pub evidence_kind_beq_iff : (a b : EvidenceKind) → (evidence_kind_beq a b ≡ true) ↔ (a ≡ b)
evidence_kind_beq_iff a b = ground arith

instance abbrev pub evidence_kind_eq : Eq EvidenceKind
evidence_kind_eq = record { beq = evidence_kind_beq; beq_iff = evidence_kind_beq_iff }

pub record EvidenceRecord : Type 0 where
  pub kind : EvidenceKind
  pub evidence_key : Option String
  pub observed_at : String
  pub succeeded : Bool
  pub digest : Option String
  pub environment : Option String
  pub details : Option String

pub record EvidenceRequirement : Type 0 where
  pub key : String
  pub kind : EvidenceKind
  pub evidence_key : Option String
  pub required : Bool
  pub max_age : ℕ
  pub digest : Option String
  pub environment : Option String
  pub label : Option String

pub record EvidenceReconciliation : Type 0 where
  pub status : Status
  pub checks : List Check
  pub missing_count : ℕ

-- `match?.field ?? requirement.field`
abbrev field_or :
    (EvidenceRecord → Option String) → Option EvidenceRecord → Option String → Option String
field_or f none wanted = wanted
field_or f (some found) wanted = elim (f found) [ none ↦ wanted | some t ↦ some t ]

unfoldable pub evidence_metadata :
    EvidenceRequirement → Option EvidenceRecord → List (String × Metadata)
evidence_metadata requirement found =
    ("kind", txt (evidence_kind_name requirement.kind))
    ∷ ("evidenceKey", text_or_null (field_or (λ r. r.evidence_key) found requirement.evidence_key))
    ∷ ("digest", text_or_null (field_or (λ r. r.digest) found requirement.digest))
    ∷ ("environment", text_or_null (field_or (λ r. r.environment) found requirement.environment))
    ∷ ("required", flag requirement.required)
    ∷ ("details", text_or_null (field_or (λ r. r.details) found none))
    ∷ []

unfoldable pub matches_evidence : EvidenceRequirement → EvidenceRecord → Bool
matches_evidence requirement item =
    item.kind == requirement.kind
    && meets requirement.evidence_key item.evidence_key
    && meets requirement.digest item.digest
    && meets requirement.environment item.environment

-- `time(right) - time(left) <= 0`; a difference that is NaN counts as 0.
abbrev pub difference_leb : Option ℕ → Option ℕ → Bool
difference_leb (some s) (some t) = leb s t
difference_leb _ _ = true

unfoldable pub newer_evidence : Dates → EvidenceRecord → EvidenceRecord → Bool
newer_evidence dates left right =
    difference_leb (dates.parse right.observed_at) (dates.parse left.observed_at)

unfoldable pub latest_evidence :
    Dates → EvidenceRequirement → List EvidenceRecord → Option EvidenceRecord
latest_evidence dates requirement evidence =
    first (sort (newer_evidence dates) (filter (matches_evidence requirement) evidence))

abbrev pub label_of : EvidenceRequirement → String
label_of requirement = get_or_else requirement.label (evidence_kind_name requirement.kind)

unfoldable pub missing_evidence_check : EvidenceRequirement → Check
missing_evidence_check requirement = record {
  key = requirement.key;
  status = if requirement.required then failing else not_applicable;
  summary =
      label_of requirement
      +s (if requirement.required then " evidence is missing" else " evidence is not required");
  observed_at = none;
  age = none;
  metadata = evidence_metadata requirement none;
}

evidence_check :
    EvidenceRequirement → EvidenceRecord → String → Option Age → Status → String → Check
evidence_check requirement found observed age status note = record {
  key = requirement.key;
  status = status;
  summary = label_of requirement +s note;
  observed_at = some observed;
  age = age;
  metadata = evidence_metadata requirement (some found);
}

unfoldable pub dated_evidence_check :
    Dates → ℕ → EvidenceRequirement → EvidenceRecord → Option ℕ → Check
unfolding evidence_check
dated_evidence_check dates now requirement found none =
    evidence_check requirement found found.observed_at none failing " evidence timestamp is invalid"
dated_evidence_check dates now requirement found (some time) =
    let age = now - time in
    let check = evidence_check requirement found (dates.to_iso time) (some (ms age)) in
    if not found.succeeded
    then check failing " evidence recorded a failed execution"
    else if ltb requirement.max_age age
    then check (if requirement.required then warning else not_applicable) " evidence is stale"
    else check passing " evidence is current"

unfoldable pub latest_evidence_check :
    Dates → ℕ → EvidenceRequirement → Option EvidenceRecord → Check
latest_evidence_check dates now requirement none = missing_evidence_check requirement
latest_evidence_check dates now requirement (some found) =
    dated_evidence_check dates now requirement found (dates.parse found.observed_at)

unfoldable pub requirement_check : Dates → ℕ → List EvidenceRecord → EvidenceRequirement → Check
requirement_check dates now evidence requirement =
    latest_evidence_check dates now requirement (latest_evidence dates requirement evidence)

-- `check.summary.endsWith("is missing")`
unfoldable pub ends_missing : Check → Bool
ends_missing check = ends_with check.summary "is missing"

unfoldable pub reconcile_evidence :
    Dates → ℕ → List EvidenceRequirement → List EvidenceRecord → EvidenceReconciliation
reconcile_evidence dates now requirements evidence =
    let checks = map (requirement_check dates now evidence) requirements in
    record {
      status = worst_status (map (λ check. check.status) checks);
      checks = checks;
      missing_count = length (filter ends_missing checks);
    }

pub record ImageEvidenceInput : Type 0 where
  pub digest : String
  pub deployed_digest : Option String
  pub environment : String
  pub sbom_max_age : ℕ
  pub signature_max_age : ℕ
  pub deployment_max_age : ℕ
  pub scan_max_age : Option ℕ
  pub dast_max_age : Option ℕ
  pub evidence : List EvidenceRecord
  pub require_scans : Option Bool
  pub require_dast : Option Bool

unfoldable pub image_requirement :
    ImageEvidenceInput → String → EvidenceKind → Bool → ℕ → String → EvidenceRequirement
image_requirement input key kind required max_age label = record {
  key = key;
  kind = kind;
  evidence_key = none;
  required = required;
  max_age = max_age;
  digest = some input.digest;
  environment = some input.environment;
  label = some label;
}

unfoldable pub image_requirements : ImageEvidenceInput → List EvidenceRequirement
image_requirements input =
    image_requirement input "image-sbom" sbom true input.sbom_max_age "SBOM"
    ∷ image_requirement input "image-signature" signature true input.signature_max_age "Signature"
    ∷ image_requirement input "image-deployment" deployment true input.deployment_max_age
        "Deployment"
    ∷ image_requirement input "image-trivy" trivy (get_or_else input.require_scans true)
        (get_or_else input.scan_max_age input.deployment_max_age) "Image scan"
    ∷ image_requirement input "image-zap" zap_nightly (get_or_else input.require_dast false)
        (get_or_else input.dast_max_age input.deployment_max_age) "DAST"
    ∷ []

unfoldable pub deployed_digest_check : ImageEvidenceInput → String → Check
deployed_digest_check input deployed = record {
  key = "deployed-digest";
  status = failing;
  summary = "Deployed digest does not match the expected immutable digest";
  observed_at = none;
  age = none;
  metadata = ("expectedDigest", txt input.digest) ∷ ("deployedDigest", txt deployed) ∷ [];
}

unfoldable pub with_deployed :
    ImageEvidenceInput → EvidenceReconciliation → Option String → EvidenceReconciliation
unfolding deployed_digest_check
with_deployed input reconciliation none = reconciliation
with_deployed input reconciliation (some deployed) =
    if not (deployed == "") && not (deployed == input.digest)
    then record {
      status = failing;
      missing_count = reconciliation.missing_count;
      checks = deployed_digest_check input deployed ∷ reconciliation.checks;
    }
    else reconciliation

unfoldable pub evaluate_image_evidence : Dates → ℕ → ImageEvidenceInput → EvidenceReconciliation
unfolding with_deployed
evaluate_image_evidence dates now input =
    with_deployed input (reconcile_evidence dates now (image_requirements input) input.evidence)
      input.deployed_digest
