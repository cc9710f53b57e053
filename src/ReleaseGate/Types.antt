-- ===== src/ReleaseGate/Types.antt =====
-- The data of release-gate-policy.ts: policies, candidates, evidence, DefectDojo state, decisions.
use guardianbot.Prelude.{
  ℕ, ◌≡◌, ◌↔◌, Bool, Option, none, List, [], ◌∷◌, ◌++◌, ◌+◌, String, arith, Eq, ◌==◌, find, nat_beq,
  true, string_eq,
}
use guardianbot.Prelude.Js.{Number}

pub data Severity : Type 0 where
  critical high medium low info : Severity

pub data Requirement : Type 0 where
  signature image_scan sbom deployed_rescan : Requirement

pub data Source : Type 0 where
  dast image sast unknown : Source

abbrev pub severities : List Severity
severities = critical ∷ high ∷ medium ∷ low ∷ info ∷ []

abbrev pub evidence_requirements : List Requirement
evidence_requirements = signature ∷ image_scan ∷ sbom ∷ deployed_rescan ∷ []

abbrev pub severity_name : Severity → String
severity_name critical = "critical"
severity_name high = "high"
severity_name medium = "medium"
severity_name low = "low"
severity_name info = "info"

abbrev pub requirement_name : Requirement → String
requirement_name signature = "signature"
requirement_name image_scan = "image-scan"
requirement_name sbom = "sbom"
requirement_name deployed_rescan = "deployed-rescan"

abbrev pub source_name : Source → String
source_name dast = "dast"
source_name image = "image"
source_name sast = "sast"
source_name unknown = "unknown"

-- `SEVERITIES.includes(text)`, with the severity that it names.
unfoldable pub severity_of : String → Option Severity
severity_of text = find (λ s. severity_name s == text) severities

unfoldable pub requirement_of : String → Option Requirement
requirement_of text = find (λ r. requirement_name r == text) evidence_requirements

abbrev severity_index : Severity → ℕ
severity_index critical = 0
severity_index high = 1
severity_index medium = 2
severity_index low = 3
severity_index info = 4

abbrev pub severity_beq : Severity → Severity → Bool
severity_beq a b = nat_beq (severity_index a) (severity_index b)

pub severity_beq_iff : (a b : Severity) → (severity_beq a b ≡ true) ↔ (a ≡ b)
severity_beq_iff a b = ground arith

instance abbrev pub severity_eq : Eq Severity
severity_eq = record { beq = severity_beq; beq_iff = severity_beq_iff }

abbrev requirement_index : Requirement → ℕ
requirement_index signature = 0
requirement_index image_scan = 1
requirement_index sbom = 2
requirement_index deployed_rescan = 3

abbrev pub requirement_beq : Requirement → Requirement → Bool
requirement_beq a b = nat_beq (requirement_index a) (requirement_index b)

pub requirement_beq_iff : (a b : Requirement) → (requirement_beq a b ≡ true) ↔ (a ≡ b)
requirement_beq_iff a b = ground arith

instance abbrev pub requirement_eq : Eq Requirement
requirement_eq = record { beq = requirement_beq; beq_iff = requirement_beq_iff }

abbrev source_index : Source → ℕ
source_index dast = 0
source_index image = 1
source_index sast = 2
source_index unknown = 3

abbrev pub source_beq : Source → Source → Bool
source_beq a b = nat_beq (source_index a) (source_index b)

pub source_beq_iff : (a b : Source) → (source_beq a b ≡ true) ↔ (a ≡ b)
source_beq_iff a b = ground arith

instance abbrev pub source_eq : Eq Source
source_eq = record { beq = source_beq; beq_iff = source_beq_iff }

pub record ReleaseGatePolicy : Type 0 where
  pub blocking_severities : List Severity
  pub block_high : Bool
  pub verified_only : Bool
  pub required_evidence : List Requirement

pub record ReleaseCandidate : Type 0 where
  pub repository : String
  pub repository_id : ℕ
  pub commit : String
  pub digest : String
  pub environment : String

pub record SignatureEvidence : Type 0 where
  pub digest : String
  pub certificate_identity : String
  pub ref : String

pub record ImageScanEvidence : Type 0 where
  pub critical_findings : Number
  pub status : String
  pub ref : String

pub record SbomEvidence : Type 0 where
  pub status : String
  pub ref : String

pub record RescanResult : Type 0 where
  pub digest : String
  pub environment : String
  pub observed_at : String
  pub critical_findings : Number
  pub frozen : Bool
  pub artifact_accepted : Bool
  pub ref : String

pub record RescanEvidence : Type 0 where
  pub environment : String
  pub deployed_digest : Option String
  pub rescan : Option RescanResult

pub record SeverityCounts : Type 0 where
  pub critical_count : Number
  pub high_count : Number
  pub medium_count : Number
  pub low_count : Number
  pub info_count : Number

pub record CommitScanSummary : Type 0 where
  pub status : String
  pub severities : Option SeverityCounts
  pub ref : String

pub record CommitScanEvidence : Type 0 where
  pub commit : String
  pub semgrep : Option CommitScanSummary
  pub trivy : Option CommitScanSummary

pub record GateEvidence : Type 0 where
  pub signature : Option SignatureEvidence
  pub image_scan : Option ImageScanEvidence
  pub sbom : Option SbomEvidence
  pub deployed_rescan : Option RescanEvidence
  pub candidate_rescan : Option RescanResult
  pub commit_scan : Option CommitScanEvidence

-- An element that is null stands as one whose `id` is no number: the code looks at nothing else.
pub record RiskAcceptance : Type 0 where
  pub id : Number
  pub name : Option String
  pub expiration_date : Option String
  pub decision : Option String
  pub accepted_findings : Option (List Number)

pub record DojoFinding : Type 0 where
  pub id : Number
  pub test : Number
  pub severity : Option String
  pub active : Option Bool
  pub verified : Option Bool
  pub false_p : Option Bool
  pub duplicate : Option Bool
  pub out_of_scope : Option Bool
  pub is_mitigated : Option Bool
  pub risk_accepted : Option Bool
  pub accepted_risks : Option (List RiskAcceptance)

pub record DojoTest : Type 0 where
  pub id : Number
  pub scan_type : Option String
  pub tags : Option (List (Option String))

pub record DojoProduct : Type 0 where
  pub product_id : ℕ
  pub tests : List DojoTest
  pub findings : List DojoFinding
  pub accepted_findings : List DojoFinding

pub data DefectDojoState : Type 0 where
  available : DojoProduct → DefectDojoState
  unavailable : String → DefectDojoState

pub data BlockerCode : Type 0 where
  gate_unavailable unsigned_digest wrong_signer image_scan_missing image_scan_critical : BlockerCode
  sbom_missing deployed_rescan_missing deployed_rescan_failed promotion_frozen : BlockerCode
  defectdojo_scope_missing release_blocking_finding risk_acceptance_invalid : BlockerCode

pub record GateBlocker : Type 0 where
  pub code : BlockerCode
  pub message : String
  pub finding_id : Option Number
  pub severity : Option String
  pub source : Option Source
  pub ref : Option String

pub record GateException : Type 0 where
  pub finding_id : Number
  pub severity : String
  pub source : Source
  pub risk_acceptance_id : Number
  pub risk_acceptance_name : String
  pub expires_at : String
  pub ref : String

pub data EvidenceKind : Type 0 where
  signature image_scan sbom deployed_rescan commit_scan defectdojo : EvidenceKind

pub record EvidenceRef : Type 0 where
  pub kind : EvidenceKind
  pub ref : String
  pub status : String

pub record IgnoredFindings : Type 0 where
  pub out_of_scope : ℕ
  pub below_threshold : ℕ
  pub not_open : ℕ

pub record GateInput : Type 0 where
  pub candidate : ReleaseCandidate
  pub evidence : GateEvidence
  pub expected_certificate_identity : Option String
  pub defect_dojo : DefectDojoState
  pub policy : ReleaseGatePolicy
  pub now : ℕ

-- What one part of the evaluation pushes onto the decision's arrays and adds to its counts.
pub record Pushed : Type 0 where
  pub blockers : List GateBlocker
  pub exceptions : List GateException
  pub ignored : IgnoredFindings
  pub evidence : List EvidenceRef

abbrev pub nothing_ignored : IgnoredFindings
nothing_ignored = record { out_of_scope = 0; below_threshold = 0; not_open = 0 }

abbrev pub nothing : Pushed
nothing = record { blockers = []; exceptions = []; ignored = nothing_ignored; evidence = [] }

infixr 30 ◌⊕◌
-- First the one part, then the other.
abbrev pub ◌⊕◌ : Pushed → Pushed → Pushed
a ⊕ b = record {
  blockers = a.blockers ++ b.blockers;
  exceptions = a.exceptions ++ b.exceptions;
  ignored = record {
    out_of_scope = a.ignored.out_of_scope + b.ignored.out_of_scope;
    below_threshold = a.ignored.below_threshold + b.ignored.below_threshold;
    not_open = a.ignored.not_open + b.ignored.not_open;
  };
  evidence = a.evidence ++ b.evidence;
}

-- `blockers.push`, `evidenceRefs.push`, `exceptions.push`
abbrev pub block : GateBlocker → Pushed
block b = record nothing { blockers = b ∷ [] }

abbrev pub cite : EvidenceKind → String → String → Pushed
cite kind ref status = record nothing {
  evidence = record { kind = kind; ref = ref; status = status } ∷ [];
}

abbrev pub except : GateException → Pushed
except e = record nothing { exceptions = e ∷ [] }

-- A blocker that is about no finding.
abbrev pub blocker : BlockerCode → String → Option String → GateBlocker
blocker code message ref = record {
  code = code;
  message = message;
  finding_id = none;
  severity = none;
  source = none;
  ref = ref;
}
