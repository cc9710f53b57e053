-- ===== src/ReleaseGate/Coverage.antt =====
-- `evaluateReleaseGate`, the part that reads DefectDojo Tests: their scope, and the coverage of the
-- commit-scoped imports.
pub mod Entries
pub mod Keys
pub mod Seen
pub mod Neutral
use mathlib.Core.Option
use guardianbot.ReleaseGate.Types.{
  Source, ReleaseCandidate, SeverityCounts, ReleaseGatePolicy, GateInput, Pushed, nothing,
  source_name, DojoTest, Severity, CommitScanSummary, block, ◌⊕◌, CommitScanEvidence,
  ImageScanEvidence, defectdojo_scope_missing, sast, critical, cite, dast, image, high, commit_scan,
  medium, source_eq, severities, low, severity_eq, info,
}
use guardianbot.Prelude.{
  List, [], String, ℕ, ◌+◌, insert, Option, ◌+s◌, if◌then◌else◌, ◌∷◌, get_or_else, Bool, none, ◌==◌,
  not, some, lookup, ◌&&◌, false, true, any, ltb, ◌||◌, string_eq, all, includes, nat_eq,
}
use guardianbot.ReleaseGate.Scope.{
  FindingScope, finding_source, lower_tags, finding_scope, in_scope, other_commit, other_repository,
}
use guardianbot.Prelude.Js.{is_safe_integer, Number, number_eq, nat}
use guardianbot.ReleaseGate.Evidence.{is_negative}

-- An entry of `scanScope`: the Tests of one source and scan type.
pub record ScanScope : Type 0 where
  pub source : Source
  pub scan_type : String
  pub in_scope_count : ℕ
  pub stale : ℕ

pub record TestIndex : Type 0 where
  pub test_tags : List (Number × List String)
  pub scan_scope : List (String × ScanScope)
  pub malformed : ℕ

abbrev pub no_tests : TestIndex
no_tests = record { test_tags = []; scan_scope = []; malformed = 0 }

abbrev pub scope_key : Source → String → String
scope_key source scan_type = source_name source +s ("␟" +s scan_type)

-- One Test counted in the entry of its source and scan type.
counted : FindingScope → ScanScope → ScanScope
counted in_scope entry = record entry { in_scope_count = entry.in_scope_count + 1 }
counted other_commit entry = record entry { stale = entry.stale + 1 }
counted _ entry = entry

-- `scanScope.get(key) ?? { source, scanType, inScope: 0, stale: 0 }`
entry_for : Source → String → List (String × ScanScope) → ScanScope
entry_for source scan_type scopes =
    get_or_else (lookup (scope_key source scan_type) scopes)
      (record { source = source; scan_type = scan_type; in_scope_count = 0; stale = 0 })

scoped : FindingScope → List String → String → List (String × ScanScope) → List (String × ScanScope)
unfolding finding_source counted entry_for
scoped other_repository tags scan_type scopes = scopes
scoped scope tags scan_type scopes =
    let source = finding_source tags in
    insert (scope_key source scan_type) (counted scope (entry_for source scan_type scopes)) scopes

-- The body of the loop over `dojo.tests`.
index_test : ReleaseCandidate → DojoTest → TestIndex → TestIndex
unfolding is_safe_integer lower_tags finding_scope scoped
index_test candidate test index =
    if not (is_safe_integer test.id)
    then record index { malformed = index.malformed + 1 }
    else let tags = lower_tags test.tags in
      record index {
        test_tags = insert test.id tags index.test_tags;
        scan_scope =
            scoped (finding_scope tags candidate) tags (get_or_else test.scan_type "")
              index.scan_scope;
      }

unfoldable pub index_tests : ReleaseCandidate → List DojoTest → TestIndex → TestIndex
unfolding index_test
index_tests candidate [] index = index
index_tests candidate (test ∷ tests) index =
    index_tests candidate tests (index_test candidate test index)

-- `counts[severity]`
abbrev pub count_of : SeverityCounts → Severity → Number
count_of counts critical = counts.critical_count
count_of counts high = counts.high_count
count_of counts medium = counts.medium_count
count_of counts low = counts.low_count
count_of counts info = counts.info_count

severity_clean : ReleaseGatePolicy → SeverityCounts → Severity → Bool
unfolding is_safe_integer
severity_clean policy counts severity =
    let count = count_of counts severity in
    is_safe_integer count
    && not (is_negative count)
    && (not (includes policy.blocking_severities severity) || count == nat 0)

-- `clean`: a successful summary with no finding at a blocking severity.
summary_clean : ReleaseGatePolicy → CommitScanSummary → Bool
unfolding severity_clean
summary_clean policy summary = elim summary.severities [
  | none ↦ false
  | some counts ↦ summary.status == "success" && all (severity_clean policy counts) severities
]

clean_ref : ReleaseGatePolicy → Option CommitScanSummary → Option String
unfolding summary_clean
clean_ref policy none = none
clean_ref policy (some summary) = if summary_clean policy summary then some summary.ref else none

sast_proof :
    ReleaseGatePolicy → ReleaseCandidate → String → Option CommitScanEvidence → Option String
unfolding clean_ref
sast_proof policy candidate scan_type none = none
sast_proof policy candidate scan_type (some scan) =
    if not (scan.commit == candidate.commit)
    then none
    else if scan_type == "Semgrep JSON Report"
    then clean_ref policy scan.semgrep
    else if scan_type == "Trivy Scan"
    then clean_ref policy scan.trivy
    else none

only_critical : List Severity → Bool
only_critical (critical ∷ []) = true
only_critical _ = false

image_proof : ReleaseGatePolicy → String → Option ImageScanEvidence → Option String
unfolding only_critical
image_proof policy scan_type none = none
image_proof policy scan_type (some scan) =
    if scan_type == "Trivy Scan"
      && only_critical policy.blocking_severities
      && scan.status == "success"
      && scan.critical_findings == nat 0
    then some scan.ref
    else none

-- `commitScanProof`
pub commit_scan_proof : GateInput → Source → String → Option String
unfolding sast_proof image_proof
commit_scan_proof input sast scan_type =
    sast_proof input.policy input.candidate scan_type input.evidence.commit_scan
commit_scan_proof input image scan_type =
    image_proof input.policy scan_type input.evidence.image_scan
commit_scan_proof input _ scan_type = none

-- What the loop over `scanScope` pushes, and the sources that it has proven or not.
pub record ScopeReport : Type 0 where
  pub pushed : Pushed
  pub proven : List Source
  pub unproven : List Source

abbrev scope_missing : String → Source → Pushed
scope_missing message source = block (record {
  code = defectdojo_scope_missing;
  message = message;
  finding_id = none;
  severity = none;
  source = some source;
  ref = none;
})

unproven_scope : Source → Pushed
unproven_scope source =
    scope_missing
      ("a DefectDojo "
        +s (source_name source
            +s (" import was last reimported for another commit, "
                +s "and no clean scan summary of the candidate commit stands in for it")))
      source

-- `if (proof)`: an empty reference is no proof.
report_stale : Source → Option String → ScopeReport → ScopeReport
unfolding unproven_scope
report_stale source none report = record report {
  pushed = report.pushed ⊕ unproven_scope source;
  unproven = source ∷ report.unproven;
}
report_stale source (some proof) report =
    if proof == ""
    then record report {
      pushed = report.pushed ⊕ unproven_scope source;
      unproven = source ∷ report.unproven;
    }
    else record report {
      pushed = report.pushed ⊕ cite commit_scan proof "success";
      proven = source ∷ report.proven;
    }

-- No summary is needed: DAST, nothing stale, or a newer Test in scope.
is_settled : ScanScope → Bool
is_settled entry = entry.source == dast || entry.stale == 0 || ltb 0 entry.in_scope_count

report_entry : GateInput → ScanScope → ScopeReport → ScopeReport
unfolding report_stale commit_scan_proof
report_entry input entry report =
    if is_settled entry
    then report
    else report_stale entry.source (commit_scan_proof input entry.source entry.scan_type) report

pub report_scopes : GateInput → List ScanScope → ScopeReport → ScopeReport
unfolding report_entry is_settled
report_scopes input [] report = report
report_scopes input (entry ∷ entries) report =
    report_scopes input entries (report_entry input entry report)

abbrev no_scopes : ScopeReport
no_scopes = record { pushed = nothing; proven = []; unproven = [] }

-- The body of the loop over `["sast", "image"]`.
require_source : List ScanScope → ScopeReport → Source → Pushed
require_source entries report source =
    if not (any (λ entry. entry.source == source && ltb 0 entry.in_scope_count) entries)
      && not (includes report.proven source)
      && not (includes report.unproven source)
    then scope_missing
        ("DefectDojo has no " +s (source_name source +s " import scoped to the candidate")) source
    else nothing

unfoldable pub check_scopes : GateInput → List ScanScope → Pushed
unfolding report_scopes require_source
check_scopes input entries =
    let report = report_scopes input entries no_scopes in
    report.pushed ⊕ require_source entries report sast ⊕ require_source entries report image
