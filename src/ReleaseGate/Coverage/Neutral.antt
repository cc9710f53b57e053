-- ===== src/ReleaseGate/Coverage/Neutral.antt =====
-- `evaluateReleaseGate`, the checks of DefectDojo Tests: lemmas on what they count.
use guardianbot.Prelude.{
  refl, List, Option, ◌≡◌, String, arith, ◌∷◌, ◌∙◌, some, Bool-cases, ◌==◌, inl, inr, string_eq,
}
use guardianbot.ReleaseGate.Coverage.{
  report_stale, report_entry, report_scopes, require_source, check_scopes, unproven_scope,
  ScanScope, ScopeReport, commit_scan_proof, no_scopes,
}
use guardianbot.ReleaseGate.Types.{GateInput, Source, sast, ◌⊕◌, image, commit_scan}
use guardianbot.ReleaseGate.Pushes.{weight, weight-⊕_zero, weight-⊕, weight-nothing, weight-cite}
use mathlib.Core.List.{[]}
use mathlib.Core.Option.{none}

weight-unproven_scope : (source : Source) → weight (unproven_scope source) ≡ 0
unfolding unproven_scope weight
weight-unproven_scope source = refl

weight-report_stale :
    (source : Source) (o : Option String) (report : ScopeReport)
    → weight (report_stale source o report).pushed ≡ weight report.pushed
unfolding report_stale
weight-report_stale source none report = weight-⊕_zero _ _ (weight-unproven_scope source)
weight-report_stale source (some p) report = elim (Bool-cases (p == "")) [
  | inl empty ↦ rw empty (weight-⊕_zero _ _ (weight-unproven_scope source))
  | inr full ↦ rw full (weight-⊕_zero _ _ (weight-cite commit_scan p "success"))
]

weight-report_entry :
    (input : GateInput) (entry : ScanScope) (report : ScopeReport)
    → weight (report_entry input entry report).pushed ≡ weight report.pushed
unfolding report_entry
weight-report_entry input entry report = ground (
  arith,
  weight-report_stale entry.source (commit_scan_proof input entry.source entry.scan_type) report,
)

weight-report_scopes :
    (input : GateInput) (entries : List ScanScope) (report : ScopeReport)
    → weight (report_scopes input entries report).pushed ≡ weight report.pushed
unfolding report_scopes
weight-report_scopes input [] report = refl
weight-report_scopes input (entry ∷ entries) report =
    weight-report_scopes input entries (report_entry input entry report)
    ∙ weight-report_entry input entry report

weight-require_source :
    (entries : List ScanScope) (report : ScopeReport) (source : Source)
    → weight (require_source entries report source) ≡ 0
unfolding require_source weight
weight-require_source entries report source = ground arith

pub weight-check_scopes :
    (input : GateInput) (entries : List ScanScope) → weight (check_scopes input entries) ≡ 0
unfolding check_scopes
weight-check_scopes input entries =
    let report = report_scopes input entries no_scopes in
    omega (
      arith,
      weight-⊕ report.pushed
          (require_source entries report sast ⊕ require_source entries report image),
      weight-⊕ (require_source entries report sast) (require_source entries report image),
      weight-require_source entries report sast,
      weight-require_source entries report image,
      weight-report_scopes input entries no_scopes,
      weight-nothing,
    )
