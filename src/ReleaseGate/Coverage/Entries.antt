-- ===== src/ReleaseGate/Coverage/Entries.antt =====
-- `evaluateReleaseGate`, the coverage of commit-scoped imports: lemmas on the entries.
use guardianbot.Prelude.{
  refl, String, ◌≢◌, Option, ◌≡◌, some, ◌↔◌, append-eq-nil_iff, Bool-cases, ◌==◌, inl, inr,
  string_eq, arith, eq_iff, true, false, List, All, [], ◌∷◌, includes, ◌∙◌, ◌<◌, any, ◌⊎◌, ◌&&◌,
  ltb, any_witness,
}
use guardianbot.ReleaseGate.Types.{
  GateInput, Source, dast, source_beq_iff, source_eq, sast, image, ◌⊕◌,
}
use guardianbot.ReleaseGate.Coverage.{
  report_stale, ScanScope, unproven_scope, commit_scan_proof, ScopeReport, report_entry, is_settled,
  report_scopes, require_source, check_scopes, no_scopes,
}
use guardianbot.ReleaseGate.Pushes.{IsClear, IsClear-⊕}
use mathlib.Core.Option.{none}
use mathlib.Core.List.{Memᴰ}

-- The stale entry's findings are known to be clean from the candidate commit's own scan summary.
abbrev pub IsProven : GateInput → ScanScope → Type 0
IsProven input entry =
    (p : String) × (commit_scan_proof input entry.source entry.scan_type ≡ some p) × (p ≢ "")

-- An import that names only other commits is proven clean for the candidate, or it is DAST.
abbrev pub IsCurrent : GateInput → ScanScope → Type 0
IsCurrent input entry =
    entry.source ≢ dast → entry.stale ≢ 0 → entry.in_scope_count ≡ 0 → IsProven input entry

report_stale-IsClear :
    (source : Source) (o : Option String) (report : ScopeReport)
    → IsClear (report_stale source o report).pushed
      ↔ (IsClear report.pushed × ((p : String) × (o ≡ some p) × (p ≢ "")))
unfolding report_stale unproven_scope
report_stale-IsClear source none report =
    ((λ h. cc ((append-eq-nil_iff report.pushed.blockers _).0 h).1), (λ h. cc (h.1.1)))
report_stale-IsClear source (some p) report = elim (Bool-cases (p == "")) [
  | inl empty ↦ (
    (λ h. cc ((append-eq-nil_iff report.pushed.blockers _).0 (rw empty at h)).1),
    (λ h. absurd (ground (arith, h.1.1, h.1.2, eq_iff p "", empty))),
  )
  | inr full ↦ (
    (λ h. (
      ((append-eq-nil_iff report.pushed.blockers _).0 (rw full at h)).0,
      (p, refl, ground (arith, eq_iff p "", full)),
    )),
    (λ h. rw full ((append-eq-nil_iff report.pushed.blockers _).1 (h.0, refl))),
  )
]

is_settled-IsCurrent :
    (input : GateInput) (entry : ScanScope) → is_settled entry ≡ true → IsCurrent input entry
unfolding is_settled
is_settled-IsCurrent input entry settled a b c =
    absurd (ground (arith, settled, a, b, c, source_beq_iff entry.source dast))

unsettled :
    (entry : ScanScope)
    → is_settled entry ≡ false
    → (entry.source ≢ dast) × (entry.stale ≢ 0) × (entry.in_scope_count ≡ 0)
unfolding is_settled
unsettled entry h = (ground (arith, source_beq_iff entry.source dast), ground arith, ground arith)

report_entry-IsClear :
    (input : GateInput) (entry : ScanScope) (report : ScopeReport)
    → IsClear (report_entry input entry report).pushed
      ↔ (IsClear report.pushed × IsCurrent input entry)
unfolding report_entry
report_entry-IsClear input entry report =
    let stale =
      report_stale-IsClear entry.source (commit_scan_proof input entry.source entry.scan_type)
        report in
    elim (Bool-cases (is_settled entry)) [
      | inl settled ↦ (
        (λ h. (rw (settled, report_entry) at h, is_settled-IsCurrent input entry settled)),
        (λ h. rw settled h.0),
      )
      | inr open_yet ↦ (
        (λ h. let (clear, proven) = stale.0 (rw open_yet at h) in (clear, λ _ _ _. proven)),
        (λ (clear, current).
            let (a, b, c) = unsettled entry open_yet in
            rw open_yet (stale.1 (clear, current a b c))),
      )
    ]

-- The loop pushes no blocker exactly when each entry is current.
report_scopes-IsClear :
    (input : GateInput) (entries : List ScanScope) (report : ScopeReport)
    → IsClear (report_scopes input entries report).pushed
      ↔ (IsClear report.pushed × All (IsCurrent input) entries)
unfolding report_scopes
report_scopes-IsClear input [] report = ((λ h. (h, tt)), (λ h. h.0))
report_scopes-IsClear input (entry ∷ entries) report =
    let here = report_entry-IsClear input entry report in
    let rest = report_scopes-IsClear input entries (report_entry input entry report) in
    (
      (λ h. let (a, b) = rest.0 h in let (c, d) = here.0 a in (c, (d, b))),
      (λ (c, (d, b)). rest.1 (here.1 (c, d), b)),
    )

-- The sources collected by the loop: those proven, with the entry that proves them.
abbrev ProvenBy : GateInput → List ScanScope → Source → Type 0
ProvenBy input entries source =
    (e : ScanScope) × Memᴰ e entries × (e.source ≡ source) × IsProven input e

-- The loop's state after a loop that pushed no blocker.
abbrev IsSound : GateInput → List ScanScope → ScopeReport → Type 0
IsSound input entries report =
    (report.unproven ≡ [])
    × ((s : Source) → includes report.proven s ≡ true → ProvenBy input entries s)

report_stale-IsSound :
    (input : GateInput) (all_entries : List ScanScope) (entry : ScanScope) (report : ScopeReport)
    (o : Option String)
    → Memᴰ entry all_entries
    → commit_scan_proof input entry.source entry.scan_type ≡ o
    → IsClear (report_stale entry.source o report).pushed
    → IsSound input all_entries report
    → IsSound input all_entries (report_stale entry.source o report)
unfolding report_stale
report_stale-IsSound input all_entries entry report none member e clear sound =
    cc (((report_stale-IsClear entry.source none report).0 clear).1.1)
report_stale-IsSound input all_entries entry report (some p) member e clear sound =
    let (_, (q, same, full)) = (report_stale-IsClear entry.source (some p) report).0 clear in
    let kept : (p == "") ≡ false = ground (arith, eq_iff p "", same, full) in
    rw kept (
      sound.0,
      λ s listed. elim (Bool-cases (entry.source == s)) [
        | inl this ↦ (entry, member, (source_beq_iff entry.source s).0 this, (q, e ∙ same, full))
        | inr other ↦ sound.1 s (rw other at listed)
      ],
    )

report_entry-IsSound :
    (input : GateInput) (all_entries : List ScanScope) (entry : ScanScope) (report : ScopeReport)
    → Memᴰ entry all_entries
    → IsClear (report_entry input entry report).pushed
    → IsSound input all_entries report
    → IsSound input all_entries (report_entry input entry report)
report_entry-IsSound input all_entries entry report member clear sound =
    elim (Bool-cases (is_settled entry)) [
      | inl settled ↦ unfold report_entry in rw settled sound
      | inr open_yet ↦
          unfold report_entry in
          rw open_yet (
            report_stale-IsSound input all_entries entry report _ member refl (rw open_yet at clear)
              sound)
    ]

report_scopes-IsSound :
    (input : GateInput) (all_entries entries : List ScanScope) (report : ScopeReport)
    → ((e : ScanScope) → Memᴰ e entries → Memᴰ e all_entries)
    → IsClear (report_scopes input entries report).pushed
    → IsSound input all_entries report
    → IsSound input all_entries (report_scopes input entries report)
unfolding report_scopes
report_scopes-IsSound input all_entries [] report inside clear sound = sound
report_scopes-IsSound input all_entries (entry ∷ entries) report inside clear sound =
    let (here, _) =
      (report_scopes-IsClear input entries (report_entry input entry report)).0 clear in
    report_scopes-IsSound input all_entries entries (report_entry input entry report)
      (λ e m. inside e (Memᴰ.tail m)) clear
      (report_entry-IsSound input all_entries entry report (inside entry (Memᴰ.head refl)) here
        sound)

-- The source has an import scoped to the candidate, or a stale one that is proven clean.
abbrev pub IsCovered : GateInput → List ScanScope → Source → Type 0
IsCovered input entries source =
    (e : ScanScope) × Memᴰ e entries
    × (e.source ≡ source)
    × ((0 < e.in_scope_count) ⊎ IsProven input e)

require_source_covers :
    (input : GateInput) (entries : List ScanScope) (report : ScopeReport) (source : Source)
    → IsSound input entries report
    → IsClear (require_source entries report source)
    → IsCovered input entries source
unfolding require_source
require_source_covers input entries report source (nothing_unproven, proven) clear =
    elim (Bool-cases
      (any (λ entry. entry.source == source && ltb 0 entry.in_scope_count) entries)) [
        | inl seen ↦
            let (e, m, holds) = any_witness _ entries seen in
            (
              e,
              m,
              ground (arith, holds, source_beq_iff e.source source),
              inl (ground (arith, holds)),
            )
        | inr unseen ↦ elim (Bool-cases (includes report.proven source)) [
          | inl listed ↦ let (e, m, same, p) = proven source listed in (e, m, same, inr p)
          | inr unlisted ↦ absurd (ground (arith, clear, nothing_unproven, unseen, unlisted))
        ]
      ]

-- Without a blocker from the Tests, every import is current, and SAST and image are covered.
pub check_scopes_clear :
    (input : GateInput) (entries : List ScanScope)
    → IsClear (check_scopes input entries)
    → All (IsCurrent input) entries × IsCovered input entries sast × IsCovered input entries image
unfolding check_scopes
check_scopes_clear input entries h =
    let report = report_scopes input entries no_scopes in
    let (loop, after) =
      (IsClear-⊕ report.pushed
          (require_source entries report sast ⊕ require_source entries report image)).0
        h in
    let (first, second) =
      (IsClear-⊕ (require_source entries report sast) (require_source entries report image)).0
        after in
    let sound =
      report_scopes-IsSound input entries entries no_scopes (λ e m. m) loop (refl, λ s n. cc n) in
    (
      ((report_scopes-IsClear input entries no_scopes).0 loop).1,
      require_source_covers input entries report sast sound first,
      require_source_covers input entries report image sound second,
    )
