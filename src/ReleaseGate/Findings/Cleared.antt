-- ===== src/ReleaseGate/Findings/Cleared.antt =====
-- `evaluateReleaseGate`, the judgement of findings: lemmas on findings that push no blocker.
use guardianbot.Prelude.{
  refl, List, String, ◌≡◌, Option, some, false, get_or_else, ◌↔◌, includes, is_true, lookup,
  Option-cases, ◌≢◌, true, [], none, Bool-cases, inl, ◌⊎◌, inr, arith, ℕ, not, ◌&&◌, All, ◌∷◌,
}
use guardianbot.ReleaseGate.Types.{
  GateInput, DojoFinding, Severity, Source, severity_of, severity_eq,
}
use guardianbot.Prelude.Js.{Dates, Number, number_eq}
use guardianbot.ReleaseGate.Findings.{
  accepted_verdict, open_verdict, is_closed, severity_text, Acceptance, is_inactive,
  below_threshold, claimed_verdict, label_of, valid_risk_acceptance, judge, judge_all,
}
use guardianbot.ReleaseGate.Scope.{
  finding_scope, in_scope, finding_source, FindingScope, other_repository, other_environment,
  other_digest, other_commit,
}
use guardianbot.ReleaseGate.Pushes.{IsClear, IsClear-⊕}
use guardianbot.ReleaseGate.Findings.Accepted.{HasAcceptance, valid_risk_acceptance_iff}

-- A severity that the policy blocks, or one that is no known severity.
abbrev pub IsBlockingSeverity : GateInput → DojoFinding → Type 0
IsBlockingSeverity input finding =
    (s : Severity)
    → severity_of (severity_text finding) ≡ some s
    → includes input.policy.blocking_severities s ≡ true

-- DefectDojo has not closed the finding, and it is active (and verified, where the policy asks for
-- that) or claimed to be risk-accepted.
abbrev pub IsOpen : GateInput → DojoFinding → Type 0
IsOpen input finding =
    (is_closed finding ≡ false)
    × ((is_true finding.risk_accepted ≡ true) ⊎ (is_inactive input.policy finding ≡ false))

scope_cases : (s : FindingScope) → (s ≡ in_scope) ⊎ (s ≢ in_scope)
scope_cases in_scope = inl refl
scope_cases other_repository = inr (λ h. cc)
scope_cases other_environment = inr (λ h. cc)
scope_cases other_digest = inr (λ h. cc)
scope_cases other_commit = inr (λ h. cc)

module _ (dates : Dates) where
  -- In scope, open and at a blocking severity only with a valid acceptance.
  abbrev pub IsCleared : GateInput → List (Number × List String) → DojoFinding → Type 0
  IsCleared input test_tags finding =
      finding_scope (get_or_else (lookup finding.test test_tags) []) input.candidate ≡ in_scope
      → IsOpen input finding
      → IsBlockingSeverity input finding
      → HasAcceptance dates finding input.now

  below_threshold_iff :
      (input : GateInput) (finding : DojoFinding)
      → (below_threshold input.policy (severity_text finding) ≡ false)
        ↔ IsBlockingSeverity input finding
  below_threshold_iff input finding = elim (Option-cases (severity_of (severity_text finding))) [
    | inl e ↦ ((λ h s known. cc (e, known)), (λ h. rw (e, below_threshold)))
    | inr (s, e) ↦ (
      (λ h t known. let same : s ≡ t = cc (e, known) in rw (← same) (ground (arith, e))),
      (λ h. ground (arith, e, h s e)),
    )
  ]

  accepted_verdict-IsClear :
      (finding : DojoFinding) (label : String) (source : Source) (o : Option Acceptance)
      → IsClear (accepted_verdict dates finding label source o) ↔ (o ≢ none)
  unfolding accepted_verdict
  accepted_verdict-IsClear finding label source none = ((λ h. cc), (λ h. absurd (h refl)))
  accepted_verdict-IsClear finding label source (some a) = ((λ h n. cc n), (λ h. refl))

  claimed_verdict-IsClear :
      (finding : DojoFinding) (now : ℕ) (label : String) (source : Source)
      → IsClear (claimed_verdict dates finding now label source) ↔ HasAcceptance dates finding now
  unfolding claimed_verdict
  claimed_verdict-IsClear finding now label source =
      elim (Bool-cases (is_true finding.risk_accepted)) [
        | inl e ↦
            let verdict =
              accepted_verdict-IsClear finding label source
                (valid_risk_acceptance dates finding now) in
            let valid = valid_risk_acceptance_iff dates finding now in
            (
              (λ h. valid.0 (verdict.0 (rw (e, claimed_verdict) at h))),
              (λ h. rw (e, claimed_verdict) (verdict.1 (valid.1 h))),
            )
        | inr e ↦ ((λ h. cc (rw (e, claimed_verdict) at h)), (λ h. cc (e, h.0)))
      ]

  open_verdict-IsClear :
      (input : GateInput) (finding : DojoFinding) (source : Source)
      → IsClear (open_verdict dates input finding source)
        ↔ (IsBlockingSeverity input finding → HasAcceptance dates finding input.now)
  unfolding open_verdict
  open_verdict-IsClear input finding source =
      let threshold = below_threshold_iff input finding in
      let claimed =
        claimed_verdict-IsClear finding input.now (label_of (severity_text finding)) source in
      elim (Bool-cases (below_threshold input.policy (severity_text finding))) [
        | inl low ↦ ((λ h blocking. cc (low, threshold.1 blocking)), (λ h. rw (low, open_verdict)))
        | inr high ↦ (
          (λ h blocking. claimed.0 (rw (high, open_verdict) at h)),
          (λ h. rw (high, open_verdict) (claimed.1 (h (threshold.0 high)))),
        )
      ]

  judge_scoped :
      (input : GateInput) (test_tags : List (Number × List String)) (finding : DojoFinding)
      → finding_scope (get_or_else (lookup finding.test test_tags) []) input.candidate ≡ in_scope
      → IsClear (judge dates input test_tags finding) ↔ (
          IsOpen input finding
          → IsBlockingSeverity input finding
          → HasAcceptance dates finding input.now)
  unfolding judge
  judge_scoped input test_tags finding scope =
      let tags = get_or_else (lookup finding.test test_tags) [] in
      let verdict = open_verdict-IsClear input finding (finding_source tags) in
      let inactive = not (is_true finding.risk_accepted) && is_inactive input.policy finding in
      elim (Bool-cases (is_closed finding)) [
        | inl closed ↦ ((λ h o. cc (closed, o.0)), (λ h. rw (scope, judge) (rw closed)))
        | inr listed ↦ elim (Bool-cases inactive) [
          | inl off ↦ (
            (λ h o. absurd (ground (arith, off, o.1))),
            (λ h. rw (scope, judge) (rw (listed, off))),
          )
          | inr on ↦ (
            (λ h o. verdict.0 (rw (listed, on) at (rw (scope, judge) at h))),
            (λ h. rw (scope, judge) (rw (listed, on) (verdict.1 (h (listed, ground (arith, on)))))),
          )
        ]
      ]

  judge_elsewhere :
      (input : GateInput) (test_tags : List (Number × List String)) (finding : DojoFinding)
      → finding_scope (get_or_else (lookup finding.test test_tags) []) input.candidate ≢ in_scope
      → IsClear (judge dates input test_tags finding)
  unfolding judge
  judge_elsewhere input test_tags finding h = ground arith

  -- A finding blocks exactly when it is not cleared.
  judge-IsClear :
      (input : GateInput) (test_tags : List (Number × List String)) (finding : DojoFinding)
      → IsClear (judge dates input test_tags finding) ↔ IsCleared input test_tags finding
  judge-IsClear input test_tags finding =
      elim (scope_cases
        (finding_scope (get_or_else (lookup finding.test test_tags) []) input.candidate)) [
          | inl here ↦
              let scoped = judge_scoped input test_tags finding here in
              ((λ h _. scoped.0 h), (λ h. scoped.1 (h here)))
          | inr there ↦ (
            (λ h here. absurd (there here)),
            (λ h. judge_elsewhere input test_tags finding there),
          )
        ]

  pub judge_all-IsClear :
      (input : GateInput) (test_tags : List (Number × List String)) (findings : List DojoFinding)
      → IsClear (judge_all dates input test_tags findings)
        ↔ All (IsCleared input test_tags) findings
  unfolding judge_all
  judge_all-IsClear input test_tags [] = ((λ h. tt), (λ h. refl))
  judge_all-IsClear input test_tags (finding ∷ findings) =
      let both =
        IsClear-⊕ (judge dates input test_tags finding)
          (judge_all dates input test_tags findings) in
      let this = judge-IsClear input test_tags finding in
      let rest = judge_all-IsClear input test_tags findings in
      ((λ h. let (a, b) = both.0 h in (this.0 a, rest.0 b)), (λ h. both.1 (this.1 h.0, rest.1 h.1)))
