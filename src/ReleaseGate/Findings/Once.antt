-- ===== src/ReleaseGate/Findings/Once.antt =====
-- `evaluateReleaseGate`, the judgement of findings: lemmas on what a judgement counts.
use guardianbot.Prelude.{
  subst, none, some, includes, is_false, List, String, ◌≡◌, arith, length, ◌∷◌, get_or_else, lookup,
  refl, Bool, filter, if◌then◌else◌, true, Bool-cases, not, ◌&&◌, false, is_true, inl, inr, ◌||◌,
  ◌∙◌,
}
use guardianbot.ReleaseGate.Pushes.{named, named-⊕, weight, weight-⊕, weight-nothing}
use guardianbot.ReleaseGate.Scope.{FindingScope, in_scope, finding_scope}
use guardianbot.ReleaseGate.Findings.{
  accepted_verdict, is_closed, is_inactive, below_threshold, severity_text, severity_of, label_of,
  judge, open_verdict, claimed_verdict, judge_all,
}
use guardianbot.Prelude.Js.{Dates, Number, number_eq}
use guardianbot.ReleaseGate.Types.{GateInput, DojoFinding, Source, severity_eq}
use guardianbot.ReleaseGate.Scope.{finding_source}
use mathlib.Core.List.{[]}

weight-open_verdict :
    (dates : Dates) (input : GateInput) (f : DojoFinding) (source : Source)
    → weight (open_verdict dates input f source) ≡ 1
unfolding weight open_verdict claimed_verdict
weight-open_verdict dates input f source = ground arith

weight-judge :
    (dates : Dates) (input : GateInput) (test_tags : List (Number × List String)) (f : DojoFinding)
    → weight (judge dates input test_tags f) ≡ 1
unfolding judge weight
weight-judge dates input test_tags f = ground (
  arith,
  weight-open_verdict dates input f (finding_source (get_or_else (lookup f.test test_tags) [])),
)

pub weight-judge_all :
    (dates : Dates) (input : GateInput) (test_tags : List (Number × List String))
    (fs : List DojoFinding)
    → weight (judge_all dates input test_tags fs) ≡ length fs
unfolding judge_all
weight-judge_all dates input test_tags [] = weight-nothing
weight-judge_all dates input test_tags (f ∷ fs) = omega (
  arith,
  weight-⊕ (judge dates input test_tags f) (judge_all dates input test_tags fs),
  weight-judge dates input test_tags f,
  weight-judge_all dates input test_tags fs,
)

is_in_scope : FindingScope → Bool
is_in_scope in_scope = true
is_in_scope _ = false

-- A finding needs an answer, a blocker or an exception: it is in scope, DefectDojo has not closed it, it is active
-- (and verified, where the policy asks for that) or claimed to be risk-accepted, and its severity is one that
-- blocks or no known one.
unfoldable pub needs_answer : GateInput → List (Number × List String) → DojoFinding → Bool
unfolding is_in_scope
needs_answer input test_tags f =
    is_in_scope (finding_scope (get_or_else (lookup f.test test_tags) []) input.candidate)
    && not (
        is_true f.false_p
        || is_true f.duplicate
        || is_true f.out_of_scope
        || is_true f.is_mitigated)
    && (is_true f.risk_accepted
        || not (is_false f.active || input.policy.verified_only && is_false f.verified))
    && not (elim (severity_of (severity_text f)) [
      | none ↦ false
      | some severity ↦ not (includes input.policy.blocking_severities severity)
    ])

module _ (dates : Dates) (input : GateInput) (test_tags : List (Number × List String)) where
  named-claimed_verdict :
      (test : Number → Bool) (f : DojoFinding) (label : String) (source : Source)
      → named test (claimed_verdict dates f input.now label source) ≡ (if test f.id then 1 else 0)
  unfolding named claimed_verdict accepted_verdict
  named-claimed_verdict test f label source = ground arith

  named-open_verdict :
      (test : Number → Bool) (f : DojoFinding) (source : Source)
      → named test (open_verdict dates input f source)
        ≡ (if test f.id && not (below_threshold input.policy (severity_text f)) then 1 else 0)
  unfolding named open_verdict
  named-open_verdict test f source =
      elim (Bool-cases (below_threshold input.policy (severity_text f))) [
        | inl below ↦ rw below (ground arith)
        | inr above ↦
            rw above
              (named-claimed_verdict test f (label_of (severity_text f)) source ∙ ground arith)
      ]

  -- The same in the words of the code.
  is_judged : DojoFinding → Bool
  unfolding is_in_scope
  is_judged f =
      is_in_scope (finding_scope (get_or_else (lookup f.test test_tags) []) input.candidate)
      && not (is_closed f)
      && (is_true f.risk_accepted || not (is_inactive input.policy f))
      && not (below_threshold input.policy (severity_text f))

  is_judged_lem : (f : DojoFinding) → is_judged f ≡ needs_answer input test_tags f
  unfolding is_judged needs_answer
  is_judged_lem f = refl

  judged-named :
      (test : Number → Bool) (f : DojoFinding)
      → named test (judge dates input test_tags f) ≡ (if test f.id && is_judged f then 1 else 0)
  unfolding judge named is_judged
  judged-named test f =
      ground (
        arith,
        named-open_verdict test f (finding_source (get_or_else (lookup f.test test_tags) [])),
      )

  named-judge :
      (test : Number → Bool) (f : DojoFinding)
      → named test (judge dates input test_tags f)
        ≡ (if test f.id && needs_answer input test_tags f then 1 else 0)
  named-judge test f =
      subst (λ b. named test (judge dates input test_tags f) ≡ (if test f.id && b then 1 else 0))
        (is_judged_lem f) (judged-named test f)

  pub named-judge_all :
      (test : Number → Bool) (fs : List DojoFinding)
      → named test (judge_all dates input test_tags fs)
        ≡ length (filter (λ f. test f.id && needs_answer input test_tags f) fs)
  unfolding judge_all
  named-judge_all test [] = unfold named in refl
  named-judge_all test (f ∷ fs) = ground (
    arith,
    named-⊕ test (judge dates input test_tags f) (judge_all dates input test_tags fs),
    named-judge test f,
    named-judge_all test fs,
  )
