-- ===== src/ReleaseGate/Evaluate/Conserved.antt =====
-- `evaluateReleaseGate`: lemmas on the account of findings.
use guardianbot.ReleaseGate.Pushes.{
  named, named-⊕, named_zero, blockers_on, exceptions_on, blockers_on-all, exceptions_on-all,
}
use guardianbot.ReleaseGate.Findings.Once.{needs_answer, named-judge_all}
use guardianbot.Prelude.Js.{Number}
use guardianbot.Prelude.Sorted.{length-filter-sort}
use guardianbot.ReleaseGate.Pushes.{weight, about_findings, weight-⊕, weight-cite}
use guardianbot.ReleaseGate.Types.{
  ReleaseCandidate, DojoProduct, GateInput, DojoFinding, available, DefectDojoState, ◌⊕◌, cite,
  defectdojo,
}
use guardianbot.ReleaseGate.Evaluate.{
  check_product, sorted_findings, evaluate_release_gate, no_findings, check_malformed, gate_pushes,
  GateDecision, check_defect_dojo, by_id,
}
use guardianbot.Prelude.Js.{Dates}
use guardianbot.ReleaseGate.Evidence.{
  check_signature, check_image_scan, check_sbom, check_freeze, check_deployed_rescan,
}
use guardianbot.Prelude.{
  List, ◌≡◌, arith, length, values, ◌+◌, ◌++◌, refl, ◌∙◌, ℕ, sort, ◌+s◌, length-sort, Bool, String,
  true, filter, ◌&&◌, not, ◌∷◌,
}
use guardianbot.ReleaseGate.Findings.{index_findings, judge_all}
use guardianbot.ReleaseGate.Coverage.{index_tests, no_tests, check_scopes}
use guardianbot.Prelude.Text.{decimal}
use guardianbot.ReleaseGate.Coverage.Neutral.{weight-check_scopes}
use guardianbot.ReleaseGate.Findings.Once.{weight-judge_all}
use mathlib.Core.List.{[]}

weight-check_signature : (input : GateInput) → weight (check_signature input) ≡ 0
unfolding weight check_signature
weight-check_signature input = ground arith

weight-check_image_scan : (input : GateInput) → weight (check_image_scan input) ≡ 0
unfolding weight check_image_scan
weight-check_image_scan input = ground arith

weight-check_sbom : (input : GateInput) → weight (check_sbom input) ≡ 0
unfolding weight check_sbom
weight-check_sbom input = ground arith

weight-check_freeze : (input : GateInput) → weight (check_freeze input) ≡ 0
unfolding weight check_freeze
weight-check_freeze input = ground arith

weight-check_deployed_rescan :
    (dates : Dates) (input : GateInput) → weight (check_deployed_rescan dates input) ≡ 0
unfolding weight check_deployed_rescan
weight-check_deployed_rescan dates input = ground arith

weight-check_malformed : (n : ℕ) → weight (check_malformed n) ≡ 0
unfolding weight check_malformed
weight-check_malformed n = ground arith

abbrev pub kept_findings : ReleaseCandidate → DojoProduct → List DojoFinding
kept_findings candidate dojo =
    values
      (index_findings (dojo.findings ++ dojo.accepted_findings)
        (no_findings (index_tests candidate dojo.tests no_tests).malformed)).findings

weight-check_product :
    (dates : Dates) (input : GateInput) (dojo : DojoProduct)
    → weight (check_product dates input dojo) ≡ length (kept_findings input.candidate dojo)
unfolding check_product sorted_findings
weight-check_product dates input dojo =
    let tests = index_tests input.candidate dojo.tests no_tests in
    let index =
      index_findings (dojo.findings ++ dojo.accepted_findings) (no_findings tests.malformed) in
    let scopes = check_scopes input (values tests.scan_scope) in
    let sorted = sort by_id (values index.findings) in
    let judged = judge_all dates input tests.test_tags sorted in
    let last = check_malformed index.malformed in
    let cited = cite defectdojo ("defectdojo://products/" +s decimal dojo.product_id) "success" in
    omega (
      arith,
      weight-⊕ cited (scopes ⊕ judged ⊕ last),
      weight-cite defectdojo ("defectdojo://products/" +s decimal dojo.product_id) "success",
      weight-⊕ scopes (judged ⊕ last),
      weight-check_scopes input (values tests.scan_scope),
      weight-⊕ judged last,
      weight-judge_all dates input tests.test_tags sorted,
      weight-check_malformed index.malformed,
      length-sort by_id (values index.findings),
    )

weight-gate :
    (dates : Dates) (input : GateInput)
    → weight (gate_pushes dates input) ≡ weight (check_defect_dojo dates input input.defect_dojo)
unfolding gate_pushes
weight-gate dates input =
    let last = check_defect_dojo dates input input.defect_dojo in
    let four = check_deployed_rescan dates input ⊕ last in
    let three = check_freeze input ⊕ four in
    let two = check_sbom input ⊕ three in
    omega (
      arith,
      weight-⊕ (check_signature input) (check_image_scan input ⊕ two),
      weight-⊕ (check_image_scan input) two,
      weight-⊕ (check_sbom input) three,
      weight-⊕ (check_freeze input) four,
      weight-⊕ (check_deployed_rescan dates input) last,
      weight-check_signature input,
      weight-check_image_scan input,
      weight-check_sbom input,
      weight-check_freeze input,
      weight-check_deployed_rescan dates input,
    )

-- The findings that a decision ignores, excepts or blocks on.
abbrev pub accounted : GateDecision → ℕ
accounted d =
    d.ignored_findings.out_of_scope
    + d.ignored_findings.below_threshold
    + d.ignored_findings.not_open
    + length d.exceptions
    + about_findings d.blockers

-- The findings that a decision ignores, and the blockers and exceptions that name a finding with an id that passes
-- a test.
abbrev pub ignored_by : GateDecision → ℕ
ignored_by d =
    d.ignored_findings.out_of_scope + d.ignored_findings.below_threshold
    + d.ignored_findings.not_open

abbrev pub named_by : GateDecision → (Number → Bool) → ℕ
named_by d test = blockers_on test d.blockers + exceptions_on test d.exceptions

-- The tags of each Test.
abbrev pub tags_of_tests : ReleaseCandidate → DojoProduct → List (Number × List String)
tags_of_tests candidate dojo = (index_tests candidate dojo.tests no_tests).test_tags

weight_evaluated :
    (dates : Dates) (input : GateInput)
    → accounted (evaluate_release_gate dates input) ≡ weight (gate_pushes dates input)
unfolding evaluate_release_gate weight
weight_evaluated dates input = refl

weight-available :
    (dates : Dates) (input : GateInput) (state : DefectDojoState) (dojo : DojoProduct)
    → state ≡ available dojo
    → weight (check_defect_dojo dates input state) ≡ length (kept_findings input.candidate dojo)
weight-available dates input state dojo reached =
    rw reached (unfold check_defect_dojo in weight-check_product dates input dojo)

module _ (dates : Dates) (input : GateInput) (test : Number → Bool) where
  named-check_product :
      (dojo : DojoProduct)
      → named test (check_product dates input dojo)
        ≡ length (
            filter
              (λ f. test f.id && needs_answer input (tags_of_tests input.candidate dojo) f)
              (kept_findings input.candidate dojo))
  unfolding check_product sorted_findings
  named-check_product dojo =
      let tests = index_tests input.candidate dojo.tests no_tests in
      let index =
        index_findings (dojo.findings ++ dojo.accepted_findings) (no_findings tests.malformed) in
      let scopes = check_scopes input (values tests.scan_scope) in
      let sorted = sort by_id (values index.findings) in
      let judged = judge_all dates input tests.test_tags sorted in
      let last = check_malformed index.malformed in
      let ref = "defectdojo://products/" +s decimal dojo.product_id in
      let cited = cite defectdojo ref "success" in
      omega (
        arith,
        named-⊕ test cited (scopes ⊕ judged ⊕ last),
        named_zero test cited (weight-cite defectdojo ref "success"),
        named-⊕ test scopes (judged ⊕ last),
        named_zero test scopes (weight-check_scopes input (values tests.scan_scope)),
        named-⊕ test judged last,
        named-judge_all dates input tests.test_tags test sorted,
        named_zero test last (weight-check_malformed index.malformed),
        length-filter-sort by_id (λ f. test f.id && needs_answer input tests.test_tags f)
            (values index.findings),
      )

  named-gate :
      named test (gate_pushes dates input)
      ≡ named test (check_defect_dojo dates input input.defect_dojo)
  unfolding gate_pushes
  named-gate =
      let last = check_defect_dojo dates input input.defect_dojo in
      let four = check_deployed_rescan dates input ⊕ last in
      let three = check_freeze input ⊕ four in
      let two = check_sbom input ⊕ three in
      omega (
        arith,
        named-⊕ test (check_signature input) (check_image_scan input ⊕ two),
        named-⊕ test (check_image_scan input) two,
        named-⊕ test (check_sbom input) three,
        named-⊕ test (check_freeze input) four,
        named-⊕ test (check_deployed_rescan dates input) last,
        named_zero test (check_signature input) (weight-check_signature input),
        named_zero test (check_image_scan input) (weight-check_image_scan input),
        named_zero test (check_sbom input) (weight-check_sbom input),
        named_zero test (check_freeze input) (weight-check_freeze input),
        named_zero test (check_deployed_rescan dates input)
            (weight-check_deployed_rescan dates input),
      )

  named_evaluated :
      named_by (evaluate_release_gate dates input) test ≡ named test (gate_pushes dates input)
  unfolding evaluate_release_gate named
  named_evaluated = refl

  named-available :
      (state : DefectDojoState) (dojo : DojoProduct)
      → state ≡ available dojo
      → named test (check_defect_dojo dates input state)
        ≡ length (
            filter
              (λ f. test f.id && needs_answer input (tags_of_tests input.candidate dojo) f)
              (kept_findings input.candidate dojo))
  named-available state dojo reached =
      rw reached (unfold check_defect_dojo in named-check_product dojo)

length-filter-parts :
    {A : Type 0} (p : A → Bool) (xs : List A)
    → length xs ≡ length (filter p xs) + length (filter (λ x. not (p x)) xs)
length-filter-parts p [] = refl
length-filter-parts p (x ∷ xs) = ground (arith, length-filter-parts p xs)

accounted-parts : (d : GateDecision) → accounted d ≡ ignored_by d + named_by d (λ id. true)
accounted-parts d = omega (arith, blockers_on-all d.blockers, exceptions_on-all d.exceptions)

-- The account of the kept findings in a decision, whatever the ids asked for.
pub record FindingsAccounted (input : GateInput) (dojo : DojoProduct) (d : GateDecision)
    : Type 0 where
  pub answered :
      (test : Number → Bool)
      → named_by d test
        ≡ length (
            filter
              (λ f. test f.id && needs_answer input (tags_of_tests input.candidate dojo) f)
              (kept_findings input.candidate dojo))
  pub ignored :
      ignored_by d
      ≡ length (
          filter
            (λ f. not (needs_answer input (tags_of_tests input.candidate dojo) f))
            (kept_findings input.candidate dojo))
  pub all_counted : accounted d ≡ length (kept_findings input.candidate dojo)

-- Where DefectDojo is available, the blockers and exceptions of a decision name, by id and once for each, exactly the
-- kept findings that need an answer: those in scope, not closed, active or claimed to be accepted, and of a
-- severity that blocks or is unknown. The others are the findings that it counts as ignored.
pub findings_accounted :
    (dates : Dates) (input : GateInput) (dojo : DojoProduct)
    → input.defect_dojo ≡ available dojo
    → FindingsAccounted input dojo (evaluate_release_gate dates input)
findings_accounted dates input dojo reached =
    let answered = λ (test : Number → Bool).
      named_evaluated dates input test
      ∙ named-gate dates input test
      ∙ named-available dates input test input.defect_dojo dojo reached in
    let total =
      weight_evaluated dates input
      ∙ weight-gate dates input
      ∙ weight-available dates input input.defect_dojo dojo reached in
    record {
      answered = answered;
      all_counted = total;
      ignored = omega (
        arith,
        total,
        accounted-parts (evaluate_release_gate dates input),
        answered (λ id. true),
        length-filter-parts (needs_answer input (tags_of_tests input.candidate dojo))
            (kept_findings input.candidate dojo),
      );
    }
