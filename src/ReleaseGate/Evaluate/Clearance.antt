-- ===== src/ReleaseGate/Evaluate/Clearance.antt =====
-- `evaluateReleaseGate`: lemmas on decisions that pass.
use guardianbot.Prelude.{
  refl, List, ◌≡◌, ◌↔◌, ◌++◌, append_assoc, [], append-eq-nil_iff, ◌∷◌, sym, ◌∙◌, ap, ℕ, All, arith,
  ◌⊎◌, values, String, ◌≤◌, true, inl, subst, some, All-mem, ◌≢◌, mem_of_lookup, All-members,
  All-sort, inr,
}
use guardianbot.Prelude.Js.{Dates, is_safe_integer, number_eq}
use guardianbot.ReleaseGate.Types.{
  GateInput, Pushed, GateBlocker, ◌⊕◌, DojoProduct, DefectDojoState, Source, DojoFinding, available,
  unavailable, sast, image,
}
use guardianbot.ReleaseGate.Evaluate.{
  gate_pushes, evaluate_release_gate, decision_of, pass, check_defect_dojo, check_malformed,
  check_product, sorted_findings, no_findings, by_id,
}
use guardianbot.ReleaseGate.Evidence.Clear.{
  IsSigned, IsImageClean, HasSbom, IsNotFrozen, check_signature-IsClear, check_image_scan-IsClear,
  check_sbom-IsClear, check_freeze-IsClear,
}
use guardianbot.ReleaseGate.Pushes.{IsClear, IsClear-⊕, not-IsClear-block}
use guardianbot.ReleaseGate.Evidence.{
  check_signature, check_deployed_rescan, check_image_scan, check_freeze, check_sbom,
}
use guardianbot.ReleaseGate.Evidence.Rescan.{check_deployed_rescan-IsClear, IsRescanned}
use guardianbot.ReleaseGate.Findings.{FindingIndex, risk_count, index_findings, judge_all}
use guardianbot.ReleaseGate.Coverage.Seen.{
  HasTest, IsSeen, index_tests-IsSeen, index_tests_malformed,
}
use mathlib.Core.List.{Memᴰ}
use guardianbot.ReleaseGate.Coverage.Entries.{IsCovered, check_scopes_clear}
use guardianbot.ReleaseGate.Coverage.{index_tests, no_tests, commit_scan_proof, check_scopes}
use guardianbot.ReleaseGate.Findings.Cleared.{IsCleared, judge_all-IsClear}
use guardianbot.ReleaseGate.Findings.Kept.{
  IsWellFormed, index_findings-new, index_findings-All, index_findings-IsKeyed,
  index_findings_malformed,
}

module _ (dates : Dates) where
  -- The facts that the gate asks of GuardianBot's own evidence.
  pub record EvidenceHolds (input : GateInput) : Type 0 where
    pub signed : IsSigned input
    pub image_clean : IsImageClean input
    pub sbom : HasSbom input
    pub not_frozen : IsNotFrozen input
    pub rescanned : IsRescanned dates input

  evidence_pushes : GateInput → Pushed
  evidence_pushes input =
      check_signature input
      ⊕ check_image_scan input
      ⊕ check_sbom input
      ⊕ check_freeze input
      ⊕ check_deployed_rescan dates input

  evidence-IsClear : (input : GateInput) → IsClear (evidence_pushes input) ↔ EvidenceHolds input
  unfolding evidence_pushes
  evidence-IsClear input =
      let four = check_deployed_rescan dates input in
      let three = check_freeze input ⊕ four in
      let two = check_sbom input ⊕ three in
      let one = check_image_scan input ⊕ two in
      let split_1 = IsClear-⊕ (check_signature input) one in
      let split_2 = IsClear-⊕ (check_image_scan input) two in
      let split_3 = IsClear-⊕ (check_sbom input) three in
      let split_4 = IsClear-⊕ (check_freeze input) four in
      (
        (λ h.
            let (a, h1) = split_1.0 h in
            let (b, h2) = split_2.0 h1 in
            let (c, h3) = split_3.0 h2 in
            let (d, e) = split_4.0 h3 in
            record {
              signed = (check_signature-IsClear input).0 a;
              image_clean = (check_image_scan-IsClear input).0 b;
              sbom = (check_sbom-IsClear input).0 c;
              not_frozen = (check_freeze-IsClear input).0 d;
              rescanned = (check_deployed_rescan-IsClear dates input).0 e;
            }),
        (λ v. split_1.1 (
          (check_signature-IsClear input).1 v.signed,
          split_2.1 (
            (check_image_scan-IsClear input).1 v.image_clean,
            split_3.1 (
              (check_sbom-IsClear input).1 v.sbom,
              split_4.1 (
                (check_freeze-IsClear input).1 v.not_frozen,
                (check_deployed_rescan-IsClear dates input).1 v.rescanned,
              ),
            ),
          ),
        )),
      )

  gate_blockers :
      (input : GateInput)
      → (gate_pushes dates input).blockers
        ≡ (evidence_pushes input).blockers
          ++ (check_defect_dojo dates input input.defect_dojo).blockers
  unfolding gate_pushes evidence_pushes
  gate_blockers input = simp append_assoc

  decision_of-pass : (bs : List GateBlocker) → decision_of bs ≡ pass → bs ≡ []
  decision_of-pass [] h = refl
  decision_of-pass (b ∷ bs) h = cc

  pass_parts :
      (input : GateInput)
      → (evaluate_release_gate dates input).decision ≡ pass
      → EvidenceHolds input × IsClear (check_defect_dojo dates input input.defect_dojo)
  unfolding evaluate_release_gate
  pass_parts input h =
      let clear = decision_of-pass _ h in
      let (evidence, dojo) = (append-eq-nil_iff _ _).0 (sym (gate_blockers input) ∙ clear) in
      ((evidence-IsClear input).0 evidence, dojo)

  -- A passing decision has a signature of exactly the candidate's digest by the trusted identity, each
  -- piece of evidence that the policy requires, and no promotion freeze of the candidate.
  pub pass-EvidenceHolds :
      (input : GateInput)
      → (evaluate_release_gate dates input).decision ≡ pass
      → EvidenceHolds input
  pass-EvidenceHolds input h = (pass_parts input h).0

  -- Where the evidence holds, every blocker of the decision comes from DefectDojo.
  pub blockers_of_EvidenceHolds :
      (input : GateInput)
      → EvidenceHolds input
      → (evaluate_release_gate dates input).blockers
        ≡ (check_defect_dojo dates input input.defect_dojo).blockers
  unfolding evaluate_release_gate
  blockers_of_EvidenceHolds input v =
      gate_blockers input
      ∙ ap (λ bs. bs ++ (check_defect_dojo dates input input.defect_dojo).blockers)
          ((evidence-IsClear input).1 v)

  -- A source of commit-scoped imports is covered by a Test in the candidate's scope, or by a clean scan
  -- summary of the candidate commit.
  abbrev pub IsSourceCovered : GateInput → DojoProduct → Source → Type 0
  IsSourceCovered input dojo source =
      HasTest input.candidate dojo.tests source
      ⊎ ((scan_type proof : String) × (commit_scan_proof input source scan_type ≡ some proof)
          × (proof ≢ ""))

  -- What the code kept of a listed finding, and that it is cleared.
  abbrev pub IsAnswered : GateInput → DojoProduct → DojoFinding → Type 0
  IsAnswered input dojo f =
      (g : DojoFinding) × Memᴰ g (dojo.findings ++ dojo.accepted_findings)
      × (g.id ≡ f.id)
      × (risk_count f ≤ risk_count g)
      × IsCleared dates input (index_tests input.candidate dojo.tests no_tests).test_tags g

  pub record DojoHolds (input : GateInput) (dojo : DojoProduct) : Type 0 where
    pub reached : input.defect_dojo ≡ available dojo
    pub tests_well_formed : All (λ t. is_safe_integer t.id ≡ true) dojo.tests
    pub findings_well_formed : All IsWellFormed (dojo.findings ++ dojo.accepted_findings)
    pub sast_covered : IsSourceCovered input dojo sast
    pub image_covered : IsSourceCovered input dojo image
    pub answered :
        (f : DojoFinding)
        → Memᴰ f (dojo.findings ++ dojo.accepted_findings)
        → IsAnswered input dojo f

  covered_source :
      (input : GateInput) (dojo : DojoProduct) (source : Source)
      → IsCovered input (values (index_tests input.candidate dojo.tests no_tests).scan_scope) source
      → IsSourceCovered input dojo source
  covered_source input dojo source (e, m, same, inl counted) = inl (
      subst (HasTest input.candidate dojo.tests) same (
        All-mem (IsSeen input.candidate dojo.tests) _
          (index_tests-IsSeen input.candidate dojo.tests) m counted))
  covered_source input dojo source (e, m, same, inr (p, proof, full)) =
      inr (
        e.scan_type,
        p,
        subst (λ s. commit_scan_proof input s e.scan_type ≡ some p) same proof,
        full,
      )

  check_malformed_clear : (n : ℕ) → IsClear (check_malformed n) → n ≡ 0
  unfolding check_malformed
  check_malformed_clear n h = ground arith

  IsAnswered-finding :
      (input : GateInput) (dojo : DojoProduct) (start : FindingIndex) (f : DojoFinding)
      → start.findings ≡ []
      → All
          (IsCleared dates input (index_tests input.candidate dojo.tests no_tests).test_tags)
          (values (index_findings (dojo.findings ++ dojo.accepted_findings) start).findings)
      → IsWellFormed f
      → Memᴰ f (dojo.findings ++ dojo.accepted_findings)
      → IsAnswered input dojo f
  IsAnswered-finding input dojo start f empty cleared w m =
      let listed = dojo.findings ++ dojo.accepted_findings in
      let index = index_findings listed start in
      let (g, found, detail) = index_findings-new listed start m w in
      let kept = mem_of_lookup f.id g index.findings found in
      let listed_all =
        index_findings-All (λ x. Memᴰ x listed) listed start
          (All-members (λ x. Memᴰ x listed) listed (λ a k. k)) (rw empty tt) in
      (
        g,
        All-mem (λ x. Memᴰ x listed) (values index.findings) listed_all kept,
        index_findings-IsKeyed listed start (rw empty (λ k x none_yet. cc none_yet)) f.id g found,
        detail,
        All-mem (IsCleared dates input _) (values index.findings) cleared kept,
      )

  product_holds :
      (input : GateInput) (dojo : DojoProduct)
      → input.defect_dojo ≡ available dojo
      → IsClear (check_product dates input dojo)
      → DojoHolds input dojo
  unfolding check_product sorted_findings
  product_holds input dojo reached h =
      let tests = index_tests input.candidate dojo.tests no_tests in
      let listed = dojo.findings ++ dojo.accepted_findings in
      let start = no_findings tests.malformed in
      let index = index_findings listed start in
      let scopes = check_scopes input (values tests.scan_scope) in
      let judged = judge_all dates input tests.test_tags (sorted_findings index) in
      let (scopes_clear, rest) =
        (IsClear-⊕ scopes (judged ⊕ check_malformed index.malformed)).0 h in
      let (judged_clear, counted) = (IsClear-⊕ judged (check_malformed index.malformed)).0 rest in
      let (current, sast_seen, image_seen) = check_scopes_clear input _ scopes_clear in
      let all_sorted = (judge_all-IsClear dates input tests.test_tags _).0 judged_clear in
      let all_kept = (All-sort by_id (IsCleared dates input tests.test_tags) _).1 all_sorted in
      let (tests_ok, findings_ok) =
        (index_findings_malformed listed start).0 (check_malformed_clear _ counted) in
      record {
        reached = reached;
        tests_well_formed =
            ((index_tests_malformed input.candidate dojo.tests no_tests).0 tests_ok).1;
        findings_well_formed = findings_ok;
        sast_covered = covered_source input dojo sast sast_seen;
        image_covered = covered_source input dojo image image_seen;
        answered = λ f m.
            IsAnswered-finding input dojo start f refl all_kept
              (All-mem IsWellFormed listed findings_ok m) m;
      }

  dojo_holds :
      (input : GateInput) (state : DefectDojoState)
      → input.defect_dojo ≡ state
      → IsClear (check_defect_dojo dates input state)
      → (dojo : DojoProduct) × DojoHolds input dojo
  unfolding check_defect_dojo
  dojo_holds input (unavailable reason) e h = absurd (not-IsClear-block _ h)
  dojo_holds input (available dojo) e h = (dojo, product_holds input dojo e h)

  -- A passing decision has reached DefectDojo, found its Tests and findings well formed, SAST and image
  -- imports covered, and each listed finding answered: the most detailed record of its id is out of
  -- scope, closed, below the threshold, or waived by a valid risk acceptance.
  pub pass-DojoHolds :
      (input : GateInput)
      → (evaluate_release_gate dates input).decision ≡ pass
      → (dojo : DojoProduct) × DojoHolds input dojo
  pass-DojoHolds input h = dojo_holds input input.defect_dojo refl (pass_parts input h).1
