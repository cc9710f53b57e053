-- ===== src/Monitoring/Repository/Enforced.antt =====
-- `classifyRepositoryInventoryState` in `evaluateRepositoryMonitoring`: lemmas on the enforced
-- state.
use guardianbot.Prelude.{
  refl, List, ℕ, ◌≡◌, true, ◌⊎◌, ◌↔◌, Option, is_false, false, is_value, arith, some, Bool-cases,
  ◌∷◌, ◌==◌, [], ap, inl, sym, inr, map, ◌∙◌, Bool, ◌||◌, String, not, ◌&&◌, string_eq,
}
use guardianbot.Monitoring.Repository.{
  RepositoryInput, classify_inventory_state, mode_state, enforced_state, InventoryInput, enforce,
  any_failing, checks_of, runs_of, evidence_of, image_of, index_of, inventory_input,
  evaluate_repository,
}
use mathlib.Core.Option
use guardianbot.Monitoring.Status.{Status, Check, failing, enforced, status_beq_iff, status_eq}
use mathlib.Core.List.{Memᴰ}
use Option.{none}
use guardianbot.Monitoring.ExpectedRuns.{
  reconcile_expected_runs, ExpectedRun, ObservedRun, expected_run_check,
}
use guardianbot.Monitoring.Evidence.{
  reconcile_evidence, evaluate_image_evidence, EvidenceRequirement, ImageEvidenceInput,
  EvidenceRecord, image_requirements, requirement_check, with_deployed, deployed_digest_check,
  EvidenceReconciliation,
}
use guardianbot.Prelude.Js.{Dates}
use guardianbot.Monitoring.Status.Worst.{failing_iff}
use guardianbot.Monitoring.Freshness.{evaluate_index_freshness}

-- A check of this list fails.
unfoldable pub HasFailing : List Check → Type 0
HasFailing checks = (check : Check) × Memᴰ check checks × (check.status ≡ failing)

-- The settings and the number of missing runs allow enforcement.
unfoldable pub IsEnforceable : InventoryInput → Type 0
IsEnforceable input =
    (input.config_valid ≡ true)
    × ((input.deterministic_applicable ≡ true) ⊎ (input.review_enabled ≡ true))
    × (input.missing_expected_runs ≡ 0)
    × (input.scanner_mode ≡ enforce)
    × (is_false input.baseline_ready ≡ false)

mode_state-enforced_iff :
    (input : InventoryInput)
    → (mode_state input ≡ enforced) ↔ (
        (input.scanner_mode ≡ enforce)
        × (is_false input.baseline_ready ≡ false)
        × (any_failing input ≡ false))
unfolding mode_state enforced_state
mode_state-enforced_iff input = ground (arith)

classify-enforced_iff :
    (input : InventoryInput)
    → (classify_inventory_state input ≡ enforced)
      ↔ (IsEnforceable input × (any_failing input ≡ false))
unfolding classify_inventory_state IsEnforceable
classify-enforced_iff input = ground (arith, mode_state-enforced_iff input)

-- Whether a status that may be missing is a failure, in terms of the checks behind it.
module _ {ℓ κ} {I : Type ℓ} {A : Type κ} (f : I → A) (status : A → Status) (checks : A → List Check)
    (fails : (i : I) → (status (f i) ≡ failing) ↔ HasFailing (checks (f i))) where
  part_failing :
      (o : Option I)
      → (is_value (Option.map status (Option.map f o)) failing ≡ false)
        ↔ (¬ HasFailing (checks_of checks (Option.map f o)))
  unfolding HasFailing
  part_failing none = ((λ h (check, m, e). elim m [ ]), (λ h. refl))
  part_failing (some a) = (
    (λ h k. ground (arith, status_beq_iff (status (f a)) failing, (fails a).1 k, h)),
    (λ h. elim (Bool-cases (status (f a) == failing)) [
      | inl same ↦ absurd (h ((fails a).0 ((status_beq_iff (status (f a)) failing).0 same)))
      | inr differ ↦ differ
    ]),
  )

runs_fails :
    (dates : Dates) (now : ℕ) (r : List ExpectedRun × List ObservedRun)
    → ((reconcile_expected_runs dates now (r.0) (r.1)).status ≡ failing)
      ↔ HasFailing (reconcile_expected_runs dates now (r.0) (r.1)).checks
unfolding reconcile_expected_runs HasFailing
runs_fails dates now r = failing_iff (map (expected_run_check dates now (r.1)) (r.0))

evidence_fails :
    (dates : Dates) (now : ℕ) (requirements : List EvidenceRequirement)
    (records : List EvidenceRecord)
    → ((reconcile_evidence dates now requirements records).status ≡ failing)
      ↔ HasFailing (reconcile_evidence dates now requirements records).checks
unfolding reconcile_evidence HasFailing
evidence_fails dates now requirements records =
    failing_iff (map (requirement_check dates now records) requirements)

with_deployed-fails :
    (input : ImageEvidenceInput) (r : EvidenceReconciliation) (deployed : Option String)
    → (r.status ≡ failing) ↔ HasFailing r.checks
    → ((with_deployed input r deployed).status ≡ failing)
      ↔ HasFailing (with_deployed input r deployed).checks
unfolding with_deployed deployed_digest_check HasFailing
with_deployed-fails input r none h = h
with_deployed-fails input r (some deployed) h =
    elim (Bool-cases (not (deployed == "") && not (deployed == input.digest))) [
      | inl differs ↦ rw differs ((λ e. (_, Memᴰ.head refl, refl)), (λ k. refl))
      | inr agrees ↦ rw agrees h
    ]

image_fails :
    (dates : Dates) (now : ℕ) (input : ImageEvidenceInput)
    → ((evaluate_image_evidence dates now input).status ≡ failing)
      ↔ HasFailing (evaluate_image_evidence dates now input).checks
unfolding evaluate_image_evidence
image_fails dates now input =
    with_deployed-fails input _ input.deployed_digest
      (evidence_fails dates now (image_requirements input) input.evidence)

index_fails : (check : Check) → (check.status ≡ failing) ↔ HasFailing (check ∷ [])
unfolding HasFailing
index_fails check = ((λ h. (check, Memᴰ.head refl, h)), (λ (c, m, e). only c m e))
  where
    only : (c : Check) → Memᴰ c (check ∷ []) → c.status ≡ failing → check.status ≡ failing
    only c (Memᴰ.head same) e = ap (λ (x : Check). x.status) (sym same) ∙ e
    only c (Memᴰ.tail m) e = elim m [ ]

-- No check on the runs, the evidence, the image or the index fails.
unfoldable pub NoneFailing : Dates → ℕ → RepositoryInput → Type 0
NoneFailing dates now input =
    (¬ HasFailing (checks_of (λ r. r.checks) (runs_of dates now input)))
    × (¬ HasFailing (checks_of (λ e. e.checks) (evidence_of dates now input)))
    × (¬ HasFailing (checks_of (λ e. e.checks) (image_of dates now input)))
    × (¬ HasFailing (checks_of (λ c. c ∷ []) (index_of dates now input)))

or4-false :
    (a b c d : Bool)
    → (a || b || c || d) ≡ false
    → (a ≡ false) × (b ≡ false) × (c ≡ false) × (d ≡ false)
or4-false a b c d h = ground (arith, h)

false-or4 :
    (a b c d : Bool) → a ≡ false → b ≡ false → c ≡ false → d ≡ false → (a || b || c || d) ≡ false
false-or4 a b c d e f g h = ground (arith, e, f, g, h)

any_failing_iff :
    (dates : Dates) (now : ℕ) (input : RepositoryInput)
    → (any_failing (inventory_input dates now input) ≡ false) ↔ NoneFailing dates now input
unfolding inventory_input NoneFailing
any_failing_iff dates now input =
    let (runs, runs') =
      part_failing (λ r. reconcile_expected_runs dates now (r.0) (r.1)) (λ r. r.status)
        (λ r. r.checks) (runs_fails dates now) input.expected_runs in
    let (index, index') =
      part_failing (evaluate_index_freshness dates now) (λ c. c.status) (λ c. c ∷ [])
        (λ i. index_fails (evaluate_index_freshness dates now i)) input.index in
    let (evidence, evidence') =
      part_failing (λ e. reconcile_evidence dates now (e.0) (e.1)) (λ r. r.status) (λ r. r.checks)
        (λ e. evidence_fails dates now (e.0) (e.1)) input.evidence in
    let (image, image') =
      part_failing (evaluate_image_evidence dates now) (λ r. r.status) (λ r. r.checks)
        (image_fails dates now) input.image in
    (
      (λ h. let (a, b, c, d) = or4-false _ _ _ _ h in (runs a, evidence b, image c, index d)),
      (λ (a, b, c, d). false-or4 _ _ _ _ (runs' a) (evidence' b) (image' c) (index' d)),
    )

-- A repository counts as enforced exactly where its configuration is valid, a scanner or a review
-- applies, no run is counted as missing, the scanner enforces with a baseline that is not known to be
-- missing, and no check on its runs, evidence, image or index fails.
pub evaluate-enforced_iff :
    (dates : Dates) (now : ℕ) (input : RepositoryInput)
    → ((evaluate_repository dates now input).inventory_state ≡ enforced)
      ↔ (IsEnforceable (inventory_input dates now input) × NoneFailing dates now input)
unfolding evaluate_repository
evaluate-enforced_iff dates now input =
    let (forth, back) = classify-enforced_iff (inventory_input dates now input) in
    let (none_fails, all_well) = any_failing_iff dates now input in
    (
      (λ h. let (ready, calm) = forth h in (ready, none_fails calm)),
      (λ (ready, calm). back (ready, all_well calm)),
    )
