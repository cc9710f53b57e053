-- ===== src/Monitoring/Evidence/Missing.antt =====
-- `reconcileEvidence`: lemmas on `missingCount`.
use guardianbot.Prelude.{
  refl, List, String, ℕ, ◌≡◌, Bool, is_some, false, Option, Bool-cases, ◌∙◌, length, any, ◌≤◌,
  arith, filter, inl, ◌&&◌, not, length-filter-map, some, ◌+s◌, is_some-first-sort, ap, inr, ltb,
  filter_ext, is_some-first-filter, ◌-◌,
}
use guardianbot.Monitoring.Evidence.{
  latest_evidence, dated_evidence_check, missing_evidence_check, latest_evidence_check,
  requirement_check, reconcile_evidence, EvidenceRecord, ends_missing, EvidenceRequirement,
  matches_evidence, newer_evidence, label_of,
}
use guardianbot.Prelude.Js.{Dates}
use guardianbot.Prelude.Text.{ends_with, string_length, ends_with-append}
use mathlib.Core.Option.{none}

-- A required piece of evidence that no record matches.
unfoldable pub is_absent : List EvidenceRecord → EvidenceRequirement → Bool
is_absent evidence requirement =
    requirement.required && not (any (matches_evidence requirement) evidence)

is_some-latest_evidence :
    (dates : Dates) (requirement : EvidenceRequirement) (evidence : List EvidenceRecord)
    → is_some (latest_evidence dates requirement evidence)
      ≡ any (matches_evidence requirement) evidence
unfolding latest_evidence
is_some-latest_evidence dates requirement evidence =
    is_some-first-sort (newer_evidence dates) (filter (matches_evidence requirement) evidence)
    ∙ is_some-first-filter (matches_evidence requirement) evidence

-- What follows the label decides what the summary ends with.
ends_label :
    (label note : String)
    → ends_with note "is missing" ≡ false
    → string_length "is missing" ≤ string_length note
    → ends_with (label +s note) "is missing" ≡ false
ends_label label note h long = ends_with-append label note "is missing" long ∙ h

dated_evidence_check-ends :
    (dates : Dates) (now : ℕ) (requirement : EvidenceRequirement) (item : EvidenceRecord)
    (read : Option ℕ)
    → ends_missing (dated_evidence_check dates now requirement item read) ≡ false
unfolding dated_evidence_check ends_missing ends_with string_length
dated_evidence_check-ends dates now requirement item none =
    ends_label (label_of requirement) " evidence timestamp is invalid" refl (omega arith)
dated_evidence_check-ends dates now requirement item (some time) =
    elim (Bool-cases item.succeeded) [
      | inr failed ↦ rw failed (
          ends_label (label_of requirement) " evidence recorded a failed execution" refl
            (omega arith))
      | inl succeeded ↦ elim (Bool-cases (ltb requirement.max_age (now - time))) [
        | inl old ↦
            rw (succeeded, old)
              (ends_label (label_of requirement) " evidence is stale" refl (omega arith))
        | inr recent ↦
            rw (succeeded, recent)
              (ends_label (label_of requirement) " evidence is current" refl (omega arith))
      ]
    ]

missing_evidence_check-ends :
    (requirement : EvidenceRequirement)
    → ends_missing (missing_evidence_check requirement) ≡ requirement.required
unfolding missing_evidence_check ends_missing ends_with string_length
missing_evidence_check-ends requirement = elim (Bool-cases requirement.required) [
  | inl required ↦
      rw required
        (ends_with-append (label_of requirement) " evidence is missing" "is missing" (omega arith))
  | inr free ↦
      rw free (ends_label (label_of requirement) " evidence is not required" refl (omega arith))
]

latest_evidence_check-ends :
    (dates : Dates) (now : ℕ) (requirement : EvidenceRequirement) (latest : Option EvidenceRecord)
    → ends_missing (latest_evidence_check dates now requirement latest)
      ≡ requirement.required && not (is_some latest)
unfolding latest_evidence_check
latest_evidence_check-ends dates now requirement none =
    missing_evidence_check-ends requirement ∙ ground arith
latest_evidence_check-ends dates now requirement (some item) =
    dated_evidence_check-ends dates now requirement item _ ∙ ground arith

requirement_check-ends :
    (dates : Dates) (now : ℕ) (evidence : List EvidenceRecord) (requirement : EvidenceRequirement)
    → ends_missing (requirement_check dates now evidence requirement)
      ≡ is_absent evidence requirement
unfolding requirement_check is_absent
requirement_check-ends dates now evidence requirement =
    latest_evidence_check-ends dates now requirement _
    ∙ rw (is_some-latest_evidence dates requirement evidence)

-- `missingCount`, which the code reads off the summaries of the checks, is the number of required
-- pieces of evidence that no record matches, whatever their labels are.
pub missing_count_exact :
    (dates : Dates) (now : ℕ) (requirements : List EvidenceRequirement)
    (evidence : List EvidenceRecord)
    → (reconcile_evidence dates now requirements evidence).missing_count
      ≡ length (filter (is_absent evidence) requirements)
unfolding reconcile_evidence
missing_count_exact dates now requirements evidence =
    length-filter-map (requirement_check dates now evidence) ends_missing requirements
    ∙ ap length (filter_ext _ _ requirements (requirement_check-ends dates now evidence))
