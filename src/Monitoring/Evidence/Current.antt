-- ===== src/Monitoring/Evidence/Current.antt =====
-- `reconcileEvidence`: lemmas on checks that neither warn nor fail.
use guardianbot.Prelude.{
  refl, ℕ, List, Option, ◌≤◌, ◌≡◌, some, true, All, mem-filter_inv, All-map_inv, ◌-◌,
  first-sort_mem, arith,
}
use guardianbot.Prelude.Js.{Dates}
use guardianbot.Monitoring.Evidence.{
  latest_evidence, dated_evidence_check, latest_evidence_check, requirement_check,
  reconcile_evidence, EvidenceRequirement, missing_evidence_check, EvidenceRecord, matches_evidence,
  newer_evidence,
}
use guardianbot.Monitoring.Status.{status_weight}
use guardianbot.Monitoring.Status.Worst.{IsCalm, statuses-IsCalm}
use mathlib.Core.List.{Memᴰ}
use mathlib.Core.Option.{none}

-- The evidence that meets a requirement: a recorded success of its kind, key, digest and environment
-- whose time can be read and is within the requirement's window.
unfoldable pub IsCurrentEvidence :
    Dates → ℕ → List EvidenceRecord → EvidenceRequirement → EvidenceRecord → Type 0
IsCurrentEvidence dates now evidence requirement item =
    Memᴰ item evidence
    × (matches_evidence requirement item ≡ true)
    × (item.succeeded ≡ true)
    × ((time : ℕ) × (dates.parse item.observed_at ≡ some time) × (now - time ≤ requirement.max_age))

latest_evidence_mem :
    (dates : Dates) (requirement : EvidenceRequirement) (evidence : List EvidenceRecord)
    (item : EvidenceRecord)
    → latest_evidence dates requirement evidence ≡ some item
    → Memᴰ item evidence × (matches_evidence requirement item ≡ true)
unfolding latest_evidence
latest_evidence_mem dates requirement evidence item h =
    mem-filter_inv (matches_evidence requirement) evidence
      (first-sort_mem (newer_evidence dates) _ item h)

dated_evidence_check-calm :
    (dates : Dates) (now : ℕ) (requirement : EvidenceRequirement) (item : EvidenceRecord)
    (read : Option ℕ)
    → requirement.required ≡ true
    → IsCalm (dated_evidence_check dates now requirement item read)
    → (item.succeeded ≡ true)
      × ((time : ℕ) × (read ≡ some time) × (now - time ≤ requirement.max_age))
unfolding dated_evidence_check status_weight IsCalm
dated_evidence_check-calm dates now requirement item none required calm =
    absurd (omega (arith, calm))
dated_evidence_check-calm dates now requirement item (some time) required calm =
    let (succeeded, recent) = parts in (succeeded, (time, refl, recent))
  where
    parts : (item.succeeded ≡ true) × (now - time ≤ requirement.max_age)
    parts = ground (arith, required, calm)

latest_evidence_check-calm :
    (dates : Dates) (now : ℕ) (requirement : EvidenceRequirement) (latest : Option EvidenceRecord)
    → requirement.required ≡ true
    → IsCalm (latest_evidence_check dates now requirement latest)
    → (item : EvidenceRecord) × (latest ≡ some item)
      × (item.succeeded ≡ true)
      × ((time : ℕ) × (dates.parse item.observed_at ≡ some time)
          × (now - time ≤ requirement.max_age))
unfolding latest_evidence_check missing_evidence_check status_weight IsCalm
latest_evidence_check-calm dates now requirement none required calm =
    absurd (ground (arith, required, calm))
latest_evidence_check-calm dates now requirement (some item) required calm =
    let (succeeded, recent) =
      dated_evidence_check-calm dates now requirement item _ required calm in
    (item, refl, succeeded, recent)

unfoldable pub HasEvidence : Dates → ℕ → List EvidenceRecord → EvidenceRequirement → Type 0
HasEvidence dates now evidence requirement =
    requirement.required ≡ true
    → (item : EvidenceRecord) × IsCurrentEvidence dates now evidence requirement item

check-HasEvidence :
    (dates : Dates) (now : ℕ) (evidence : List EvidenceRecord) (requirement : EvidenceRequirement)
    → IsCalm (requirement_check dates now evidence requirement)
    → HasEvidence dates now evidence requirement
unfolding requirement_check HasEvidence IsCurrentEvidence
check-HasEvidence dates now evidence requirement calm required =
    let (item, found, succeeded, recent) =
      latest_evidence_check-calm dates now requirement (latest_evidence dates requirement evidence)
        required calm in
    let (there, holds) = latest_evidence_mem dates requirement evidence item found in
    (item, (there, holds, succeeded, recent))

-- A reconciliation whose status is neither a warning nor a failure has, for each required piece of
-- evidence, a recorded success that matches it, whose time can be read and is within its window.
pub reconcile-HasEvidence :
    (dates : Dates) (now : ℕ) (requirements : List EvidenceRequirement)
    (evidence : List EvidenceRecord)
    → status_weight (reconcile_evidence dates now requirements evidence).status ≤ 1
    → All (HasEvidence dates now evidence) requirements
unfolding reconcile_evidence
reconcile-HasEvidence dates now requirements evidence calm =
    All-map_inv (requirement_check dates now evidence) IsCalm (HasEvidence dates now evidence)
      (check-HasEvidence dates now evidence) requirements (statuses-IsCalm _ calm)
