-- ===== src/ReleaseGate/Findings.antt =====
-- `evaluateReleaseGate`, the part that reads DefectDojo findings: each is ignored, excepted by a valid
-- risk acceptance, or blocks.
pub mod Accepted
pub mod Cleared
pub mod Kept
pub mod Once
use guardianbot.ReleaseGate.Scope.{in_scope}
use guardianbot.Prelude.{
  List, Option, String, ℕ, insert, if◌then◌else◌, ◌∷◌, Bool, length, not, get_or_else, false,
  is_some, is_true, is_false, ◌+s◌, none, some, ltb, ◌||◌, includes, ◌&&◌, lookup, ◌+◌, ◌==◌, leb,
  is_value, string_eq,
}
use guardianbot.ReleaseGate.Types.{
  DojoFinding, RiskAcceptance, ReleaseGatePolicy, Pushed, BlockerCode, nothing, Source, GateInput,
  severity_of, nothing_ignored, block, ◌⊕◌, except, release_blocking_finding,
  risk_acceptance_invalid, source_name, severity_eq,
}
use guardianbot.Prelude.Js.{is_safe_integer, Number, Dates, nat, neg, number_eq, other}
use guardianbot.Prelude.Text.{decimal, trim, to_lower}
use guardianbot.ReleaseGate.Scope.{finding_scope, finding_source}
use mathlib.Core.List.{[]}

-- The findings by id, of both listings; the record with more risk-acceptance detail is kept.
pub record FindingIndex : Type 0 where
  pub findings : List (Number × DojoFinding)
  pub malformed : ℕ

pub risk_count : DojoFinding → ℕ
risk_count finding = length (get_or_else finding.accepted_risks [])

keep_detailed :
    DojoFinding → Option DojoFinding → List (Number × DojoFinding) → List (Number × DojoFinding)
unfolding risk_count
keep_detailed finding none findings = insert finding.id finding findings
keep_detailed finding (some existing) findings =
    if ltb (risk_count existing) (risk_count finding)
    then insert finding.id finding findings
    else findings

index_finding : DojoFinding → FindingIndex → FindingIndex
unfolding is_safe_integer keep_detailed
index_finding finding index =
    if not (is_safe_integer finding.id) || not (is_safe_integer finding.test)
    then record index { malformed = index.malformed + 1 }
    else record index {
      findings = keep_detailed finding (lookup finding.id index.findings) index.findings;
    }

unfoldable pub index_findings : List DojoFinding → FindingIndex → FindingIndex
unfolding index_finding
index_findings [] index = index
index_findings (finding ∷ rest) index = index_findings rest (index_finding finding index)

-- `acceptance.name.trim()`, `Date.parse(String(acceptance.expiration_date ?? ""))`
abbrev acceptance_name : RiskAcceptance → String
acceptance_name acceptance = trim (get_or_else acceptance.name "")

abbrev covers : Option (List Number) → Number → Bool
covers none id = false
covers (some ids) id = includes ids id

pub record Acceptance : Type 0 where
  pub id : Number
  pub name : String
  pub expires_at : String

abbrev pub severity_text : DojoFinding → String
severity_text finding = to_lower (trim (get_or_else finding.severity ""))

abbrev pub severity_known : String → Bool
severity_known text = is_some (severity_of text)

-- `known && !blocking.has(severity)`
abbrev below_threshold : ReleaseGatePolicy → String → Bool
below_threshold policy text = elim (severity_of text) [
  | none ↦ false
  | some severity ↦ not (includes policy.blocking_severities severity)
]

abbrev label_of : String → String
label_of text = if severity_known text then text else "unclassified"

ignored_out_of_scope : Pushed
ignored_out_of_scope = record nothing { ignored = record nothing_ignored { out_of_scope = 1 } }

ignored_not_open : Pushed
ignored_not_open = record nothing { ignored = record nothing_ignored { not_open = 1 } }

ignored_below_threshold : Pushed
ignored_below_threshold = record nothing {
  ignored = record nothing_ignored { below_threshold = 1 };
}

-- A finding that DefectDojo itself has closed.
abbrev pub is_closed : DojoFinding → Bool
is_closed finding =
    is_true finding.false_p
    || is_true finding.duplicate
    || is_true finding.out_of_scope
    || is_true finding.is_mitigated

abbrev pub is_inactive : ReleaseGatePolicy → DojoFinding → Bool
is_inactive policy finding =
    is_false finding.active || policy.verified_only && is_false finding.verified

finding_ref : Number → String
unfolding decimal
finding_ref (nat n) = "defectdojo://findings/" +s decimal n
finding_ref (neg n) = "defectdojo://findings/-" +s decimal (n + 1)
finding_ref other = "defectdojo://findings/"

blocking_finding : BlockerCode → String → DojoFinding → String → Source → Pushed
unfolding finding_ref
blocking_finding code message finding label source = block (record {
  code = code;
  message = message;
  finding_id = some finding.id;
  severity = some label;
  source = some source;
  ref = some (finding_ref finding.id);
})

-- The conditions of `validRiskAcceptance` on one acceptance that expires at a readable time.
accepts : DojoFinding → ℕ → ℕ → RiskAcceptance → Bool
unfolding trim is_safe_integer
accepts finding now expiry acceptance =
    is_safe_integer acceptance.id
    && not (acceptance_name acceptance == "")
    && not (leb expiry now)
    && is_value acceptance.decision "A"
    && covers acceptance.accepted_findings finding.id

module _ (dates : Dates) where
  -- One entry of `accepted_risks`, if it is a named, unexpired acceptance of this finding.
  acceptance_valid : DojoFinding → ℕ → RiskAcceptance → Option Acceptance
  acceptance_valid finding now acceptance =
      elim (dates.parse (get_or_else acceptance.expiration_date "")) [
        | none ↦ none
        | some expiry ↦
            if accepts finding now expiry acceptance
            then some (record {
              id = acceptance.id;
              name = acceptance_name acceptance;
              expires_at = dates.to_iso expiry;
            })
            else none
      ]

  first_valid : DojoFinding → ℕ → List RiskAcceptance → Option Acceptance
  unfolding acceptance_valid
  first_valid finding now [] = none
  first_valid finding now (acceptance ∷ rest) =
      let later = first_valid finding now rest in
      elim (acceptance_valid finding now acceptance) [ none ↦ later | some a ↦ some a ]

  -- `validRiskAcceptance`
  pub valid_risk_acceptance : DojoFinding → ℕ → Option Acceptance
  unfolding first_valid
  valid_risk_acceptance finding now =
      if is_true finding.risk_accepted
      then first_valid finding now (get_or_else finding.accepted_risks [])
      else none

  accepted_verdict : DojoFinding → String → Source → Option Acceptance → Pushed
  unfolding blocking_finding
  accepted_verdict finding label source (some acceptance) = except (record {
    finding_id = finding.id;
    severity = label;
    source = source;
    risk_acceptance_id = acceptance.id;
    risk_acceptance_name = acceptance.name;
    expires_at = acceptance.expires_at;
    ref = finding_ref finding.id;
  })
  accepted_verdict finding label source none =
      blocking_finding risk_acceptance_invalid
        (label
          +s (" "
              +s (source_name source
                  +s " finding has no named, unexpired DefectDojo risk acceptance")))
        finding label source

  -- A finding at a blocking severity: waived by its acceptance, or a blocker.
  claimed_verdict : DojoFinding → ℕ → String → Source → Pushed
  unfolding accepted_verdict blocking_finding
  claimed_verdict finding now label source =
      if is_true finding.risk_accepted
      then accepted_verdict finding label source (valid_risk_acceptance finding now)
      else blocking_finding release_blocking_finding
          ("active "
            +s (label +s (" " +s (source_name source +s " finding is tied to the candidate"))))
          finding label source

  -- A finding in scope that is open, or claimed to be risk-accepted.
  open_verdict : GateInput → DojoFinding → Source → Pushed
  unfolding ignored_below_threshold
  open_verdict input finding source =
      let text = severity_text finding in
      if below_threshold input.policy text
      then ignored_below_threshold
      else claimed_verdict finding input.now (label_of text) source

  -- The body of the loop over the findings.
  pub judge : GateInput → List (Number × List String) → DojoFinding → Pushed
  unfolding ignored_out_of_scope ignored_not_open
  judge input test_tags finding =
      let tags = get_or_else (lookup finding.test test_tags) [] in
      elim (finding_scope tags input.candidate) [
        | in_scope ↦
            if is_closed finding
            then ignored_not_open
            else if not (is_true finding.risk_accepted) && is_inactive input.policy finding
            then ignored_not_open
            else open_verdict input finding (finding_source tags)
        | _ ↦ ignored_out_of_scope
      ]

  unfoldable pub judge_all : GateInput → List (Number × List String) → List DojoFinding → Pushed
  unfolding judge open_verdict claimed_verdict valid_risk_acceptance first_valid acceptance_valid
      accepts trim to_lower severity_of decimal finding_scope finding_source
  judge_all input test_tags [] = nothing
  judge_all input test_tags (finding ∷ findings) =
      judge input test_tags finding ⊕ judge_all input test_tags findings
