-- ===== src/Monitoring/Weekly/Findings.antt =====
-- packages/monitoring/src/weekly-report.ts, `buildWeeklyFindingsSection`: the findings of the fleet.
use guardianbot.Prelude.{
  ℕ, String, List, insert, ◌∷◌, Bool, ◌+◌, Option, get_or_else, ltb, sort, map, lookup, ◌||◌, take,
  if◌then◌else◌, some, nat_beq, drop, string_eq, ◌&&◌, length,
}
use guardianbot.Monitoring.Weekly.{Floats, RepositoryWeeklyMetrics, sum}
use guardianbot.Monitoring.Lifecycle.{SeverityCount, AgeCount, FindingsMetrics}
use guardianbot.Prelude.Js.{Collation}
use mathlib.Core.List.{[]}
use mathlib.Core.Option.{none}

abbrev pub max_weekly_finding_owners : ℕ
max_weekly_finding_owners = 50

pub record FindingsSection : Type 0 where
  pub open_count : ℕ
  pub breached : ℕ
  pub fixed : ℕ
  pub suppressed : ℕ
  pub risk_accepted : ℕ
  pub ticket_failures : ℕ
  pub by_severity : SeverityCount
  pub by_owner : List (String × ℕ)
  pub other_owners : ℕ
  pub age_buckets : AgeCount

unfoldable pub findings_of :
    {floats : Floats} → List (RepositoryWeeklyMetrics floats) → List FindingsMetrics
findings_of [] = []
findings_of (repository ∷ rest) = present repository.findings (findings_of rest)
  where
    present : Option FindingsMetrics → List FindingsMetrics → List FindingsMetrics
    present none others = others
    present (some findings) others = findings ∷ others

unfoldable pub add_owner_count : String × ℕ → List (String × ℕ) → List (String × ℕ)
add_owner_count (owner, n) owners = insert owner (get_or_else (lookup owner owners) 0 + n) owners

unfoldable pub add_owners : List (String × ℕ) → List (String × ℕ) → List (String × ℕ)
unfolding add_owner_count
add_owners [] owners = owners
add_owners (entry ∷ entries) owners = add_owners entries (add_owner_count entry owners)

unfoldable pub all_owners : List FindingsMetrics → List (String × ℕ) → List (String × ℕ)
unfolding add_owners
all_owners [] owners = owners
all_owners (findings ∷ rest) owners = all_owners rest (add_owners findings.by_owner owners)

-- `section.bySeverity[severity] += count`, of each severity
unfoldable pub add_severities : SeverityCount → SeverityCount → SeverityCount
add_severities a b = record {
  critical = a.critical + b.critical;
  high = a.high + b.high;
  medium = a.medium + b.medium;
  low = a.low + b.low;
  info = a.info + b.info;
}

unfoldable pub add_ages : AgeCount → AgeCount → AgeCount
add_ages a b = record {
  week = a.week + b.week;
  month = a.month + b.month;
  quarter = a.quarter + b.quarter;
  older = a.older + b.older;
}

unfoldable pub total_severities : List FindingsMetrics → SeverityCount → SeverityCount
unfolding add_severities
total_severities [] counts = counts
total_severities (findings ∷ rest) counts =
    total_severities rest (add_severities counts findings.by_severity)

unfoldable pub total_ages : List FindingsMetrics → AgeCount → AgeCount
unfolding add_ages
total_ages [] counts = counts
total_ages (findings ∷ rest) counts = total_ages rest (add_ages counts findings.age_buckets)

-- `right[1] - left[1] || left[0].localeCompare(right[0])`
unfoldable pub owner_before : Collation → String × ℕ → String × ℕ → Bool
owner_before locale left right =
    ltb right.1 left.1 || (nat_beq right.1 left.1 && locale.collate left.0 right.0)

module _ (locale : Collation) where
  unfoldable pub ranked_owners : List FindingsMetrics → List (String × ℕ)
  unfolding owner_before all_owners
  ranked_owners findings = sort (owner_before locale) (all_owners findings [])

  unfoldable pub findings_section : List FindingsMetrics → FindingsSection
  unfolding ranked_owners sum total_severities total_ages
  findings_section findings = record {
    open_count = sum (map (λ f. f.open_count) findings);
    breached = sum (map (λ f. f.breached) findings);
    fixed = sum (map (λ f. f.fixed) findings);
    suppressed = sum (map (λ f. f.suppressed) findings);
    risk_accepted = sum (map (λ f. f.risk_accepted) findings);
    ticket_failures = sum (map (λ f. f.ticket_failures) findings);
    by_severity =
        total_severities findings
          (record { critical = 0; high = 0; medium = 0; low = 0; info = 0 });
    by_owner = take max_weekly_finding_owners ranked;
    other_owners = sum (map (λ entry. entry.1) (drop max_weekly_finding_owners ranked));
    age_buckets = total_ages findings (record { week = 0; month = 0; quarter = 0; older = 0 });
  }
    where
      ranked : List (String × ℕ)
      ranked = ranked_owners findings

  unfoldable pub build_weekly_findings_section :
      {floats : Floats} → List (RepositoryWeeklyMetrics floats) → Option FindingsSection
  unfolding findings_of findings_section
  build_weekly_findings_section repositories =
      let found = findings_of repositories in
      if nat_beq (length found) 0 then none else some (findings_section found)
