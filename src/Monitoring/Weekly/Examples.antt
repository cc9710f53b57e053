-- ===== src/Monitoring/Weekly/Examples.antt =====
-- A weekly report on two repositories.
use guardianbot.Prelude.{
  refl, List, ℕ, ◌∷◌, [], some, ◌+◌, sort, arith, insert_sorted, ◌≡◌, ◌*◌, ◌/◌,
}
use guardianbot.Monitoring.Weekly.{
  Floats, RepositoryWeeklyMetrics, public_repository, private_repository,
}
use guardianbot.Monitoring.Lifecycle.{FindingsMetrics}
use guardianbot.Monitoring.Weekly.Totals.{ReportEnds, build_weekly-ReportEnds}
use guardianbot.Monitoring.Weekly.Rank.{IsQuantile, quantile-IsQuantile}
use guardianbot.Monitoring.Weekly.Quantile.{quantile, element_at}
use guardianbot.Monitoring.Weekly.Owners.{SectionAccounts, findings_section-SectionAccounts}
use guardianbot.Monitoring.Weekly.Findings.{
  findings_section, ranked_owners, owner_before, all_owners, add_owners, add_owner_count,
}
use guardianbot.Monitoring.Weekly.Values.{
  build_review_value_summary, measured, summarize_all, summarize_repository, tally_categories,
  tally_category, add_category, add_counts, add_value_counts,
}
use guardianbot.Samples.{sample_dates, sample_collation}
use guardianbot.Monitoring.Weekly.Report.{build_weekly_coverage_report}
use mathlib.Core.Option.{none}
use guardianbot.Monitoring.Status.{enforced}
use guardianbot.Monitoring.Weekly.Values.{
  count, review_value_category, sorted_stats, review_value_stats, summary_of,
}
use guardianbot.Prelude.Js.{nat, neg, other}

abbrev floats : Floats
floats = record {
  Float = ℕ;
  float_zero = 0;
  float_add = λ a b. a + b;
  to_fixed_4 = λ a. a;
  quotient = λ a b. a;
  ceil_times = λ n percent. (n * percent + 99) / 100;
  half = 50;
  ninety_five = 95;
  ceil_times-half = λ n h. refl;
  ceil_times-ninety_five = λ n h. refl;
}

abbrev metrics : FindingsMetrics
metrics = record {
  open_count = 3;
  breached = 1;
  fixed = 0;
  suppressed = 0;
  risk_accepted = 0;
  ticket_failures = 0;
  by_severity = record { critical = 1; high = 2; medium = 0; low = 0; info = 0 };
  by_owner = ("team-a", 2) ∷ ("bb", 1) ∷ [];
  age_buckets = record { week = 3; month = 0; quarter = 0; older = 0 };
}

abbrev repository : RepositoryWeeklyMetrics floats
repository = record {
  repository = "org/app";
  visibility = public_repository;
  inventory_state = enforced;
  review = record {
    prs_reviewed = 2;
    advisory_findings_opened = 4;
    advisory_findings_accepted = 1;
    advisory_findings_dismissed = 1;
    advisory_findings_resolved = 1;
    deterministic_blockers_opened = 0;
    bridge_failures = 0;
    partial_reviews = 0;
    latency_samples_ms = some (30 ∷ 10 ∷ 20 ∷ []);
    input_units = some 9;
    output_units = none;
    estimated_cost_usd = some 5;
  };
  review_value = some (
      (
        "sql-injection",
        record { fixed = nat 1; dismissed = nat 1; ignored = neg 3; unresolved = other },
      )
      ∷ []);
  scanner = record {
    expected_runs = 1;
    successful_runs = 1;
    evidence_complete_runs = 1;
    missing_evidence_alerts = 0;
    import_lag_samples_ms = none;
  };
  monitoring = record {
    fresh_indexes = 1;
    stale_indexes = 0;
    expired_suppressions = 0;
    expiring_suppressions = 0;
    protected_digests = 1;
    complete_evidence_digests = 1;
    missing_evidence_digests = 0;
  };
  findings = some metrics;
}

abbrev fleet : List (RepositoryWeeklyMetrics floats)
fleet =
    repository
    ∷ record repository { repository = "org/other"; visibility = private_repository }
    ∷ []

build_weekly-ReportEnds_example :
    ReportEnds floats sample_dates sample_collation "TI" "TX" fleet
      (build_weekly_coverage_report floats sample_dates sample_collation "TI" "TX" fleet)
build_weekly-ReportEnds_example =
    build_weekly-ReportEnds floats sample_dates sample_collation "TI" "TX" fleet

quantile-IsQuantile_example :
    IsQuantile 50 (quantile floats (30 ∷ 10 ∷ 20 ∷ []) floats.half) (30 ∷ 10 ∷ 20 ∷ [])
    × IsQuantile 95 (quantile floats (30 ∷ 10 ∷ 20 ∷ []) floats.ninety_five) (30 ∷ 10 ∷ 20 ∷ [])
quantile-IsQuantile_example = quantile-IsQuantile floats 30 (10 ∷ 20 ∷ []) (omega arith)

median_of_three : quantile floats (30 ∷ 10 ∷ 20 ∷ []) floats.half ≡ 20
unfolding quantile element_at sort insert_sorted
median_of_three = refl

findings_section-SectionAccounts_example :
    SectionAccounts sample_collation
      (metrics ∷ metrics ∷ [])
      (findings_section sample_collation (metrics ∷ metrics ∷ []))
findings_section-SectionAccounts_example =
    findings_section-SectionAccounts sample_collation (metrics ∷ metrics ∷ [])

owners_ranked :
    (findings_section sample_collation (metrics ∷ metrics ∷ [])).by_owner
    ≡ ("team-a", 4) ∷ ("bb", 2) ∷ []
unfolding findings_section ranked_owners owner_before all_owners add_owners add_owner_count sort
    insert_sorted sample_collation
owners_ranked = refl

value_of_app : ℕ
value_of_app = elim (build_review_value_summary floats sample_collation fleet) [
  | some summary ↦ summary.totals.sample_size
  | none ↦ 0
]

values_added : value_of_app ≡ 4
unfolding value_of_app build_review_value_summary measured summarize_all summarize_repository
    tally_categories tally_category add_category add_counts add_value_counts count
    review_value_category sorted_stats review_value_stats summary_of sort insert_sorted
    sample_collation
values_added = refl
