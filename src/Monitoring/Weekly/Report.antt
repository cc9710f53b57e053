-- ===== src/Monitoring/Weekly/Report.antt =====
-- packages/monitoring/src/weekly-report.ts, `buildWeeklyCoverageReport`.
use guardianbot.Monitoring.Status.{
  enforced, report_only, advisory_only, not_applicable_repository, misconfigured,
  missing_expected_runs,
}
use mathlib.Core.Option.{some}
use guardianbot.Prelude.{
  ℕ, List, Option, String, [], Result, ◌+◌, ◌∷◌, map, get_or_else, ◌++◌, length, ◌>>=◌, ok,
  if◌then◌else◌, leb, err, ltb, ◌*◌, ◌-◌,
}
use guardianbot.Monitoring.Weekly.{
  Floats, Visibility, RepositoryWeeklyMetrics, sum, MonitoringMetrics, public_repository,
  private_repository,
}
use guardianbot.Monitoring.Status.{InventoryState}
use guardianbot.Monitoring.Weekly.Quantile.{quantile}
use guardianbot.Monitoring.Weekly.Values.{build_review_value_summary, ValueSummary}
use guardianbot.Prelude.Js.{Dates, Collation}
use guardianbot.Monitoring.Weekly.Findings.{build_weekly_findings_section, FindingsSection}

pub data WeeklyError : Type 0 where
  invalid_range : WeeklyError
  too_long : WeeklyError

pub record VisibilityCount : Type 0 where
  pub public_count : ℕ
  pub private_count : ℕ

pub record InventoryCount : Type 0 where
  pub enforced : ℕ
  pub report_only : ℕ
  pub advisory_only : ℕ
  pub not_applicable : ℕ
  pub misconfigured : ℕ
  pub missing_expected_runs : ℕ

pub record ReviewReport (floats : Floats) : Type 0 where
  pub prs_reviewed : ℕ
  pub advisory_findings_opened : ℕ
  pub advisory_findings_accepted : ℕ
  pub advisory_findings_dismissed : ℕ
  pub advisory_findings_resolved : ℕ
  pub deterministic_blockers_opened : ℕ
  pub bridge_failures : ℕ
  pub partial_reviews : ℕ
  pub latency_p50_ms : ℕ
  pub latency_p95_ms : ℕ
  pub input_units : ℕ
  pub output_units : ℕ
  pub estimated_cost_usd : floats.Float

pub record ScannerReport : Type 0 where
  pub expected_runs : ℕ
  pub successful_runs : ℕ
  pub evidence_complete_runs : ℕ
  pub missing_evidence_alerts : ℕ
  pub import_lag_p50_ms : ℕ
  pub import_lag_p95_ms : ℕ

pub record CoverageReport (floats : Floats) : Type 0 where
  pub period_start : String
  pub period_end : String
  pub total_repositories : ℕ
  pub visibility_breakdown : VisibilityCount
  pub inventory_states : InventoryCount
  pub review : ReviewReport floats
  pub review_value : Option (ValueSummary floats)
  pub scanner : ScannerReport
  pub monitoring : MonitoringMetrics
  pub findings : Option FindingsSection

unfoldable pub count_visibility : Visibility → VisibilityCount → VisibilityCount
count_visibility public_repository counts = record counts { public_count = counts.public_count + 1 }
count_visibility private_repository counts = record counts {
  private_count = counts.private_count + 1;
}

unfoldable pub count_inventory : InventoryState → InventoryCount → InventoryCount
count_inventory enforced counts = record counts { enforced = counts.enforced + 1 }
count_inventory report_only counts = record counts { report_only = counts.report_only + 1 }
count_inventory advisory_only counts = record counts { advisory_only = counts.advisory_only + 1 }
count_inventory not_applicable_repository counts = record counts {
  not_applicable = counts.not_applicable + 1;
}
count_inventory misconfigured counts = record counts { misconfigured = counts.misconfigured + 1 }
count_inventory missing_expected_runs counts = record counts {
  missing_expected_runs = counts.missing_expected_runs + 1;
}

-- What the loop over the repositories gathers.
pub record Gathered : Type 0 where
  pub visibility_breakdown : VisibilityCount
  pub inventory_states : InventoryCount
  pub latency_samples : List ℕ
  pub import_lag_samples : List ℕ

module _ (floats : Floats) where
  unfoldable pub gather : List (RepositoryWeeklyMetrics floats) → Gathered → Gathered
  unfolding count_visibility count_inventory
  gather [] g = g
  gather (repository ∷ rest) g = gather rest (record {
    visibility_breakdown = count_visibility repository.visibility g.visibility_breakdown;
    inventory_states = count_inventory repository.inventory_state g.inventory_states;
    latency_samples = g.latency_samples ++ get_or_else repository.review.latency_samples_ms [];
    import_lag_samples =
        g.import_lag_samples ++ get_or_else repository.scanner.import_lag_samples_ms [];
  })

  abbrev pub nothing_gathered : Gathered
  nothing_gathered = record {
    visibility_breakdown = record { public_count = 0; private_count = 0 };
    inventory_states = record {
      enforced = 0;
      report_only = 0;
      advisory_only = 0;
      not_applicable = 0;
      misconfigured = 0;
      missing_expected_runs = 0;
    };
    latency_samples = [];
    import_lag_samples = [];
  }

  -- `sum(repositories.map(...))` of counts, and of counts that may be missing
  unfoldable pub sum_of :
      (RepositoryWeeklyMetrics floats → ℕ) → List (RepositoryWeeklyMetrics floats) → ℕ
  unfolding sum
  sum_of field repositories = sum (map field repositories)

  unfoldable pub sum_costs : List (RepositoryWeeklyMetrics floats) → floats.Float → floats.Float
  sum_costs [] total = total
  sum_costs (repository ∷ rest) total =
      sum_costs rest (
        floats.float_add total (get_or_else repository.review.estimated_cost_usd floats.float_zero))

  unfoldable pub review_report :
      Gathered → List (RepositoryWeeklyMetrics floats) → ReviewReport floats
  unfolding sum_of sum_costs quantile
  review_report g repositories = record {
    prs_reviewed = sum_of (λ r. r.review.prs_reviewed) repositories;
    advisory_findings_opened = sum_of (λ r. r.review.advisory_findings_opened) repositories;
    advisory_findings_accepted = sum_of (λ r. r.review.advisory_findings_accepted) repositories;
    advisory_findings_dismissed = sum_of (λ r. r.review.advisory_findings_dismissed) repositories;
    advisory_findings_resolved = sum_of (λ r. r.review.advisory_findings_resolved) repositories;
    deterministic_blockers_opened =
        sum_of (λ r. r.review.deterministic_blockers_opened) repositories;
    bridge_failures = sum_of (λ r. r.review.bridge_failures) repositories;
    partial_reviews = sum_of (λ r. r.review.partial_reviews) repositories;
    latency_p50_ms = quantile floats g.latency_samples floats.half;
    latency_p95_ms = quantile floats g.latency_samples floats.ninety_five;
    input_units = sum_of (λ r. get_or_else r.review.input_units 0) repositories;
    output_units = sum_of (λ r. get_or_else r.review.output_units 0) repositories;
    estimated_cost_usd = floats.to_fixed_4 (sum_costs repositories floats.float_zero);
  }

  unfoldable pub scanner_report : Gathered → List (RepositoryWeeklyMetrics floats) → ScannerReport
  unfolding sum_of quantile
  scanner_report g repositories = record {
    expected_runs = sum_of (λ r. r.scanner.expected_runs) repositories;
    successful_runs = sum_of (λ r. r.scanner.successful_runs) repositories;
    evidence_complete_runs = sum_of (λ r. r.scanner.evidence_complete_runs) repositories;
    missing_evidence_alerts = sum_of (λ r. r.scanner.missing_evidence_alerts) repositories;
    import_lag_p50_ms = quantile floats g.import_lag_samples floats.half;
    import_lag_p95_ms = quantile floats g.import_lag_samples floats.ninety_five;
  }

  unfoldable pub monitoring_report : List (RepositoryWeeklyMetrics floats) → MonitoringMetrics
  unfolding sum_of
  monitoring_report repositories = record {
    fresh_indexes = sum_of (λ r. r.monitoring.fresh_indexes) repositories;
    stale_indexes = sum_of (λ r. r.monitoring.stale_indexes) repositories;
    expired_suppressions = sum_of (λ r. r.monitoring.expired_suppressions) repositories;
    expiring_suppressions = sum_of (λ r. r.monitoring.expiring_suppressions) repositories;
    protected_digests = sum_of (λ r. r.monitoring.protected_digests) repositories;
    complete_evidence_digests = sum_of (λ r. r.monitoring.complete_evidence_digests) repositories;
    missing_evidence_digests = sum_of (λ r. r.monitoring.missing_evidence_digests) repositories;
  }

  unfoldable pub report_of :
      Dates → Collation → ℕ → ℕ → List (RepositoryWeeklyMetrics floats) → CoverageReport floats
  unfolding gather review_report scanner_report monitoring_report build_review_value_summary
      build_weekly_findings_section
  report_of dates locale start finish repositories =
      let g = gather repositories nothing_gathered in
      record {
        period_start = dates.to_iso start;
        period_end = dates.to_iso finish;
        total_repositories = length repositories;
        visibility_breakdown = g.visibility_breakdown;
        inventory_states = g.inventory_states;
        review = review_report g repositories;
        review_value = build_review_value_summary floats locale repositories;
        scanner = scanner_report g repositories;
        monitoring = monitoring_report repositories;
        findings = build_weekly_findings_section locale repositories;
      }

-- The guards on the two times, `none` being NaN.
unfoldable pub checked_range : Option ℕ → Option ℕ → Result WeeklyError (ℕ × ℕ)
checked_range (some start) (some finish) =
    if leb finish start
    then err invalid_range
    else if ltb (7 * 24 * 60 * 60 * 1000 + 60_000) (finish - start)
    then err too_long
    else ok (start, finish)
checked_range _ _ = err invalid_range

module _ (floats : Floats) (dates : Dates) (locale : Collation) where
  unfoldable pub build_weekly_coverage_report :
      String
      → String
      → List (RepositoryWeeklyMetrics floats)
      → Result WeeklyError (CoverageReport floats)
  unfolding checked_range report_of
  build_weekly_coverage_report period_start period_end repositories = do
    (start, finish) ← checked_range (dates.parse period_start) (dates.parse period_end)
    ok (report_of floats dates locale start finish repositories)
