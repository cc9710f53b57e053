-- ===== src/Monitoring/Lifecycle.antt =====
-- packages/monitoring/src/findings.ts: the metrics of deterministic findings, and their checks.
pub mod Accounted
use guardianbot.Prelude.{
  String, ℕ, List, [], Option, Bool, ◌+◌, ◌*◌, true, insert, if◌then◌else◌, ◌∷◌, some, leb, false,
  get_or_else, ltb, ◌+s◌, ◌-◌, ◌&&◌, lookup, ◌++◌, string_eq,
}
use guardianbot.Prelude.Js.{Dates}
use guardianbot.Monitoring.Status.{Check, Metadata, Status, count, passing, failing, warning}
use guardianbot.Monitoring.Freshness.{non_empty}
use mathlib.Core.Option.{none}
use guardianbot.Prelude.Text.{decimal}

pub data FindingStatus : Type 0 where
  open_finding fixed suppressed risk_accepted : FindingStatus

pub data FindingSeverity : Type 0 where
  critical high medium low info : FindingSeverity

pub data AgeBucket : Type 0 where
  week month quarter older : AgeBucket

pub record FindingInput : Type 0 where
  pub status : FindingStatus
  pub severity : FindingSeverity
  pub owner : String
  pub first_seen_at : String
  pub sla_due_at : Option String
  pub ticket_failed : Bool

pub record SeverityCount : Type 0 where
  pub critical : ℕ
  pub high : ℕ
  pub medium : ℕ
  pub low : ℕ
  pub info : ℕ

pub record AgeCount : Type 0 where
  pub week : ℕ
  pub month : ℕ
  pub quarter : ℕ
  pub older : ℕ

pub record FindingsMetrics : Type 0 where
  pub open_count : ℕ
  pub breached : ℕ
  pub fixed : ℕ
  pub suppressed : ℕ
  pub risk_accepted : ℕ
  pub ticket_failures : ℕ
  pub by_severity : SeverityCount
  pub by_owner : List (String × ℕ)
  pub age_buckets : AgeCount

pub record CapacityInput : Type 0 where
  pub last_dropped : ℕ
  pub last_dropped_critical_high : ℕ
  pub dropped_total : ℕ
  pub untrusted_markers : ℕ

pub record LifecycleEvaluation : Type 0 where
  pub checks : List Check
  pub metrics : FindingsMetrics

abbrev pub day_ms : ℕ
day_ms = 24 * 60 * 60_000

abbrev pub empty_metrics : FindingsMetrics
empty_metrics = record {
  open_count = 0;
  breached = 0;
  fixed = 0;
  suppressed = 0;
  risk_accepted = 0;
  ticket_failures = 0;
  by_severity = record { critical = 0; high = 0; medium = 0; low = 0; info = 0 };
  by_owner = [];
  age_buckets = record { week = 0; month = 0; quarter = 0; older = 0 };
}

-- `(now - first) / DAY_MS <= days`, which is `now - first <= days * DAY_MS`; a time to come is young.
unfoldable pub finding_age_bucket : Option ℕ → ℕ → AgeBucket
finding_age_bucket none now = older
finding_age_bucket (some time) now =
    if leb (now - time) (7 * day_ms)
    then week
    else if leb (now - time) (30 * day_ms)
    then month
    else if leb (now - time) (90 * day_ms)
    then quarter
    else older

is_past : Option ℕ → ℕ → Bool
is_past none now = true
is_past (some due) now = leb due now

abbrev pub is_open : FindingStatus → Bool
is_open open_finding = true
is_open _ = false

unfoldable pub is_due : Dates → ℕ → Option String → Bool
unfolding is_past
is_due dates now none = false
is_due dates now (some due) = is_past (dates.parse due) now

unfoldable pub is_sla_breached : Dates → ℕ → FindingInput → Bool
is_sla_breached dates now finding =
    is_open finding.status && is_due dates now (non_empty finding.sla_due_at)

unfoldable pub add_severity : FindingSeverity → SeverityCount → SeverityCount
add_severity critical c = record c { critical = c.critical + 1 }
add_severity high c = record c { high = c.high + 1 }
add_severity medium c = record c { medium = c.medium + 1 }
add_severity low c = record c { low = c.low + 1 }
add_severity info c = record c { info = c.info + 1 }

unfoldable pub add_bucket : AgeBucket → AgeCount → AgeCount
add_bucket week c = record c { week = c.week + 1 }
add_bucket month c = record c { month = c.month + 1 }
add_bucket quarter c = record c { quarter = c.quarter + 1 }
add_bucket older c = record c { older = c.older + 1 }

-- `byOwner[owner] = (byOwner[owner] ?? 0) + n`
unfoldable pub add_owner : String → ℕ → List (String × ℕ) → List (String × ℕ)
add_owner owner n owners = insert owner (get_or_else (lookup owner owners) 0 + n) owners

unfoldable pub count_open : Dates → ℕ → FindingInput → FindingsMetrics → FindingsMetrics
count_open dates now finding metrics = record metrics {
  open_count = metrics.open_count + 1;
  by_severity = add_severity finding.severity metrics.by_severity;
  by_owner = add_owner finding.owner 1 metrics.by_owner;
  age_buckets =
      add_bucket (finding_age_bucket (dates.parse finding.first_seen_at) now) metrics.age_buckets;
  breached = if is_sla_breached dates now finding then metrics.breached + 1 else metrics.breached;
}

unfoldable pub count_status :
    Dates → ℕ → FindingInput → FindingStatus → FindingsMetrics → FindingsMetrics
count_status dates now finding fixed metrics = record metrics { fixed = metrics.fixed + 1 }
count_status dates now finding suppressed metrics = record metrics {
  suppressed = metrics.suppressed + 1;
}
count_status dates now finding risk_accepted metrics = record metrics {
  risk_accepted = metrics.risk_accepted + 1;
}
count_status dates now finding open_finding metrics = count_open dates now finding metrics

unfoldable pub count_finding : Dates → ℕ → FindingInput → FindingsMetrics → FindingsMetrics
count_finding dates now finding metrics = count_status dates now finding finding.status (
    if finding.ticket_failed
    then record metrics { ticket_failures = metrics.ticket_failures + 1 }
    else metrics)

unfoldable pub count_findings : Dates → ℕ → List FindingInput → FindingsMetrics → FindingsMetrics
count_findings dates now [] metrics = metrics
count_findings dates now (finding ∷ rest) metrics =
    count_findings dates now rest (count_finding dates now finding metrics)

unfoldable pub sla_check : FindingsMetrics → Check
sla_check metrics = record {
  key = "findings-sla";
  status = if ltb 0 metrics.breached then failing else passing;
  summary =
      if ltb 0 metrics.breached
      then decimal metrics.breached +s " open deterministic finding(s) are past their SLA due date"
      else "No open deterministic finding is past its SLA due date";
  observed_at = none;
  age = none;
  metadata = ("open", count metrics.open_count) ∷ ("breached", count metrics.breached) ∷ [];
}

unfoldable pub ticketing_check : FindingsMetrics → Check
ticketing_check metrics = record {
  key = "findings-ticketing";
  status = if ltb 0 metrics.ticket_failures then warning else passing;
  summary =
      if ltb 0 metrics.ticket_failures
      then decimal metrics.ticket_failures
        +s " finding ticket or notification update(s) failed and will be retried"
      else "Finding tickets and notifications are up to date";
  observed_at = none;
  age = none;
  metadata = ("failures", count metrics.ticket_failures) ∷ [];
}

abbrev capacity_metadata : CapacityInput → List (String × Metadata)
capacity_metadata capacity =
    ("lastDropped", count capacity.last_dropped)
    ∷ ("lastDroppedCriticalHigh", count capacity.last_dropped_critical_high)
    ∷ ("droppedTotal", count capacity.dropped_total)
    ∷ ("untrustedMarkers", count capacity.untrusted_markers)
    ∷ []

capacity_problems : CapacityInput → List String
capacity_problems capacity =
    (if ltb 0 capacity.last_dropped
      then (decimal capacity.last_dropped
          +s " finding record(s) were dropped because the repository exceeded its lifecycle record bound")
        ∷ []
      else [])
    ++ (if ltb 0 capacity.untrusted_markers
        then (decimal capacity.untrusted_markers
            +s " issue(s) carry a finding marker but were not opened by this GitHub App and were ignored")
          ∷ []
        else [])

-- `problems.join("; ")`
join_problems : List String → String
join_problems [] = ""
join_problems (p ∷ []) = p
join_problems (p ∷ q ∷ rest) = p +s ("; " +s join_problems (q ∷ rest))

problems_status : List String → Status
problems_status [] = passing
problems_status (p ∷ rest) = warning

problems_summary : List String → String
unfolding join_problems
problems_summary [] =
    "Finding lifecycle records fit their bound and no foreign marker issue was seen"
problems_summary (p ∷ rest) = join_problems (p ∷ rest)

unfoldable pub capacity_check : CapacityInput → Check
unfolding capacity_problems problems_status problems_summary
capacity_check capacity =
    if ltb 0 capacity.last_dropped_critical_high
    then record {
      key = "findings-capacity";
      status = failing;
      summary =
          decimal capacity.last_dropped_critical_high
          +s " open Critical or High finding(s) were dropped because the repository exceeded its lifecycle record bound";
      observed_at = none;
      age = none;
      metadata = capacity_metadata capacity;
    }
    else record {
      key = "findings-capacity";
      status = problems_status (capacity_problems capacity);
      summary = problems_summary (capacity_problems capacity);
      observed_at = none;
      age = none;
      metadata = capacity_metadata capacity;
    }

capacity_checks : Option CapacityInput → List Check
capacity_checks none = []
capacity_checks (some capacity) = capacity_check capacity ∷ []

unfoldable pub evaluate_findings_lifecycle :
    Dates → ℕ → List FindingInput → Option CapacityInput → LifecycleEvaluation
unfolding capacity_checks
evaluate_findings_lifecycle dates now findings capacity =
    let metrics = count_findings dates now findings empty_metrics in
    record {
      checks = sla_check metrics ∷ ticketing_check metrics ∷ capacity_checks capacity;
      metrics = metrics;
    }
