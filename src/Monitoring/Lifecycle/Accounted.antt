-- ===== src/Monitoring/Lifecycle/Accounted.antt =====
-- `evaluateFindingsLifecycle`: lemmas on the sums of the metrics.
use guardianbot.Prelude.{◌∷◌, []}
use guardianbot.Prelude.{List, ℕ, String, ◌+◌, ◌≡◌, if◌then◌else◌, arith, ◌≤◌}
use guardianbot.Monitoring.Lifecycle.{
  add_owner, SeverityCount, AgeCount, FindingsMetrics, FindingInput, is_sla_breached, fixed,
  suppressed, risk_accepted,
}
use guardianbot.Prelude.Js.{Dates}

unfoldable pub sum_counts : List (String × ℕ) → ℕ
sum_counts [] = 0
sum_counts ((owner, n) ∷ rest) = n + sum_counts rest

pub sum-add_owner :
    (owner : String) (n : ℕ) (owners : List (String × ℕ))
    → sum_counts (add_owner owner n owners) ≡ sum_counts owners + n
unfolding sum_counts add_owner
sum-add_owner owner n [] = omega arith
sum-add_owner owner n ((o, m) ∷ rest) = ground (arith, sum-add_owner owner n rest)

abbrev pub severity_total : SeverityCount → ℕ
severity_total c = c.critical + c.high + c.medium + c.low + c.info

abbrev pub age_total : AgeCount → ℕ
age_total c = c.week + c.month + c.quarter + c.older

-- Metrics of `counted` findings, `late` of them past their due date: the five states account for all
-- findings, and the severities, the owners and the ages each account for the open ones.
pub record IsAccounted (counted late : ℕ) (m : FindingsMetrics) : Type 0 where
  pub states : m.open_count + m.fixed + m.suppressed + m.risk_accepted ≡ counted
  pub by_severity : severity_total m.by_severity ≡ m.open_count
  pub by_owner : sum_counts m.by_owner ≡ m.open_count
  pub by_age : age_total m.age_buckets ≡ m.open_count
  pub late_count : m.breached ≡ late
  pub late_open : m.breached ≤ m.open_count

late_one : Dates → ℕ → FindingInput → ℕ
late_one dates now finding = if is_sla_breached dates now finding then 1 else 0
