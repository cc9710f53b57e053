-- ===== src/Monitoring/Weekly.antt =====
-- packages/monitoring/src/weekly-report.ts: the weekly report on a fleet of repositories. Costs and ratios
-- are floating-point numbers of the engine, a parameter.
pub mod Values
pub mod Findings
pub mod Quantile
pub mod Rank
pub mod Ranking
pub mod Owners
mod Examples
pub mod Report
pub mod Totals
use guardianbot.Prelude.{ℕ, String, List, Option, ◌∷◌, ◌+◌, ◌<◌, ◌^◌, ◌≡◌, ◌*◌, ◌/◌}
use guardianbot.Prelude.Js.{Number}
use guardianbot.Monitoring.Status.{InventoryState}
use guardianbot.Monitoring.Lifecycle.{FindingsMetrics}
use mathlib.Core.List.{[]}

-- The engine's floating-point numbers, as far as the report computes with them.
pub record Floats : Type 1 where
  pub Float : Type 0
  pub float_zero : Float
  pub float_add : Float → Float → Float
  -- `Number(x.toFixed(4))`
  pub to_fixed_4 : Float → Float
  pub quotient : ℕ → ℕ → Float
  -- `Math.ceil(n * fraction)`, of a fraction that is not negative
  pub ceil_times : ℕ → Float → ℕ
  -- the literals 0.5 and 0.95, by which an array's length, below 2 ^ 32, is rounded up as the exact products are
  pub half : Float
  pub ninety_five : Float
  pub ceil_times-half : (n : ℕ) → n < 2 ^ 32 → ceil_times n half ≡ (n * 50 + 99) / 100
  pub ceil_times-ninety_five : (n : ℕ) → n < 2 ^ 32 → ceil_times n ninety_five ≡ (n * 95 + 99) / 100

pub data Visibility : Type 0 where
  public_repository : Visibility
  private_repository : Visibility

-- `ReviewValueCounts`, as retained records give them and as they are added up.
pub record RawCounts : Type 0 where
  pub fixed : Number
  pub dismissed : Number
  pub ignored : Number
  pub unresolved : Number

pub record ReviewMetrics (floats : Floats) : Type 0 where
  pub prs_reviewed : ℕ
  pub advisory_findings_opened : ℕ
  pub advisory_findings_accepted : ℕ
  pub advisory_findings_dismissed : ℕ
  pub advisory_findings_resolved : ℕ
  pub deterministic_blockers_opened : ℕ
  pub bridge_failures : ℕ
  pub partial_reviews : ℕ
  pub latency_samples_ms : Option (List ℕ)
  pub input_units : Option ℕ
  pub output_units : Option ℕ
  pub estimated_cost_usd : Option floats.Float

pub record ScannerMetrics : Type 0 where
  pub expected_runs : ℕ
  pub successful_runs : ℕ
  pub evidence_complete_runs : ℕ
  pub missing_evidence_alerts : ℕ
  pub import_lag_samples_ms : Option (List ℕ)

pub record MonitoringMetrics : Type 0 where
  pub fresh_indexes : ℕ
  pub stale_indexes : ℕ
  pub expired_suppressions : ℕ
  pub expiring_suppressions : ℕ
  pub protected_digests : ℕ
  pub complete_evidence_digests : ℕ
  pub missing_evidence_digests : ℕ

pub record RepositoryWeeklyMetrics (floats : Floats) : Type 0 where
  pub repository : String
  pub visibility : Visibility
  pub inventory_state : InventoryState
  pub review : ReviewMetrics floats
  -- `reviewValue?.byCategory`
  pub review_value : Option (List (String × RawCounts))
  pub scanner : ScannerMetrics
  pub monitoring : MonitoringMetrics
  pub findings : Option FindingsMetrics

-- `sum`
unfoldable pub sum : List ℕ → ℕ
sum [] = 0
sum (x ∷ xs) = x + sum xs
