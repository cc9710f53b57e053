-- ===== src/Monitoring.antt =====
-- packages/monitoring/src: the checks on runs, evidence, indexes, suppressions and findings.
pub mod Status
pub mod Suppressions
pub mod Freshness
pub mod ExpectedRuns
pub mod Evidence
pub mod Lifecycle
pub mod Repository
pub mod Weekly
mod Examples
