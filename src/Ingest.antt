-- ===== src/Ingest.antt =====
-- apps/control-plane/src/findings-lifecycle.ts: how the findings of an accepted run are merged into the
-- records of a repository.
pub mod Records
pub mod Observations
pub mod Merge
pub mod Bound
mod Examples
