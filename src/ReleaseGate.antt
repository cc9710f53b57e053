-- ===== src/ReleaseGate.antt =====
-- apps/control-plane/src/release-gate-policy.ts: the release gate.
pub mod Types
pub mod Pushes
pub mod Policy
pub mod Scope
pub mod Evidence
pub mod Coverage
pub mod Findings
pub mod Evaluate
mod Examples
