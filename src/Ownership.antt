-- ===== src/Ownership.antt =====
-- apps/control-plane/src/findings-lifecycle.ts: who owns a finding.
pub mod Glob
pub mod Owner
mod Examples
