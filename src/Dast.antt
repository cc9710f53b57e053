-- ===== src/Dast.antt =====
-- apps/control-plane/src/dast-session.ts, with the claims of apps/control-plane/src/store.ts: how a session
-- for a dynamic scan is issued, once for each attempt of a workflow.
pub mod Words
pub mod Fields
pub mod Origin
pub mod Profile
pub mod Request
pub mod Identity
pub mod Trusted
pub mod Admitted
pub mod Accepted
pub mod Approved
pub mod Profiles
pub mod Opening
pub mod Claims
pub mod Exchange
pub mod Session
pub mod Once
pub mod Ends
pub mod Issue
mod Examples
