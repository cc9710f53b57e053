-- ===== src/Store.antt =====
-- apps/control-plane/src/store.ts: the in-memory store, as far as its calls decide something: the queue
-- of webhook deliveries, the claims of DAST sessions, and the locks.
pub mod Payload
pub mod Retention
pub mod Webhooks
pub mod Locks
mod Examples
