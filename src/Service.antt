-- ===== src/Service.antt =====
-- apps/control-plane/src/service.ts: the control plane's service, as far as it decides what becomes of a
-- delivery.
pub mod Deliveries
mod Examples
