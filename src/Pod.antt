-- ===== src/Pod.antt =====
-- api/pod_lifecycle.py: the stages of a proof of delivery, and their store behind a web API.
pub mod Lifecycle
pub mod Store
mod Tests
