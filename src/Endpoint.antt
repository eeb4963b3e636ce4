-- ===== src/Endpoint.antt =====
-- The endpoints on which jobs run (src/endpoint).
pub mod Container
pub mod Scheduler
pub mod Setup
pub mod JobHandle
