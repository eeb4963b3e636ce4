-- ===== src/Package.antt =====
-- The packages of a repository and what is computed from them (src/package).
pub mod Condition
pub mod Types
pub mod Dependency
pub mod Dag
