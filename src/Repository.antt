-- ===== src/Repository.antt =====
-- The repository of packages (src/repository).
pub mod Paths
pub mod Representation
pub mod Search
