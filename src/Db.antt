-- ===== src/Db.antt =====
-- What is read from and written to the database (src/db).
pub mod Environments
pub mod FindArtifacts
pub mod Examples
