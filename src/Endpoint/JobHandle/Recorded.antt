-- ===== src/Endpoint/JobHandle/Recorded.antt =====
-- The environment that a run records (src/endpoint/scheduler.rs) is found again
-- (src/db/find_artifacts.rs).
use butido.Db.FindArtifacts.{FindArtifacts}
