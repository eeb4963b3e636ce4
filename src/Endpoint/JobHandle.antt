-- ===== src/Endpoint/JobHandle.antt =====
-- The run of a job on its endpoint: `JobHandle::run` and `create_env_in_db`
-- (src/endpoint/scheduler.rs).
pub mod Outcome
pub mod Recorded
mod Examples
use butido.Prelude.{
  String, Bool, true, false, Option, none, some, List, [], ◌∷◌, ◌++◌, map, Result, ok, err, ◌>>=◌,
  map_ok, collect,
}
use butido.Filestore.{ArtifactPath, FileStoreImpl, get}
use butido.Orchestrator.Task.{Error}
use butido.Job.{Environment, RunnableJob, envs, entries}
use butido.Endpoint.Container.{
  ExitInfo, ScriptRun, execute_script, FinalizedContainer, Finishing, finalize,
}

-- What the run uses: the database, the container, and the collected log. `create_or_fetch` stands
-- for the endpoint, the package and the image.
pub record Backend : Type 0 where
  pub create_or_fetch : Result Error (Unit {0})
  pub env_create_or_fetch : String × String → Result Error (Unit {0})
  pub prepare_container : Result Error (Unit {0})
  pub start : Result Error (Unit {0})
  pub script_run : ScriptRun
  pub log : Result Error String
  pub job_create : String → Result Error (Unit {0})
  pub job_env_create : String × String → Result Error (Unit {0})
  pub finishing : Finishing
  pub artifact_create : ArtifactPath → Result Error (Unit {0})

-- The variables of the package, and those of the resources
abbrev pub env_of_job : RunnableJob → Environment
env_of_job job = entries job.package'.environment ++ envs job.resources

module _ (b : Backend) where
  abbrev pub create_env : String × String → Result Error (String × String)
  create_env e = map_ok (λ u. e) (b.env_create_or_fetch e)

  -- `collect` of the chain of the two iterators
  unfoldable pub create_env_in_db : RunnableJob → Result Error Environment
  create_env_in_db job = collect (map create_env (env_of_job job))

  unfoldable pub create_job_envs : Environment → Result Error (Unit {0})
  create_job_envs [] = ok tt
  create_job_envs (e ∷ more) = do created ← b.job_env_create e; create_job_envs more

  abbrev pub or_not_in_store : Option ArtifactPath → Result Error ArtifactPath
  or_not_in_store none = err "Artifact not in store"
  or_not_in_store (some a) = ok a

  -- The loop over the paths
  unfoldable pub create_artifacts :
      FileStoreImpl → List ArtifactPath → Result Error (List ArtifactPath)
  create_artifacts staging [] = ok []
  create_artifacts staging (p ∷ paths) = do
    created ← b.artifact_create p
    a ← or_not_in_store (get staging p)
    rest ← create_artifacts staging paths
    ok (a ∷ rest)

  -- The staging store after the run, and the result of the script
  abbrev pub Outcome : Type 0
  Outcome = FileStoreImpl × Result String (List ArtifactPath)

  abbrev pub of_exit :
      FileStoreImpl → List ArtifactPath → Result String (Unit {0}) → Result Error Outcome
  of_exit staging paths (err msg) = ok (staging, err msg)
  of_exit staging paths (ok u) = map_ok (λ r. (staging, ok r)) (create_artifacts staging paths)

  -- From the result of the container on
  unfoldable pub record_result :
      Environment → ExitInfo → String → FileStoreImpl → Result Error Outcome
  unfolding create_job_envs create_artifacts
  record_result environment exit log staging = do
    job ← b.job_create log
    mapped ← create_job_envs environment
    finished ← finalize b.finishing exit staging
    of_exit finished.0 finished.1.artifacts finished.1.exit_info

  unfoldable pub run_on : RunnableJob → FileStoreImpl → Result Error Outcome
  unfolding create_env_in_db record_result
  run_on job staging = do
    fetched ← b.create_or_fetch
    environment ← create_env_in_db job
    prepared ← b.prepare_container
    started ← b.start
    log ← b.log
    exit ← execute_script b.script_run
    record_result environment exit log staging
