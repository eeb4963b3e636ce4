-- ===== src/Orchestrator/Execution.antt =====
-- The tasks of a tree run together, and the end of `Orchestrator::run_tree`
-- (src/orchestrator/orchestrator.rs).
pub mod Complete
pub mod Success
pub mod Examples
use butido.Prelude.{
  ℕ, ◌≡◌, String, Option, none, some, List, [], ◌∷◌, In, Result, ok, err, ◌>>=◌, map_err,
}
use butido.Filestore.{ArtifactPath}
use butido.Orchestrator.Task.{
  Uuid, Artifacts, Errors, JobResult, TaskError, artifacts_of, Services, JobTask, Run, run,
}
use butido.Orchestrator.Tree.{channel}

-- What each task uses, and the messages that come in on each channel before it is closed
module _ (services : Uuid → Services) (messages : ℕ → List JobResult) where
  abbrev pub run_of : JobTask → Run
  run_of t = run (services t.uuid) t (messages (channel t.uuid))

  -- The messages of a channel are those that the tasks send to it, in some order. A full channel only
  -- delays a send.
  pub record IsExecution (tasks : List JobTask) : Type 0 where
    pub sent :
        (c : ℕ) (m : JobResult)
        → In m (messages c)
        → (t : JobTask) × In t tasks × In (c, m) (run_of t).sent
    pub arrives :
        (c : ℕ) (m : JobResult) (t : JobTask)
        → In t tasks
        → In (c, m) (run_of t).sent
        → In m (messages c)

-- `waits_forever` is no error of the source: `recv` waits for the first message as long as a sender
-- is there, and `run_tree` holds `root_sender` until its end.
pub data TreeFailure : Type 0 where
  task_failed : TaskError → TreeFailure
  waits_forever : TreeFailure

-- `collect::<Result<()>>` over the tasks in the order in which they end
unfoldable pub all_finished : List Run → Result TaskError (Unit {0})
all_finished [] = ok tt
all_finished (r ∷ runs) = do ended ← r.result; all_finished runs

-- The first message to the orchestrator
abbrev pub root_result : List JobResult → Result TreeFailure (List ArtifactPath × Errors)
root_result [] = err waits_forever
root_result (ok results ∷ more) = ok (artifacts_of results, [])
root_result (err errors ∷ more) = ok ([], errors)

unfoldable pub finish_tree :
    List Run → List JobResult → Result TreeFailure (List ArtifactPath × Errors)
unfolding all_finished
finish_tree runs messages = do ended ← map_err task_failed (all_finished runs); root_result messages
