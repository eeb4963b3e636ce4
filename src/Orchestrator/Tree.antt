-- ===== src/Orchestrator/Tree.antt =====
-- How `Orchestrator::run_tree` wires the tasks of a tree of jobs (src/orchestrator/orchestrator.rs).
pub mod Senders
pub mod Wiring
pub mod Total
mod Examples
use butido.Prelude.{
  ℕ, zero, suc, Bool, true, false, Option, none, some, List, [], ◌∷◌, map, filter, any, find,
  is_empty, Result, ok, err, ◌>>=◌, map_ok, collect, ◌==◌, nat_eq, if◌then◌else◌,
}
use butido.Orchestrator.Task.{Uuid, JobTask}

-- `JobDefinition` (src/job/dag.rs), with the job's UUID for the job
pub record JobDefinition : Type 0 where
  pub job : Uuid
  pub dependencies : List Uuid

pub data TreeError : Type 0 where
  depends_on_itself : Uuid → TreeError
  no_root_task : TreeError

-- The channel of the orchestrator itself, and the channel of a task
abbrev pub root_channel : ℕ
root_channel = 0

abbrev pub channel : Uuid → ℕ
channel u = suc u

abbrev pub depends_on : Uuid → JobDefinition → Bool
depends_on u j = any (λ d. d == u) j.dependencies

-- The `map` that refuses a job which depends on itself
abbrev pub sender_of : JobDefinition → JobDefinition → Result TreeError ℕ
sender_of job j = if j.job == job.job then err (depends_on_itself job.job) else ok (channel j.job)

abbrev pub none_if_empty : List ℕ → Option (List ℕ)
none_if_empty [] = none
none_if_empty (s ∷ ss) = some (s ∷ ss)

-- The senders of a job: the channels of the jobs that depend on it, `none` for the root
unfoldable pub senders_of : List JobDefinition → JobDefinition → Result TreeError (Option (List ℕ))
senders_of jobs job =
    map_ok none_if_empty (collect (map (sender_of job) (filter (depends_on job.job) jobs)))

abbrev pub Wired : Type 0
Wired = JobDefinition × Option (List ℕ)

-- The loop that associates every job with its senders
unfoldable pub associate : List JobDefinition → List JobDefinition → Result TreeError (List Wired)
unfolding senders_of
associate jobs [] = ok []
associate jobs (job ∷ rest) = do
  senders ← senders_of jobs job
  wired ← associate jobs rest
  ok ((job, senders) ∷ wired)

abbrev pub is_root : Wired → Bool
is_root (job, none) = true
is_root (job, some s) = false

-- `prep.3.into_inner().unwrap_or_else(|| vec![root_sender.clone()])`
abbrev pub job_task : Wired → JobTask
job_task (j, none) = record {
  uuid = j.job;
  dependencies = j.dependencies;
  sender = root_channel ∷ [];
}
job_task (j, some s) = record { uuid = j.job; dependencies = j.dependencies; sender = s }

abbrev pub root_of : Option Wired → List JobTask → Result TreeError (Uuid × List JobTask)
root_of none tasks = err no_root_task
root_of (some w) tasks = ok (w.0.job, tasks)

abbrev pub with_root : List Wired → Result TreeError (Uuid × List JobTask)
with_root wired = root_of (find is_root wired) (map job_task wired)

-- The root job and the tasks that `run_tree` starts
unfoldable pub wire : List JobDefinition → Result TreeError (Uuid × List JobTask)
unfolding associate
wire jobs = do wired ← associate jobs jobs; with_root wired
