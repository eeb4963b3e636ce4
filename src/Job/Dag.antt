-- ===== src/Job/Dag.antt =====
-- The graph of the jobs (src/job/dag.rs), made from that of the packages.
pub mod Tree
pub mod Packages
mod Examples
use butido.Prelude.{ℕ, zero, suc, String, Option, none, some, List, [], ◌∷◌, get_elem?}
use butido.Package.Condition.{ImageName}
use butido.Package.Types.{Package}
use butido.Orchestrator.Task.{Uuid}
use butido.Orchestrator.Tree.{JobDefinition}
use butido.Job.{Job, JobResource}

-- What all jobs of a graph have
pub record JobSettings : Type 0 where
  pub script_shebang : String
  pub image : ImageName
  pub phases : List String
  pub resources : List JobResource

-- `Uuid::new_v4` draws the UUID of each node; the nodes and edges of a mapped graph keep their
-- indices. `neighbors` are petgraph's `neighbors_directed(idx, Outgoing)`.
module _ (settings : JobSettings) (new_v4 : ℕ → Uuid) (neighbors : ℕ → List ℕ) where
  -- `Job::new`
  abbrev pub new_job : ℕ → Package → Job
  new_job idx p = record {
    uuid = new_v4 idx;
    package' = p;
    image = settings.image;
    script_shebang = settings.script_shebang;
    script_phases = settings.phases;
    resources = settings.resources;
  }

  -- The nodes from an index on
  abbrev pub jobs_from : ℕ → List Package → List Job
  jobs_from idx [] = []
  jobs_from idx (p ∷ ps) = new_job idx p ∷ jobs_from (suc idx) ps

  unfoldable pub from_package_dag : List Package → List Job
  from_package_dag nodes = jobs_from 0 nodes

  abbrev pub prepend_uuid : Option Job → List Uuid → List Uuid
  prepend_uuid none rest = rest
  prepend_uuid (some j) rest = j.uuid ∷ rest

  -- `children.filter_map(…).map(Job::uuid)`
  abbrev pub children_uuids : List Job → List ℕ → List Uuid
  children_uuids jobs [] = []
  children_uuids jobs (idx ∷ children) =
      prepend_uuid (get_elem? jobs idx) (children_uuids jobs children)

  -- The definitions of the nodes from an index on
  abbrev pub definitions_from : List Job → ℕ → List Job → List JobDefinition
  definitions_from dag idx [] = []
  definitions_from dag idx (j ∷ js) =
      record { job = j.uuid; dependencies = children_uuids dag (neighbors idx) }
      ∷ definitions_from dag (suc idx) js

  unfoldable pub iter : List Job → List JobDefinition
  iter dag = definitions_from dag 0 dag
