-- ===== src/Job.antt =====
-- Jobs and what makes them runnable (src/job/job.rs, resource.rs and runnable.rs).
pub mod Runnable
pub mod Dag
pub mod Examples
use butido.Prelude.{
  String, Bool, true, false, not, Option, none, some, List, [], ◌∷◌, ◌++◌, map, any, Result, ok,
  err, ◌>>=◌, ◌==◌, string_eq, if◌then◌else◌,
}
use butido.Package.Condition.{EnvironmentVariableName, ImageName}
use butido.Package.Types.{Package}
use butido.Filestore.{ArtifactPath}
use butido.Orchestrator.Task.{Uuid, Error}

abbrev pub Environment : Type 0
Environment = List (EnvironmentVariableName × String)

pub data JobResource : Type 0 where
  environment : EnvironmentVariableName → String → JobResource
  artifact : ArtifactPath → JobResource

-- `JobResource::env` and `JobResource::artifact`
abbrev pub env : JobResource → Option (EnvironmentVariableName × String)
env (environment k v) = some (k, v)
env (artifact a) = none

abbrev pub artifact_of : JobResource → Option ArtifactPath
artifact_of (environment k v) = none
artifact_of (artifact a) = some a

-- `From<(EnvironmentVariableName, String)>`
abbrev pub of_pair : EnvironmentVariableName × String → JobResource
of_pair (k, v) = environment k v

-- The script's shebang and phases are strings.
pub record Job : Type 0 where
  pub uuid : Uuid
  pub package' : Package
  pub image : ImageName
  pub script_shebang : String
  pub script_phases : List String
  pub resources : List JobResource

abbrev pub Script : Type 0
Script = String

-- The cache of the sources is left out.
pub record RunnableJob : Type 0 where
  pub uuid : Uuid
  pub package' : Package
  pub image : ImageName
  pub script : Script
  pub resources : List JobResource

-- What `build_from_job` reads of the configuration, and the builder of scripts
pub record JobConfig : Type 0 where
  pub check_env_names : Bool
  pub allowed_env : List EnvironmentVariableName
  pub strict_script_interpolation : Bool
  pub build_script : String → Package → List String → Bool → Result Error Script

pub data JobError : Type 0 where
  name_not_allowed : EnvironmentVariableName → JobError
  script_error : Error → JobError

-- `filter_map(JobResource::env)`
abbrev pub envs : List JobResource → Environment
envs [] = []
envs (environment k v ∷ rs) = (k, v) ∷ envs rs
envs (artifact a ∷ rs) = envs rs

abbrev pub artifacts : List JobResource → List ArtifactPath
artifacts [] = []
artifacts (environment k v ∷ rs) = artifacts rs
artifacts (artifact a ∷ rs) = a ∷ artifacts rs

-- `filter(|jr| jr.env().is_some())`
abbrev pub only_envs : List JobResource → List JobResource
only_envs [] = []
only_envs (environment k v ∷ rs) = environment k v ∷ only_envs rs
only_envs (artifact a ∷ rs) = only_envs rs

-- `as_ref().map(|hm| hm.iter()).into_iter().flatten()`
abbrev pub entries : Option Environment → Environment
entries none = []
entries (some hm) = hm

abbrev pub into_iter : Option (EnvironmentVariableName × String) → Environment
into_iter none = []
into_iter (some e) = e ∷ []

-- The closure of `try_for_each`, over the pairs
unfoldable pub check_names : List EnvironmentVariableName → Environment → Result JobError (Unit {0})
check_names allowed [] = ok tt
check_names allowed ((name, value) ∷ more) =
    let rest = check_names allowed more in
    if not (any (λ n. n == name) allowed) then err (name_not_allowed name) else rest

abbrev pub script_result : Result Error Script → Result JobError Script
script_result (ok s) = ok s
script_result (err e) = err (script_error e)

module _ (config : JobConfig) (job : Job)
    (git_author_env git_commit_env : Option (EnvironmentVariableName × String)) where
  abbrev pub checked : Environment
  checked =
      envs job.resources
      ++ entries job.package'.environment
      ++ into_iter git_author_env
      ++ into_iter git_commit_env

  abbrev pub run_resources : List ArtifactPath → List JobResource
  run_resources dependencies =
      map (λ a. artifact a) dependencies
      ++ only_envs job.resources
      ++ map of_pair (into_iter git_author_env)
      ++ map of_pair (into_iter git_commit_env)

  -- The check of the names, where it is on
  abbrev pub names_allowed : Result JobError (Unit {0})
  names_allowed = if config.check_env_names then check_names config.allowed_env checked else ok tt

  abbrev pub built_script : Result JobError Script
  built_script = script_result (
      config.build_script job.script_shebang job.package' job.script_phases
        config.strict_script_interpolation)

  abbrev pub runnable : List ArtifactPath → Script → RunnableJob
  runnable dependencies script = record {
    uuid = job.uuid;
    package' = job.package';
    image = job.image;
    script = script;
    resources = run_resources dependencies;
  }

  unfoldable pub build_from_job : List ArtifactPath → Result JobError RunnableJob
  unfolding check_names
  build_from_job dependencies = do
    allowed ← names_allowed
    script ← built_script
    ok (runnable dependencies script)

-- `RunnableJob::environment`
unfoldable pub environment_of : RunnableJob → Environment
environment_of r = envs r.resources ++ entries r.package'.environment
