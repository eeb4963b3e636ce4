-- ===== src/Orchestrator/Task.antt =====
-- One task of the orchestrator: `JobTask::run` and `JobTask::perform_receive`
-- (src/orchestrator/orchestrator.rs).
pub mod Receiving
pub mod Outcome
pub mod Success
pub mod Sources
pub mod Replacements
pub mod Made
mod Examples
use butido.Prelude.{
  ℕ, String, Bool, true, false, not, ◌&&◌, Option, none, some, List, [], ◌∷◌, ◌++◌, map, filter,
  any, all, is_empty, unique_by, Result, ok, err, ◌>>=◌, ◌==◌, nat_eq, string_eq, map_insert,
  contains_key, extend, if◌then◌else◌,
}
use butido.Filestore.{ArtifactPath, FileStoreImpl, get, FullArtifactPath, is_in_staging_store}

abbrev pub Uuid : Type 0
Uuid = ℕ

-- The message of an `anyhow::Error`
abbrev pub Error : Type 0
Error = String

pub data ProducedArtifact : Type 0 where
  built reused : ArtifactPath → ProducedArtifact

abbrev pub was_build : ProducedArtifact → Bool
was_build (built a) = true
was_build (reused a) = false

-- `unpack` and `borrow`
abbrev pub unpack : ProducedArtifact → ArtifactPath
unpack (built a) = a
unpack (reused a) = a

abbrev pub Artifacts : Type 0
Artifacts = List (Uuid × List ProducedArtifact)

abbrev pub Errors : Type 0
Errors = List (Uuid × Error)

-- What a task sends to the tasks that depend on it
abbrev pub JobResult : Type 0
JobResult = Result Errors Artifacts

-- The error values that end a task
pub data TaskError : Type 0 where
  dependencies_missing : List Uuid → TaskError
  channel_closed : TaskError
  external : Error → TaskError
  index_out_of_bounds : TaskError

pub record Received : Type 0 where
  pub dependencies : Artifacts
  pub errors : Errors

-- The closure `all_dependencies_are_in`
abbrev pub all_dependencies_are_in : List Uuid → Artifacts → Bool
all_dependencies_are_in deps list = all (λ d. contains_key list d) deps

-- `none` is a closed channel.
unfoldable pub perform_receive :
    List Uuid → Option JobResult → Received → Result TaskError (Bool × Received)
perform_receive deps (some (ok v)) r =
    ok (true, record r { dependencies = extend r.dependencies v })
perform_receive deps (some (err e)) r = ok (true, record r { errors = extend r.errors e })
perform_receive deps none r =
    let missing = filter (λ d. not (contains_key r.dependencies d)) deps in
    if not (is_empty r.errors)
    then ok (false, r)
    else if not (is_empty missing)
    then err (dependencies_missing missing)
    else ok (false, r)

-- How the loop of `run` ends: by an error of its own, by errors that came in, or with the results
-- of the dependencies.
pub data Reception : Type 0 where
  failed : TaskError → Reception
  errored : Errors → Reception
  ready : Artifacts → Reception

-- What follows a receive in the loop: `again` is the next round.
abbrev pub after_receive : Result TaskError (Bool × Received) → (Received → Reception) → Reception
after_receive (err e) again = failed e
after_receive (ok (continue, r)) again =
    let next = again r in
    if not (is_empty r.errors)
    then errored r.errors
    else if not continue
    then ready r.dependencies
    else next

-- The `while` loop. The messages that will come in before the channel is closed are given. When
-- none is left the loop does not go round: `perform_receive` then never returns `Ok(true)`.
unfoldable pub receive_dependencies : List Uuid → List JobResult → Received → Reception
receive_dependencies deps [] r =
    if all_dependencies_are_in deps r.dependencies
    then ready r.dependencies
    else after_receive (perform_receive deps none r) (λ r'. ready r'.dependencies)
receive_dependencies deps (m ∷ messages) r =
    let more =
      after_receive (perform_receive deps (some m) r) (receive_dependencies deps messages) in
    if all_dependencies_are_in deps r.dependencies then ready r.dependencies else more

-- What a task uses of the other components: the replacement artifacts that the database finds, the
-- stores, the construction of the runnable job from the artifacts of the dependencies, a run of it
-- on the scheduler, and which channels are still open.
pub record Services : Type 1 where
  pub RunnableJob : Type 0
  pub find_artifacts : Result Error (List FullArtifactPath)
  pub staging_store : FileStoreImpl
  pub release_stores : List FileStoreImpl
  pub build_from_job : List ArtifactPath → Result Error RunnableJob
  pub run_job : RunnableJob → Result Error (Result Error (List ArtifactPath))
  pub is_open : ℕ → Bool

pub record JobTask : Type 0 where
  pub uuid : Uuid
  pub dependencies : List Uuid
  pub sender : List ℕ

-- What a task has sent, and to which channel, and how it ended
pub record Run : Type 0 where
  pub sent : List (ℕ × JobResult)
  pub result : Result TaskError (Unit {0})

abbrev pub quit : TaskError → Run
quit e = record { sent = []; result = err e }

-- `any_dependency_was_built`
abbrev pub any_built : Artifacts → Bool
any_built received = any (λ e. any was_build e.1) received

-- `.values().flat_map(…)`. The order in which a `HashMap` gives its values is not known; here it is
-- that of the entries.
abbrev pub artifacts_of : Artifacts → List ArtifactPath
artifacts_of [] = []
artifacts_of ((u, artifacts) ∷ more) = map unpack artifacts ++ artifacts_of more

abbrev pub first_in : List FileStoreImpl → ArtifactPath → Option ArtifactPath
first_in [] p = none
first_in (s ∷ stores) p = elim (get s p) [ some q ↦ some q | none ↦ first_in stores p ]

-- `for s in self.sender.iter() { s.send(Ok(…)).await?; }`
unfoldable pub send_all : (ℕ → Bool) → List ℕ → JobResult → Run
send_all is_open [] message = record { sent = []; result = ok tt }
send_all is_open (s ∷ senders) message =
    let rest = send_all is_open senders message in
    if is_open s
    then record { sent = (s, message) ∷ rest.sent; result = rest.result }
    else quit channel_closed

-- `self.sender[0].send(Err(errors)).await`, its result dropped
abbrev pub send_first_unchecked : (ℕ → Bool) → List ℕ → Errors → Run
send_first_unchecked is_open [] errors = quit index_out_of_bounds
send_first_unchecked is_open (s ∷ senders) errors =
    if is_open s
    then record { sent = (s, err errors) ∷ []; result = ok tt }
    else record { sent = []; result = ok tt }

-- `self.sender[0].send(Err(errormap)).await?`
abbrev pub send_first : (ℕ → Bool) → List ℕ → Errors → Run
send_first is_open [] errors = quit index_out_of_bounds
send_first is_open (s ∷ senders) errors =
    if is_open s
    then record { sent = (s, err errors) ∷ []; result = ok tt }
    else quit channel_closed

module _ (services : Services) (task : JobTask) where
  open services use {
    find_artifacts, staging_store, release_stores, build_from_job, run_job, is_open,
  }

  -- The staging store, else the first release store that has the artifact
  abbrev pub fetch : FullArtifactPath → Option ArtifactPath
  fetch p = elim (get staging_store p.artifact_path) [
    | some a ↦ some a
    | none ↦ first_in release_stores p.artifact_path
  ]

  abbrev pub prepend_reused : Option ArtifactPath → List ProducedArtifact → List ProducedArtifact
  prepend_reused none rest = rest
  prepend_reused (some a) rest = reused a ∷ rest

  -- `filter_map(…)` with `map(ProducedArtifact::Reused)`
  abbrev pub fetch_all : List FullArtifactPath → List ProducedArtifact
  fetch_all [] = []
  fetch_all (p ∷ ps) = prepend_reused (fetch p) (fetch_all ps)

  -- `sorted_by` is stable, and `false` comes first.
  unfoldable pub replacements : List FullArtifactPath → List ProducedArtifact
  replacements found = fetch_all (
      unique_by (λ p. p.artifact_path)
        (filter (λ p. not (is_in_staging_store p staging_store)) found
          ++ filter (λ p. is_in_staging_store p staging_store) found))

  abbrev pub schedule : Artifacts → Result Error (Result Error (List ArtifactPath)) → Run
  schedule received (err e) = quit (external e)
  schedule received (ok (err e)) = send_first is_open task.sender (map_insert task.uuid e [])
  schedule received (ok (ok artifacts)) =
      send_all is_open task.sender (ok (map_insert task.uuid (map built artifacts) received))

  unfoldable pub build : Artifacts → Run
  build received =
      schedule received (do runnable ← build_from_job (artifacts_of received); run_job runnable)

  unfoldable pub reuse_or_build : Artifacts → Result Error (List FullArtifactPath) → Run
  unfolding build replacements
  reuse_or_build received (err e) = quit (external e)
  reuse_or_build received (ok found) =
      let artifacts = replacements found in
      if not (is_empty artifacts)
      then send_all is_open task.sender (ok (map_insert task.uuid artifacts received))
      else build received

  unfoldable pub proceed : Reception → Run
  unfolding reuse_or_build
  proceed (failed e) = quit e
  proceed (errored errors) = send_first_unchecked is_open task.sender errors
  proceed (ready received) =
      if not (any_built received) then reuse_or_build received find_artifacts else build received

  unfoldable pub run : List JobResult → Run
  unfolding proceed receive_dependencies
  run messages =
      proceed (
        receive_dependencies task.dependencies messages (record { dependencies = []; errors = [] }))
