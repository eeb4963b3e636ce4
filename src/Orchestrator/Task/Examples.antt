-- ===== src/Orchestrator/Task/Examples.antt =====
-- A task with two dependencies, in the cases of the theorems.
use butido.Prelude.{
  ◌≡◌, refl, true, List, [], ◌∷◌, In, here, ok, err, nat_eq, string_eq, extend, map_insert,
}
use butido.Filestore.{FileStoreImpl, FullArtifactPath, get}
use butido.Orchestrator.Task.{
  Artifacts, built, reused, perform_receive, dependencies_missing, receive_dependencies, Services,
  JobTask, send_all, quit, replacements, build, reuse_or_build, proceed, run,
}
use butido.Orchestrator.Task.Outcome.{IsOutput, run-IsOutput, run_errored, run_closed}
use butido.Orchestrator.Task.Made.{IsMade, run-IsMade}

abbrev staging : FileStoreImpl
staging = record { root_path = "staging"; store = "own-1.pkg" ∷ [] }

abbrev release : FileStoreImpl
release = record { root_path = "release"; store = "own-1.pkg" ∷ "own-1-doc.pkg" ∷ [] }

abbrev known : List FullArtifactPath
known =
    record { root = "staging"; artifact_path = "own-1.pkg" }
    ∷ record { root = "release"; artifact_path = "own-1.pkg" }
    ∷ record { root = "release"; artifact_path = "own-1-doc.pkg" }
    ∷ []

abbrev services : Services
services = record {
  RunnableJob = List FileStoreImpl;
  find_artifacts = ok known;
  staging_store = staging;
  release_stores = release ∷ [];
  build_from_job = λ artifacts. ok [];
  run_job = λ runnable. ok (ok ("own-2.pkg" ∷ []));
  is_open = λ s. true;
}

-- The job 7 needs the jobs 8 and 9; the channels 3 and 4 are those of the jobs that need it.
abbrev task : JobTask
task = record { uuid = 7; dependencies = 8 ∷ 9 ∷ []; sender = 3 ∷ 4 ∷ [] }

abbrev of_8 : Artifacts
of_8 = (8, reused "eight.pkg" ∷ []) ∷ []

abbrev of_9 : Artifacts
of_9 = (9, reused "nine.pkg" ∷ []) ∷ []

abbrev built_9 : Artifacts
built_9 = (9, built "nine.pkg" ∷ []) ∷ []

runs : Unit {0}
unfolding run proceed reuse_or_build build replacements send_all receive_dependencies
    perform_receive get extend map_insert
runs = tt

-- Nothing was built, and the database knows replacements: they are sent, each path once.
abbrev sent_reused : Artifacts
sent_reused =
    (8, reused "eight.pkg" ∷ [])
    ∷ (9, reused "nine.pkg" ∷ [])
    ∷ (7, reused "own-1.pkg" ∷ reused "own-1-doc.pkg" ∷ [])
    ∷ []

run_reuses :
    run services task (ok of_8 ∷ ok of_9 ∷ [])
    ≡ record { sent = (3, ok sent_reused) ∷ (4, ok sent_reused) ∷ []; result = ok tt }
unfolding runs
run_reuses = refl

run-IsOutput_example :
    IsOutput services task (ok of_8 ∷ ok of_9 ∷ []) sent_reused × In 3 task.sender
unfolding runs
run-IsOutput_example = run-IsOutput services task (ok of_8 ∷ ok of_9 ∷ []) (here refl)

run_errored_example :
    run services task (ok of_8 ∷ err ((9, "failed") ∷ []) ∷ [])
    ≡ record { sent = (3, err ((9, "failed") ∷ [])) ∷ []; result = ok tt }
unfolding runs
run_errored_example =
    run_errored services task (of_8 ∷ []) ((9, "failed") ∷ []) [] 3 (4 ∷ []) refl refl refl refl

run_closed_example : run services task (ok of_8 ∷ []) ≡ quit (dependencies_missing (9 ∷ []))
unfolding runs
run_closed_example = run_closed services task (of_8 ∷ []) refl

abbrev sent_built : Artifacts
sent_built =
    (8, reused "eight.pkg" ∷ []) ∷ (9, built "nine.pkg" ∷ []) ∷ (7, built "own-2.pkg" ∷ []) ∷ []

-- A dependency was built: the job is built, although the database knows replacements.
rebuilds :
    run services task (ok of_8 ∷ ok built_9 ∷ [])
    ≡ record { sent = (3, ok sent_built) ∷ (4, ok sent_built) ∷ []; result = ok tt }
unfolding runs
rebuilds = refl

run-IsMade_example : IsMade services task (ok of_8 ∷ ok built_9 ∷ []) sent_built
unfolding runs
run-IsMade_example = run-IsMade services task (ok of_8 ∷ ok built_9 ∷ []) (here refl)
