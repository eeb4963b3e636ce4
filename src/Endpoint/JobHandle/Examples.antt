-- ===== src/Endpoint/JobHandle/Examples.antt =====
-- The run of a job that writes an artifact, and of one that fails.
use butido.Prelude.{some, none, String, ◌≡◌, refl, true, [], ◌∷◌, ok, err, Result, string_eq}
use butido.Filestore.{FileStoreImpl, get}
use butido.Log.{LogItem, state}
use butido.Orchestrator.Task.{Error}
use butido.Job.{Environment, envs}
use butido.Job.Examples.{hello, made}
use butido.Db.FindArtifacts.{Row, is_file, FindArtifacts}
use butido.Endpoint.Container.{execute_script, finalize, exit_info}
use butido.Endpoint.JobHandle.{
  Backend, create_env_in_db, create_job_envs, create_artifacts, record_result, run_on,
}
use butido.Endpoint.JobHandle.Outcome.{Ends, run_on-Ends}

abbrev staging : FileStoreImpl
staging = record { root_path = "staging"; store = [] }

abbrev written : FileStoreImpl
written = record { root_path = "staging"; store = "hello-1.pkg" ∷ [] }

abbrev parse_state : String → Result Error LogItem
parse_state text = ok (state (err text))

abbrev parse_success : String → Result Error LogItem
parse_success text = ok (state (ok tt))

abbrev backend : (String → Result Error LogItem) → Backend
backend parse = record {
  create_or_fetch = ok tt;
  env_create_or_fetch = λ e. ok tt;
  prepare_container = ok tt;
  start = ok tt;
  script_run = record { lines = ok "make" ∷ []; parse = parse; send = λ item. ok tt };
  log = ok "make";
  job_create = λ log. ok tt;
  job_env_create = λ e. ok tt;
  finishing = record { write_files = λ s. ok (written, "hello-1.pkg" ∷ []); stop = ok tt };
  artifact_create = λ p. ok tt;
}

runs : Unit {0}
unfolding run_on create_env_in_db record_result create_job_envs create_artifacts execute_script
    finalize exit_info get
runs = tt

succeeds : run_on (backend parse_success) made staging ≡ ok (written, ok ("hello-1.pkg" ∷ []))
unfolding runs
succeeds = refl

fails : run_on (backend parse_state) made staging ≡ ok (staging, err "make")
unfolding runs
fails = refl

run_on-Ends_example : Ends (backend parse_success) staging written (ok ("hello-1.pkg" ∷ []))
run_on-Ends_example =
    run_on-Ends (backend parse_success) made staging written (ok ("hello-1.pkg" ∷ [])) succeeds

abbrev recorded : Environment
recorded = ("CFLAGS", "-O2") ∷ ("LANG", "C") ∷ ("AUTHOR", "me") ∷ []

abbrev row : Row
row = record {
  name = "hello";
  version = "1";
  image = "debian";
  script_text = "make";
  path = "hello-1.pkg";
  env = ok recorded;
  release = ok none;
}

-- The search for the artifacts of the job, after its run
abbrev search : FindArtifacts
search = record {
  rows = ok (row ∷ []);
  kind = λ root path. is_file;
  is_relative = λ p. true;
  build_script = ok "make";
  release_stores = [];
  staging_store = some written;
  script_filter = true;
  env_filter = envs made.resources;
  image_name = some "debian";
  package' = hello;
}
