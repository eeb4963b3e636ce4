-- ===== src/Job/Examples.antt =====
-- A job of a package with one variable, with and without a check of the names.
use butido.Prelude.{
  String, ◌≡◌, refl, true, false, ◌⊎◌, Option, some, none, [], ◌∷◌, any, In, here, there, ok, err,
  ◌==◌, string_eq,
}
use butido.Package.Types.{Package}
use butido.Job.{
  environment, artifact, Job, RunnableJob, JobConfig, name_not_allowed, script_error, artifacts,
  check_names, checked, build_from_job, environment_of,
}
use butido.Job.Runnable.{build_from_job-resources, build_from_job-allowed, build_from_job-refused}

abbrev pub hello : Package
hello = record {
  name = "hello";
  version = "1";
  version_is_semver = false;
  sources = [];
  dependencies = record { build = []; runtime = [] };
  patches = [];
  environment = some (("CFLAGS", "-O2") ∷ []);
  allowed_images = none;
  denied_images = none;
  phases = [];
  meta = none;
}

abbrev job : Job
job = record {
  uuid = 7;
  package' = hello;
  image = "debian";
  script_shebang = "#!/bin/sh";
  script_phases = "build" ∷ [];
  resources = environment "LANG" "C" ∷ artifact "old-1.pkg" ∷ [];
}

abbrev config : JobConfig
config = record {
  check_env_names = true;
  allowed_env = "CFLAGS" ∷ "LANG" ∷ "AUTHOR" ∷ [];
  strict_script_interpolation = true;
  build_script = λ shebang p phases strict. ok "make";
}

abbrev author : Option (String × String)
author = some ("AUTHOR", "me")

abbrev pub made : RunnableJob
made = record {
  uuid = 7;
  package' = hello;
  image = "debian";
  script = "make";
  resources = artifact "dep-1.pkg" ∷ environment "LANG" "C" ∷ environment "AUTHOR" "me" ∷ [];
}

makes : build_from_job config job author none ("dep-1.pkg" ∷ []) ≡ ok made
unfolding build_from_job check_names
makes = refl

build_from_job-resources_example :
    (artifacts made.resources ≡ "dep-1.pkg" ∷ [])
    × (environment_of made ≡ ("LANG", "C") ∷ ("AUTHOR", "me") ∷ ("CFLAGS", "-O2") ∷ [])
build_from_job-resources_example =
    build_from_job-resources config job author none ("dep-1.pkg" ∷ []) makes

cflags_inside : In ("CFLAGS", "-O2") (environment_of made)
unfolding environment_of
cflags_inside = there (there (here refl))

build_from_job-allowed_example : In "CFLAGS" config.allowed_env
build_from_job-allowed_example =
    build_from_job-allowed config job author none ("dep-1.pkg" ∷ []) refl makes ("CFLAGS", "-O2")
      cflags_inside

-- The variable of a commit is not allowed.
abbrev commit : Option (String × String)
commit = some ("COMMIT", "abc")

refuses :
    build_from_job config job author commit ("dep-1.pkg" ∷ []) ≡ err (name_not_allowed "COMMIT")
unfolding build_from_job check_names
refuses = refl

build_from_job-refused_example :
    ((e : String × String) × In e (checked config job author commit)
      × (name_not_allowed e.0 ≡ name_not_allowed "COMMIT")
      × (config.check_env_names ≡ true)
      × (any (λ n. n == e.0) config.allowed_env ≡ false))
    ⊎ ((y : String) × (script_error y ≡ name_not_allowed "COMMIT")
        × (config.build_script job.script_shebang job.package' job.script_phases
              config.strict_script_interpolation
            ≡ err y))
build_from_job-refused_example =
    build_from_job-refused config job author commit ("dep-1.pkg" ∷ []) refuses
