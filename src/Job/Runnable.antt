-- ===== src/Job/Runnable.antt =====
-- What a runnable job gets from a job (src/job/runnable.rs).
use butido.Prelude.{
  ◌≡◌, refl, sym, ◌∙◌, ap, subst, ◌⊎◌, inl, inr, String, true, false, Option, List, [], ◌∷◌, ◌++◌,
  arith, map, any, In, here, there, not-In-nil, In-append, In-append_left, In-append_right,
  In-of_any, Result, ok, err, ◌>>=◌, >>=-eq-ok, >>=-eq-err, ◌==◌, string_eq, Bool-cases,
  if◌then◌else◌,
}
use butido.Package.Condition.{EnvironmentVariableName}
use butido.Filestore.{ArtifactPath}
use butido.Package.Types.{Package}
use butido.Orchestrator.Task.{Error}
use butido.Job.{
  Environment, JobResource, environment, artifact, of_pair, Job, RunnableJob, JobConfig, JobError,
  name_not_allowed, script_error, envs, artifacts, only_envs, entries, into_iter, check_names,
  script_result, Script, names_allowed, built_script, runnable, checked, build_from_job,
  environment_of,
}

envs-parts :
    (deps : List ArtifactPath) (rs : List JobResource) (p q : Environment)
    → envs (map (λ a. artifact a) deps ++ only_envs rs ++ map of_pair p ++ map of_pair q)
      ≡ envs rs ++ p ++ q
envs-parts [] [] [] [] = refl
envs-parts [] [] [] ((k, v) ∷ q) = ap (λ (l : Environment). (k, v) ∷ l) (envs-parts [] [] [] q)
envs-parts [] [] ((k, v) ∷ p) q = ap (λ (l : Environment). (k, v) ∷ l) (envs-parts [] [] p q)
envs-parts [] (environment k v ∷ rs) p q =
    ap (λ (l : Environment). (k, v) ∷ l) (envs-parts [] rs p q)
envs-parts [] (artifact a ∷ rs) p q = envs-parts [] rs p q
envs-parts (a ∷ deps) rs p q = envs-parts deps rs p q

artifacts-parts :
    (deps : List ArtifactPath) (rs : List JobResource) (p q : Environment)
    → artifacts (map (λ a. artifact a) deps ++ only_envs rs ++ map of_pair p ++ map of_pair q)
      ≡ deps
artifacts-parts [] [] [] [] = refl
artifacts-parts [] [] [] ((k, v) ∷ q) = artifacts-parts [] [] [] q
artifacts-parts [] [] ((k, v) ∷ p) q = artifacts-parts [] [] p q
artifacts-parts [] (environment k v ∷ rs) p q = artifacts-parts [] rs p q
artifacts-parts [] (artifact a ∷ rs) p q = artifacts-parts [] rs p q
artifacts-parts (a ∷ deps) rs p q =
    ap (λ (l : List ArtifactPath). a ∷ l) (artifacts-parts deps rs p q)

allowed_all :
    (allowed : List EnvironmentVariableName) (pairs : Environment)
    → check_names allowed pairs ≡ ok tt
    → (e : EnvironmentVariableName × String) → In e pairs
    → In e.0 allowed
unfolding check_names
allowed_all allowed [] h e m = absurd (not-In-nil m)
allowed_all allowed ((name, value) ∷ more) h e m =
    elim (Bool-cases (any (λ n. n == name) allowed)) [
      | inr refused ↦ absurd (ground arith)
      | inl found ↦
          let (n, at, same) = In-of_any (λ n. n == name) allowed found in
          let is : n ≡ name = (string_eq.beq_iff n name).0 same in
          split (subst (λ (x : String). In x allowed) is at)
            (λ l. allowed_all allowed more (rw (found, if◌then◌else◌) at h) e l) m
    ]
  where
    split :
        In name allowed
        → (In e more → In e.0 allowed)
        → In e ((name, value) ∷ more)
        → In e.0 allowed
    split at rest (here same) =
        subst (λ (x : EnvironmentVariableName × String). In x.0 allowed) same at
    split at rest (there l) = rest l

refused_one :
    (allowed : List EnvironmentVariableName) (pairs : Environment) {x : JobError}
    → check_names allowed pairs ≡ err x
    → (e : EnvironmentVariableName × String) × In e pairs
      × (name_not_allowed e.0 ≡ x)
      × (any (λ n. n == e.0) allowed ≡ false)
unfolding check_names
refused_one allowed [] h = absurd (cc)
refused_one allowed ((name, value) ∷ more) h = elim (Bool-cases (any (λ n. n == name) allowed)) [
  | inr refused ↦ ((name, value), here refl, ground arith, refused)
  | inl found ↦
      let (e, at, same, no_name) = refused_one allowed more (rw (found, if◌then◌else◌) at h) in
      (e, there at, same, no_name)
]

module _ (config : JobConfig) (job : Job)
    (git_author_env git_commit_env : Option (EnvironmentVariableName × String))
    (dependencies : List ArtifactPath) where
  abbrev checked_names : Environment
  checked_names = checked config job git_author_env git_commit_env

  abbrev with_script : Result JobError RunnableJob
  with_script = do
    script ← built_script config job git_author_env git_commit_env
    ok (runnable config job git_author_env git_commit_env dependencies script)

  -- A runnable job, from the two steps that made it
  success_of :
      {r : RunnableJob}
      → build_from_job config job git_author_env git_commit_env dependencies ≡ ok r
      → (names_allowed config job git_author_env git_commit_env ≡ ok tt)
        × ((s : Script) × (runnable config job git_author_env git_commit_env dependencies s ≡ r))
  unfolding build_from_job
  success_of {r} h =
      let (u, allowed, rest) =
        >>=-eq-ok (names_allowed config job git_author_env git_commit_env) (λ u. with_script) h in
      let (s, built, last) =
        >>=-eq-ok (built_script config job git_author_env git_commit_env)
          (λ s. ok (runnable config job git_author_env git_commit_env dependencies s)) rest in
      (allowed, (s, cc))

  -- A runnable job has exactly the artifacts of the dependencies, and its environment is that of the
  -- job's resources, the author and the commit, and then that of the package.
  pub build_from_job-resources :
      {r : RunnableJob}
      → build_from_job config job git_author_env git_commit_env dependencies ≡ ok r
      → (artifacts r.resources ≡ dependencies)
        × (environment_of r
            ≡ (envs job.resources ++ into_iter git_author_env ++ into_iter git_commit_env)
              ++ entries job.package'.environment)
  unfolding build_from_job environment_of
  build_from_job-resources {r} h =
      let (allowed, (s, e)) = success_of h in
      let resources = ap (λ (x : RunnableJob). x.resources) e in
      let of_package = ap (λ (x : RunnableJob). x.package') e in
      let author = into_iter git_author_env in
      let commit = into_iter git_commit_env in
      (
        ap artifacts (sym resources) ∙ artifacts-parts dependencies job.resources author commit,
        ap (λ (l : List JobResource). envs l ++ entries r.package'.environment) (sym resources)
            ∙ ap (λ (l : Environment). l ++ entries r.package'.environment)
                (envs-parts dependencies job.resources author commit)
            ∙ ap
                (λ (p : Package). (envs job.resources ++ author ++ commit) ++ entries p.environment)
                (sym of_package),
      )

  -- If names are checked, every variable in the environment of a runnable job has an allowed name.
  pub build_from_job-allowed :
      {r : RunnableJob}
      → config.check_env_names ≡ true
      → build_from_job config job git_author_env git_commit_env dependencies ≡ ok r
      → (e : EnvironmentVariableName × String) → In e (environment_of r)
      → In e.0 config.allowed_env
  unfolding build_from_job
  build_from_job-allowed {r} checks h e m =
      let (allowed, _) = success_of h in
      let (_, same) = build_from_job-resources h in
      let passed : check_names config.allowed_env (checked_names) ≡ ok tt =
        rw (checks, if◌then◌else◌) at allowed in
      allowed_all config.allowed_env (checked config job git_author_env git_commit_env) passed e
        (reordered (subst (In e) same m))
    where
      author : Environment
      author = into_iter git_author_env

      commit : Environment
      commit = into_iter git_commit_env

      reordered :
          In e (
            (envs job.resources ++ into_iter git_author_env ++ into_iter git_commit_env)
            ++ entries job.package'.environment)
          → In e (checked config job git_author_env git_commit_env)
      reordered at =
          elim (In-append
            (envs job.resources ++ into_iter git_author_env ++ into_iter git_commit_env) at) [
              | inr of_package ↦
                  In-append_left commit
                    (In-append_left author (In-append_right (envs job.resources) of_package))
              | inl others ↦
                  elim (In-append (envs job.resources ++ into_iter git_author_env) others) [
                    | inr of_commit ↦
                        In-append_right
                          (envs job.resources ++ entries job.package'.environment ++ author)
                          of_commit
                    | inl first ↦ elim (In-append (envs job.resources) first) [
                      | inl of_job ↦ In-append_left commit (
                          In-append_left author
                            (In-append_left (entries job.package'.environment) of_job))
                      | inr of_author ↦ In-append_left commit (
                          In-append_right (envs job.resources ++ entries job.package'.environment)
                            of_author)
                    ]
                  ]
            ]

  -- If no runnable job is made, the script could not be built, or names are checked and one of
  -- the variables has a name that is not allowed.
  pub build_from_job-refused :
      {x : JobError}
      → build_from_job config job git_author_env git_commit_env dependencies ≡ err x
      → ((e : EnvironmentVariableName × String) × In e
            (checked config job git_author_env git_commit_env)
          × (name_not_allowed e.0 ≡ x)
          × (config.check_env_names ≡ true)
          × (any (λ n. n == e.0) config.allowed_env ≡ false))
        ⊎ ((y : String) × (script_error y ≡ x)
            × (config.build_script job.script_shebang job.package' job.script_phases
                  config.strict_script_interpolation
                ≡ err y))
  unfolding build_from_job
  build_from_job-refused {x} h =
      elim (>>=-eq-err (names_allowed config job git_author_env git_commit_env) (λ u. with_script)
        h) [
          | inl names ↦ inl (of_names (Bool-cases config.check_env_names) names)
          | inr (u, allowed, rest) ↦
              elim (>>=-eq-err (built_script config job git_author_env git_commit_env)
                (λ s. ok (runnable config job git_author_env git_commit_env dependencies s)) rest) [
                  | inr (script, built, last) ↦ absurd (cc)
                  | inl failed ↦ inr (of_script _ failed)
                ]
        ]
    where
      of_names :
          (config.check_env_names ≡ true) ⊎ (config.check_env_names ≡ false)
          → names_allowed config job git_author_env git_commit_env ≡ err x
          → (e : EnvironmentVariableName × String) × In e checked_names
            × (name_not_allowed e.0 ≡ x)
            × (config.check_env_names ≡ true)
            × (any (λ n. n == e.0) config.allowed_env ≡ false)
      of_names (inr off) names =
          let no_error : ok tt ≡ err x = rw (off, if◌then◌else◌) at names in absurd (cc)
      of_names (inl on) names =
          let (e, at, same, missing) =
            refused_one config.allowed_env checked_names (rw (on, if◌then◌else◌) at names) in
          (e, at, same, on, missing)

      of_script :
          (o : Result Error Script)
          → script_result o ≡ err x
          → (y : String) × (script_error y ≡ x) × (o ≡ err y)
      of_script (ok s) e = absurd (cc)
      of_script (err y) e = (y, cc, refl)
