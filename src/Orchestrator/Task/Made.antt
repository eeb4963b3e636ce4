-- ===== src/Orchestrator/Task/Made.antt =====
-- How the artifacts that a task sends are made (src/orchestrator/orchestrator.rs, `JobTask::run`).
use butido.Prelude.{
  ℕ, ◌≡◌, refl, ap, subst, ◌↔◌, ◌⊎◌, inl, inr, true, List, [], ◌∷◌, map, is_empty, In, not-In-nil,
  Result, ok, err, ◌>>=◌, >>=-eq-ok, nat_eq, map_insert, Bool-cases, if◌then◌else◌,
}
use butido.Filestore.{ArtifactPath, FullArtifactPath}
use butido.Orchestrator.Task.{
  Error, ProducedArtifact, built, reused, unpack, Artifacts, JobResult, Reception, failed, errored,
  ready, receive_dependencies, Services, JobTask, any_built, artifacts_of, replacements, schedule,
  build, reuse_or_build, proceed, run,
}
use butido.Orchestrator.Task.Receiving.{no_errors}
use butido.Orchestrator.Task.Outcome.{In-send_all, not-In-send_first_unchecked, not-In-send_first}
use butido.Orchestrator.Task.Sources.{
  Produced, any_built_iff, In-artifacts_of, In-artifacts_of_intro, IsHeld,
}
use butido.Orchestrator.Task.Replacements.{Replaces, In-replacements}

nil_of_empty : {A : Type 0} (l : List A) → is_empty l ≡ true → l ≡ []
nil_of_empty [] h = refl
nil_of_empty (x ∷ l) h = absurd (cc)

module _ (services : Services) (task : JobTask) where
  open services use {RunnableJob, find_artifacts, build_from_job, run_job, is_open}

  -- Some dependency produced a built artifact.
  abbrev pub IsNew : Artifacts → Type 0
  IsNew received = (p : ArtifactPath) × Produced received (built p)

  -- Some dependency was built, or nothing that the search finds is held by a store.
  abbrev pub Needed : Artifacts → Type 0
  Needed received =
      IsNew received
      ⊎ ((found : List FullArtifactPath) × (find_artifacts ≡ ok found)
          × ((p : FullArtifactPath) → In p found → ¬ IsHeld services task p.artifact_path))

  -- The job is built: some dependency was built, or nothing that the search finds is held by a store.
  -- What the dependencies produced, and nothing else, is handed to the build.
  pub record IsBuilt (received m : Artifacts) : Type 0 where
    pub needed : Needed received
    pub handed : List ArtifactPath
    pub handed_iff :
        (p : ArtifactPath)
        → In p handed ↔ ((a : ProducedArtifact) × Produced received a × (unpack a ≡ p))
    pub runnable : RunnableJob
    pub prepared : build_from_job handed ≡ ok runnable
    pub artifacts : List ArtifactPath
    pub ran : run_job runnable ≡ ok (ok artifacts)
    pub made : map_insert task.uuid (map built artifacts) received ≡ m

  -- The job is not built: no dependency was built, and what the search finds and a store holds, of
  -- which there is something, is reused.
  pub record IsReused (received m : Artifacts) : Type 0 where
    pub nothing_new : ¬ IsNew received
    pub found : List FullArtifactPath
    pub finds : find_artifacts ≡ ok found
    pub own : List ProducedArtifact
    pub some_own : ¬ (own ≡ [])
    pub own_iff : (a : ProducedArtifact) → In a own ↔ Replaces services task found a
    pub made : map_insert task.uuid own received ≡ m

  -- The result is made from what the loop has gathered.
  pub record IsMade (messages : List JobResult) (m : Artifacts) : Type 0 where
    pub received : Artifacts
    pub gathered : receive_dependencies task.dependencies messages (no_errors []) ≡ ready received
    pub origin : IsBuilt received m ⊎ IsReused received m

  module _ (received : Artifacts) {s : ℕ} {m : Artifacts} where
    build-IsBuilt :
        Needed received → In (s, ok m) (build services task received).sent → IsBuilt received m
    unfolding build
    build-IsBuilt needed at =
        of_run (build_from_job (artifacts_of received) >>= λ r. run_job r) refl at
      where
        of_run :
            (r : Result Error (Result Error (List ArtifactPath)))
            → (build_from_job (artifacts_of received) >>= λ r. run_job r) ≡ r
            → In (s, ok m) (schedule services task received r).sent
            → IsBuilt received m
        of_run (err e) h at = absurd (not-In-nil at)
        of_run (ok (err e)) h at =
            absurd (not-In-send_first is_open task.sender (map_insert task.uuid e []) at)
        of_run (ok (ok artifacts)) h at =
            let (runnable, prepared, ran) =
              >>=-eq-ok (build_from_job (artifacts_of received)) (λ r. run_job r) h in
            let (e, _) =
              In-send_all is_open task.sender
                (ok (map_insert task.uuid (map built artifacts) received)) at in
            record {
              needed = needed;
              handed = artifacts_of received;
              handed_iff = λ p. (
                λ l. In-artifacts_of received l,
                λ (a, (u, own, held, l), is).
                    subst (λ (x : ArtifactPath). In x (artifacts_of received)) is
                      (In-artifacts_of_intro held l),
              );
              runnable = runnable;
              prepared = prepared;
              artifacts = artifacts;
              ran = ran;
              made = cc;
            }

    reuse_or_build-IsMade :
        (found : Result Error (List FullArtifactPath))
        → find_artifacts ≡ found
        → ¬ IsNew received
        → In (s, ok m) (reuse_or_build services task received found).sent
        → IsBuilt received m ⊎ IsReused received m
    unfolding reuse_or_build
    reuse_or_build-IsMade (err e) finds old at = absurd (not-In-nil at)
    reuse_or_build-IsMade (ok found) finds old at =
        elim (Bool-cases (is_empty (replacements services task found))) [
          | inl nothing ↦ inl (
              build-IsBuilt
                (inr (
                  found,
                  finds,
                  λ p l held. not-In-nil (
                      subst (λ (x : List ProducedArtifact). In (reused p.artifact_path) x)
                        (nil_of_empty _ nothing)
                        ((In-replacements services task found).1 (p, l, held, refl))),
                ))
                (rw (nothing, if◌then◌else◌) at at))
          | inr something ↦
              let (e, _) =
                In-send_all is_open task.sender
                  (ok (map_insert task.uuid (replacements services task found) received))
                  (rw (something, if◌then◌else◌) at at) in
              inr (record {
                nothing_new = old;
                found = found;
                finds = finds;
                own = replacements services task found;
                some_own = λ e.
                    let empty : is_empty (replacements services task found) ≡ true =
                      ap (λ (x : List ProducedArtifact). is_empty x) e in
                    absurd (cc);
                own_iff = λ a. In-replacements services task found;
                made = cc;
              })
        ]

  proceed-IsMade :
      (messages : List JobResult) (reception : Reception) {s : ℕ} {m : Artifacts}
      → receive_dependencies task.dependencies messages (no_errors []) ≡ reception
      → In (s, ok m) (proceed services task reception).sent
      → IsMade messages m
  unfolding proceed
  proceed-IsMade messages (failed e) gathered at = absurd (not-In-nil at)
  proceed-IsMade messages (errored errors) gathered at =
      absurd (not-In-send_first_unchecked is_open task.sender errors at)
  proceed-IsMade messages (ready received) gathered at = record {
    received = received;
    gathered = gathered;
    origin = elim (Bool-cases (any_built received)) [
      | inl new ↦ inl (
          build-IsBuilt received (inl ((any_built_iff received).0 new))
            (rw (new, if◌then◌else◌) at at))
      | inr old ↦
          reuse_or_build-IsMade received find_artifacts refl
            (λ n. absurd (cc ((any_built_iff received).1 n))) (rw (old, if◌then◌else◌) at at)
    ];
  }

  -- Whatever comes in, a result that a task sends is made in one of two ways. Either some dependency
  -- was built, or no store holds what the search finds; then the job is built with exactly the
  -- artifacts of the dependencies, and the artifacts of its run are the task's own. Or no dependency
  -- was built, and exactly what the search finds and a store holds is reused.
  pub run-IsMade :
      (messages : List JobResult) {s : ℕ} {m : Artifacts}
      → In (s, ok m) (run services task messages).sent
      → IsMade messages m
  unfolding run
  run-IsMade messages at =
      proceed-IsMade messages (receive_dependencies task.dependencies messages (no_errors [])) refl
        at
