-- ===== src/Orchestrator/Task/Success.antt =====
-- A task whose services succeed, and where a task sends to (src/orchestrator/orchestrator.rs,
-- `JobTask::run`).
use butido.Prelude.{
  ℕ, ◌≡◌, sym, ap, subst, inl, inr, true, List, [], ◌∷◌, arith, map, is_empty, In, here, there,
  not-In-nil, In-singleton, all_of_In, Result, ok, err, nat_eq, contains_key, extend,
  contains_key-extend, map_insert, Bool-cases, if◌then◌else◌,
}
use mathlib.Core.List.{append-nil}
use butido.Filestore.{ArtifactPath, FullArtifactPath}
use butido.Orchestrator.Task.{
  Uuid, Error, built, Artifacts, Errors, JobResult, all_dependencies_are_in, Reception, failed,
  errored, ready, receive_dependencies, Services, JobTask, Run, any_built, artifacts_of, send_all,
  send_first_unchecked, send_first, replacements, schedule, build, reuse_or_build, proceed, run,
}
use butido.Orchestrator.Task.Receiving.{no_errors, extend_all, ready_of_all}
use butido.Orchestrator.Task.Outcome.{In-send_all, send_all_open}

-- Nothing that a task uses fails, and all channels are open.
pub record Succeeds (s : Services) : Type 0 where
  pub found : List FullArtifactPath
  pub finds : s.find_artifacts ≡ ok found
  pub prepares :
      (artifacts : List ArtifactPath) → (r : s.RunnableJob) × (s.build_from_job artifacts ≡ ok r)
  pub runs :
      (r : s.RunnableJob) → (artifacts : List ArtifactPath) × (s.run_job r ≡ ok (ok artifacts))
  pub opened : (c : ℕ) → s.is_open c ≡ true

-- A run that sends a result to every sender
abbrev pub delivered : JobTask → Artifacts → Run
delivered t m = record { sent = map (λ s. (s, ok m)) t.sender; result = ok tt }

module _ (services : Services) (task : JobTask) where
  In-send_first_unchecked :
      (senders : List ℕ) (errors : Errors) {c : ℕ} {m : JobResult}
      → In (c, m) (send_first_unchecked services.is_open senders errors).sent
      → In c senders
  In-send_first_unchecked [] errors at = absurd (not-In-nil at)
  In-send_first_unchecked (x ∷ senders) errors at = elim (Bool-cases (services.is_open x)) [
    | inl opened ↦
        here (ap (λ (p : ℕ × JobResult). p.0) (In-singleton (rw (opened, if◌then◌else◌) at at)))
    | inr closed ↦ absurd (not-In-nil (rw (closed, if◌then◌else◌) at at))
  ]

  In-send_first :
      (senders : List ℕ) (errors : Errors) {c : ℕ} {m : JobResult}
      → In (c, m) (send_first services.is_open senders errors).sent
      → In c senders
  In-send_first [] errors at = absurd (not-In-nil at)
  In-send_first (x ∷ senders) errors at = elim (Bool-cases (services.is_open x)) [
    | inl opened ↦
        here (ap (λ (p : ℕ × JobResult). p.0) (In-singleton (rw (opened, if◌then◌else◌) at at)))
    | inr closed ↦ absurd (not-In-nil (rw (closed, if◌then◌else◌) at at))
  ]

  In-schedule :
      (received : Artifacts) (r : Result Error (Result Error (List ArtifactPath))) {c : ℕ}
      {m : JobResult}
      → In (c, m) (schedule services task received r).sent
      → In c task.sender
  In-schedule received (err e) at = absurd (not-In-nil at)
  In-schedule received (ok (err e)) at = In-send_first task.sender (map_insert task.uuid e []) at
  In-schedule received (ok (ok artifacts)) at = (In-send_all services.is_open task.sender _ at).1

  In-reuse_or_build :
      (received : Artifacts) (found : Result Error (List FullArtifactPath)) {c : ℕ} {m : JobResult}
      → In (c, m) (reuse_or_build services task received found).sent
      → In c task.sender
  unfolding reuse_or_build build
  In-reuse_or_build received (err e) at = absurd (not-In-nil at)
  In-reuse_or_build received (ok found) at =
      elim (Bool-cases (is_empty (replacements services task found))) [
        | inl nothing ↦ In-schedule received _ (rw (nothing, if◌then◌else◌) at at)
        | inr something ↦
            (In-send_all services.is_open task.sender _ (rw (something, if◌then◌else◌) at at)).1
      ]

  In-proceed :
      (reception : Reception) {c : ℕ} {m : JobResult}
      → In (c, m) (proceed services task reception).sent
      → In c task.sender
  unfolding proceed build
  In-proceed (failed e) at = absurd (not-In-nil at)
  In-proceed (errored errors) at = In-send_first_unchecked task.sender errors at
  In-proceed (ready received) at = elim (Bool-cases (any_built received)) [
    | inl must_build ↦ In-schedule received _ (rw (must_build, if◌then◌else◌) at at)
    | inr reusable ↦
        In-reuse_or_build received services.find_artifacts (rw (reusable, if◌then◌else◌) at at)
  ]

  -- Whatever a task sends, it sends to its own senders.
  pub In-run :
      (messages : List JobResult) {c : ℕ} {m : JobResult}
      → In (c, m) (run services task messages).sent
      → In c task.sender
  unfolding run
  In-run messages at =
      In-proceed (receive_dependencies task.dependencies messages (no_errors [])) at

  module _ (good : Succeeds services) where
    send_all-delivered :
        (m : Artifacts) → send_all services.is_open task.sender (ok m) ≡ delivered task m
    send_all-delivered m =
        send_all_open services.is_open task.sender (ok m)
          (all_of_In services.is_open task.sender (λ c at. good.opened c))

    build-delivered :
        (received : Artifacts) → (m : Artifacts) × (build services task received ≡ delivered task m)
    unfolding build
    build-delivered received =
        let (r, prepared) = good.prepares (artifacts_of received) in
        let (artifacts, ran) = good.runs r in
        (
          map_insert task.uuid (map built artifacts) received,
          rw (prepared, ran) (send_all-delivered _),
        )

    proceed-delivered :
        (received : Artifacts)
        → (m : Artifacts) × (proceed services task (ready received) ≡ delivered task m)
    unfolding proceed reuse_or_build
    proceed-delivered received =
        let (m, builds) = build-delivered received in
        elim (Bool-cases (any_built received)) [
          | inl must_build ↦ (m, rw must_build builds)
          | inr reusable ↦ elim (Bool-cases (is_empty (replacements services task good.found))) [
            | inl nothing ↦ (m, rw (reusable, good.finds, nothing) builds)
            | inr something ↦ (
              map_insert task.uuid (replacements services task good.found) received,
              rw (reusable, good.finds, something) (send_all-delivered _),
            )
          ]
        ]

    -- With services that succeed, a task that gets the results of all its dependencies, and no
    -- errors, sends a result to every sender.
    pub run-delivered :
        (vs : List Artifacts)
        → all_dependencies_are_in task.dependencies (extend_all [] vs) ≡ true
        → (m : Artifacts) × (run services task (map ok vs) ≡ delivered task m)
    unfolding run
    run-delivered vs all_in =
        let (received, got) = ready_of_all task.dependencies vs [] [] all_in in
        let (m, sends) = proceed-delivered received in
        (m, rw (← append-nil (map (λ (v : Artifacts). ok v) vs), got) sends)

-- A key of one of the results is there after all of them.
pub contains_key-extend_all :
    (vs : List Artifacts) (a : Artifacts) (d : Uuid)
    → contains_key a d ≡ true
    → contains_key (extend_all a vs) d ≡ true
contains_key-extend_all [] a d h = h
contains_key-extend_all (v ∷ vs) a d h =
    contains_key-extend_all vs (extend a v) d (ground (arith, contains_key-extend d v a))

pub contains_key-member :
    (vs : List Artifacts) (a : Artifacts) (d : Uuid) {v : Artifacts}
    → In v vs
    → contains_key v d ≡ true
    → contains_key (extend_all a vs) d ≡ true
contains_key-member [] a d m h = absurd (not-In-nil m)
contains_key-member (w ∷ vs) a d (here same) h =
    let inside : contains_key w d ≡ true =
      subst (λ (x : Artifacts). contains_key x d ≡ true) (sym same) h in
    contains_key-extend_all vs (extend a w) d (ground (arith, contains_key-extend d w a, inside))
contains_key-member (w ∷ vs) a d (there at) h = contains_key-member vs (extend a w) d at h
