-- ===== src/Orchestrator/Task/Outcome.antt =====
-- What a task sends (src/orchestrator/orchestrator.rs, `JobTask::run`).
use butido.Prelude.{
  ℕ, ◌≡◌, refl, ◌∙◌, ap, ◌⊎◌, inl, inr, Bool, true, false, not, Option, none, some, List, [], ◌∷◌,
  ◌++◌, arith, map, filter, any, all, is_empty, In, here, there, not-In-nil, In-singleton, Result,
  ok, err, nat_eq, string_eq, contains_key, extend, map_insert, Bool-cases, if◌then◌else◌,
}
use butido.Filestore.{ArtifactPath, FullArtifactPath}
use butido.Orchestrator.Task.{
  Error, ProducedArtifact, built, was_build, Artifacts, Errors, JobResult, all_dependencies_are_in,
  Reception, failed, errored, ready, receive_dependencies, Services, JobTask, quit, any_built,
  fetch, fetch_all, prepend_reused, dependencies_missing, send_all, send_first_unchecked,
  send_first, replacements, schedule, build, reuse_or_build, proceed, run,
}
use butido.Orchestrator.Task.Receiving.{
  no_errors, extend_all, ready_complete, errored_first, closed_early,
}

module _ (is_open : ℕ → Bool) where
  pub In-send_all :
      (senders : List ℕ) (message : JobResult) {s : ℕ} {m : JobResult}
      → In (s, m) (send_all is_open senders message).sent
      → (message ≡ m) × In s senders
  unfolding send_all
  In-send_all [] message m = absurd (not-In-nil m)
  In-send_all (x ∷ senders) message {s} {m} at = elim (Bool-cases (is_open x)) [
    | inr closed ↦ absurd (not-In-nil (rw (closed, if◌then◌else◌) at at))
    | inl opened ↦ split (rw (opened, if◌then◌else◌) at at) (λ l. In-send_all senders message l)
  ]
    where
      split :
          In (s, m) ((x, message) ∷ (send_all is_open senders message).sent)
          → (In (s, m) (send_all is_open senders message).sent → (message ≡ m) × In s senders)
          → (message ≡ m) × In s (x ∷ senders)
      split (here e) more = (ap (λ p. p.1) e, here (ap (λ p. p.0) e))
      split (there l) more = let (e, n) = more l in (e, there n)

  -- With all channels open the message goes to every one of them, and the task ends well.
  pub send_all_open :
      (senders : List ℕ) (message : JobResult)
      → all is_open senders ≡ true
      → send_all is_open senders message
        ≡ record { sent = map (λ s. (s, message)) senders; result = ok tt }
  unfolding send_all
  send_all_open [] message h = refl
  send_all_open (s ∷ senders) message h = elim (Bool-cases (is_open s)) [
    | inl opened ↦ rw (opened, send_all_open senders message (ground arith))
    | inr closed ↦ absurd (ground arith)
  ]

  err_message :
      (s' : ℕ) (errors : Errors) {s : ℕ} {m : Artifacts}
      → ¬ In {A = ℕ × JobResult} (s, ok m) ((s', err errors) ∷ [])
  err_message s' errors at =
      let same = ap (λ (p : ℕ × JobResult). p.1) (In-singleton at) in absurd (cc)

  pub not-In-send_first_unchecked :
      (senders : List ℕ) (errors : Errors) {s : ℕ} {m : Artifacts}
      → ¬ In (s, ok m) (send_first_unchecked is_open senders errors).sent
  not-In-send_first_unchecked [] errors at = not-In-nil at
  not-In-send_first_unchecked (x ∷ senders) errors at = elim (Bool-cases (is_open x)) [
    | inl opened ↦ err_message x errors (rw (opened, if◌then◌else◌) at at)
    | inr closed ↦ not-In-nil (rw (closed, if◌then◌else◌) at at)
  ]

  pub not-In-send_first :
      (senders : List ℕ) (errors : Errors) {s : ℕ} {m : Artifacts}
      → ¬ In (s, ok m) (send_first is_open senders errors).sent
  not-In-send_first [] errors at = not-In-nil at
  not-In-send_first (x ∷ senders) errors at = elim (Bool-cases (is_open x)) [
    | inl opened ↦ err_message x errors (rw (opened, if◌then◌else◌) at at)
    | inr closed ↦ not-In-nil (rw (closed, if◌then◌else◌) at at)
  ]

all-was_build : (artifacts : List ArtifactPath) → all was_build (map built artifacts) ≡ true
all-was_build [] = refl
all-was_build (a ∷ artifacts) = all-was_build artifacts

module _ (services : Services) (task : JobTask) where
  none_built_prepend :
      (o : Option ArtifactPath) (rest : List ProducedArtifact)
      → any was_build rest ≡ false
      → any was_build (prepend_reused services task o rest) ≡ false
  none_built_prepend none rest h = h
  none_built_prepend (some a) rest h = h

  none_built : (ps : List FullArtifactPath) → any was_build (fetch_all services task ps) ≡ false
  none_built [] = refl
  none_built (p ∷ ps) =
      none_built_prepend (fetch services task p) (fetch_all services task ps) (none_built ps)

  -- The results of the dependencies are complete, and the task's own artifacts are added to them:
  -- all of them built, or, if no artifact of a dependency was built, all of them reused.
  pub record IsOutput (messages : List JobResult) (m : Artifacts) : Type 0 where
    pub received : Artifacts
    pub gathered : receive_dependencies task.dependencies messages (no_errors []) ≡ ready received
    pub own : List ProducedArtifact
    pub made : map_insert task.uuid own received ≡ m
    pub complete : all_dependencies_are_in task.dependencies received ≡ true
    pub provenance :
        (all was_build own ≡ true) ⊎ ((any was_build own ≡ false) × (any_built received ≡ false))

  module _ (messages : List JobResult) (received : Artifacts) {s : ℕ} {m : Artifacts}
      (gathered : receive_dependencies task.dependencies messages (no_errors []) ≡ ready received)
      (complete : all_dependencies_are_in task.dependencies received ≡ true) where
    sent_own :
        (own : List ProducedArtifact)
        → (all was_build own ≡ true) ⊎ ((any was_build own ≡ false) × (any_built received ≡ false))
        → In
            (s, ok m)
            (send_all services.is_open task.sender (ok (map_insert task.uuid own received))).sent
        → IsOutput messages m × In s task.sender
    sent_own own provenance at =
        let (e, n) =
          In-send_all services.is_open task.sender (ok (map_insert task.uuid own received)) at in
        (
          record {
            received = received;
            gathered = gathered;
            own = own;
            made = cc;
            complete = complete;
            provenance = provenance;
          },
          n,
        )

    schedule-IsOutput :
        (r : Result Error (Result Error (List ArtifactPath)))
        → In (s, ok m) (schedule services task received r).sent
        → IsOutput messages m × In s task.sender
    schedule-IsOutput (err e) at = absurd (not-In-nil at)
    schedule-IsOutput (ok (err e)) at =
        absurd (not-In-send_first services.is_open task.sender (map_insert task.uuid e []) at)
    schedule-IsOutput (ok (ok artifacts)) at =
        sent_own (map built artifacts) (inl (all-was_build artifacts)) at

    build-IsOutput :
        In (s, ok m) (build services task received).sent → IsOutput messages m × In s task.sender
    unfolding build
    build-IsOutput at = schedule-IsOutput _ at

    reuse_or_build-IsOutput :
        (found : Result Error (List FullArtifactPath))
        → any_built received ≡ false
        → In (s, ok m) (reuse_or_build services task received found).sent
        → IsOutput messages m × In s task.sender
    unfolding reuse_or_build
    reuse_or_build-IsOutput (err e) reusable at = absurd (not-In-nil at)
    reuse_or_build-IsOutput (ok found) reusable at =
        elim (Bool-cases (is_empty (replacements services task found))) [
          | inl nothing ↦ build-IsOutput (rw (nothing, if◌then◌else◌) at at)
          | inr something ↦
              sent_own (replacements services task found) (inr (none_built _, reusable))
                (rw (something, if◌then◌else◌) at at)
        ]

  proceed-IsOutput :
      (messages : List JobResult) (reception : Reception) {s : ℕ} {m : Artifacts}
      → receive_dependencies task.dependencies messages (no_errors []) ≡ reception
      → In (s, ok m) (proceed services task reception).sent
      → IsOutput messages m × In s task.sender
  unfolding proceed
  proceed-IsOutput messages (failed e) gathered at = absurd (not-In-nil at)
  proceed-IsOutput messages (errored errors) gathered at =
      absurd (not-In-send_first_unchecked services.is_open task.sender errors at)
  proceed-IsOutput messages (ready received) gathered at =
      let complete = ready_complete task.dependencies messages (no_errors []) refl gathered in
      elim (Bool-cases (any_built received)) [
        | inl must_build ↦
            build-IsOutput messages received gathered complete
              (rw (must_build, if◌then◌else◌) at at)
        | inr reusable ↦
            reuse_or_build-IsOutput messages received gathered complete services.find_artifacts
              reusable (rw (reusable, if◌then◌else◌) at at)
      ]

  -- Whatever comes in, a task sends results only to its own senders and only when those of all its
  -- dependencies are there. It sends them on with its own artifacts added; these are all built, or
  -- all reused, and reused only if no received artifact was built.
  pub run-IsOutput :
      (messages : List JobResult) {s : ℕ} {m : Artifacts}
      → In (s, ok m) (run services task messages).sent
      → IsOutput messages m × In s task.sender
  unfolding run
  run-IsOutput messages at =
      proceed-IsOutput messages (receive_dependencies task.dependencies messages (no_errors []))
        refl at

  -- If a dependency reports errors while the result of some dependency is missing, and the channel
  -- of the first sender is open, the task sends exactly these errors to that sender, and ends
  -- without an error of its own.
  pub run_errored :
      (vs : List Artifacts) (e : Errors) (rest : List JobResult) (s : ℕ) (senders : List ℕ)
      → task.sender ≡ s ∷ senders
      → services.is_open s ≡ true
      → all_dependencies_are_in task.dependencies (extend_all [] vs) ≡ false
      → is_empty (extend [] e) ≡ false
      → run services task (map ok vs ++ err e ∷ rest)
        ≡ record { sent = (s, err (extend [] e)) ∷ []; result = ok tt }
  unfolding run proceed
  run_errored vs e rest s senders first opened waits some_error =
      rw (errored_first task.dependencies vs e rest [] waits some_error) (errors_sent (extend [] e))
    where
      errors_sent :
          (errors : Errors)
          → send_first_unchecked services.is_open task.sender errors
            ≡ record { sent = (s, err errors) ∷ []; result = ok tt }
      errors_sent errors =
          ap (λ l. send_first_unchecked services.is_open l errors) first ∙ rw opened

  -- If the channel is closed while the result of some dependency is missing, the task sends nothing
  -- and fails with the dependencies that are missing.
  pub run_closed :
      (vs : List Artifacts)
      → all_dependencies_are_in task.dependencies (extend_all [] vs) ≡ false
      → run services task (map ok vs)
        ≡ quit (
            dependencies_missing
              (filter (λ d. not (contains_key (extend_all [] vs) d)) task.dependencies))
  unfolding run proceed
  run_closed vs waits = rw (closed_early task.dependencies vs [] waits)
