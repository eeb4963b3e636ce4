-- ===== src/Orchestrator/Execution/Success.antt =====
-- A tree whose services succeed is run to its end (src/orchestrator/orchestrator.rs, `run_tree`).
use butido.Prelude.{
  ℕ, zero, suc, ◌<◌, ◌≡◌, ◌≢◌, refl, sym, ◌∙◌, ap, subst, ◌⊎◌, inl, inr, true, List, [], ◌∷◌, arith,
  map, In, here, there, not-In-nil, In-map, In-map_intro, all_of_In, Result, ok, ◌>>=◌, ◌==◌,
  nat_eq, contains_key, Bool-cases,
}
use butido.Orchestrator.Task.{Uuid, Artifacts, JobResult, artifacts_of, Services, JobTask, Run, run}
use butido.Orchestrator.Task.Receiving.{extend_all}
use butido.Orchestrator.Task.Success.{
  Succeeds, delivered, In-run, run-delivered, contains_key-member,
}
use butido.Orchestrator.Tree.{JobDefinition, root_channel, channel, wire}
use butido.Orchestrator.Tree.Senders.{DependsOn, GoesTo}
use butido.Orchestrator.Tree.Wiring.{TaskOf, wire-GoesTo, wire-TaskOf, wire-root}
use butido.Orchestrator.Execution.{run_of, IsExecution, all_finished, finish_tree}
use butido.Orchestrator.Execution.Complete.{
  Needs, itself, IsAcyclic, sender-DependsOn, rank-lt, sent-Needs,
}

-- Messages that are all results are a list of results.
results_of :
    (messages : List JobResult)
    → ((m : JobResult) → In m messages → (v : Artifacts) × (ok v ≡ m))
    → (vs : List Artifacts) × (map ok vs ≡ messages)
results_of [] each = ([], refl)
results_of (m ∷ messages) each =
    let (v, same) = each m (here refl) in
    let (vs, rest) = results_of messages (λ x at. each x (there at)) in
    (v ∷ vs, ap (λ (x : JobResult). x ∷ map ok vs) same ∙ ap (λ (l : List JobResult). m ∷ l) rest)

In-results : (vs : List Artifacts) {v : Artifacts} → In {A = JobResult} (ok v) (map ok vs) → In v vs
In-results vs {v} at =
    let (w, held, same) = In-map (λ (x : Artifacts). Result.ok x) vs at in
    let is : w ≡ v = cc in subst (λ (x : Artifacts). In x vs) is held

-- The dependencies of the jobs are jobs, and all jobs but the root have a job that depends on them.
pub record IsTree (jobs : List JobDefinition) (root : Uuid) : Type 0 where
  pub complete :
      (j : JobDefinition) (d : Uuid)
      → In j jobs
      → DependsOn j d
      → (k : JobDefinition) × In k jobs × (k.job ≡ d)
  pub single :
      (j : JobDefinition)
      → In j jobs
      → j.job ≢ root
      → (k : JobDefinition) × In k jobs × DependsOn k j.job

module _ (jobs : List JobDefinition) {root : Uuid} {tasks : List JobTask}
    (wired : wire jobs ≡ ok (root, tasks)) (acyclic : IsAcyclic jobs) (tree : IsTree jobs root)
    (services : Uuid → Services) (messages : ℕ → List JobResult)
    (execution : IsExecution services messages tasks)
    (good : (u : Uuid) → Succeeds (services u)) where
  abbrev Delivers : JobTask → Type 0
  Delivers t = (m : Artifacts) × (run_of services messages t ≡ delivered t m)

  -- What a task that delivers has sent
  sent_result :
      (t : JobTask) (d : Delivers t) (c : ℕ) (m : JobResult)
      → In (c, m) (run_of services messages t).sent
      → ok d.0 ≡ m
  sent_result t (v, is) c m at =
      let (s, _, same) =
        In-map (λ (s : ℕ). (s, Result.ok v)) t.sender
          (subst (λ (r : Run). In (c, m) r.sent) is at) in
      ap (λ (p : ℕ × JobResult). p.1) same

  sends_to :
      (t : JobTask) (d : Delivers t) (c : ℕ)
      → In c t.sender
      → In (c, ok d.0) (run_of services messages t).sent
  sends_to t (v, is) c at =
      subst (λ (r : Run). In {A = ℕ × JobResult} (c, ok v) r.sent) (sym is)
        (In-map_intro (λ (s : ℕ). (s, Result.ok v)) at)

  -- The result of a dependency comes in.
  dependency_arrives :
      (t : JobTask) (j : JobDefinition) (d : Uuid)
      → In t tasks
      → In j jobs
      → TaskOf t j
      → DependsOn j d
      → ((s : JobTask) → In s tasks → s.uuid ≡ d → Delivers s)
      → (v : Artifacts) × In {A = JobResult} (ok v) (messages (channel t.uuid))
        × (contains_key v d ≡ true)
  dependency_arrives t j d at mj of_j depends below =
      let (k, mk, name) = tree.complete j d mj depends in
      let (s, ms, of_k) = (wire-TaskOf jobs wired).1 k mk in
      let s_is : s.uuid ≡ d = sym of_k.named ∙ name in
      let delivers = below s ms s_is in
      let goes : GoesTo jobs s.uuid (channel t.uuid) = record {
        target = inl (j, mj, subst (DependsOn j) (sym s_is) depends, ap channel of_j.named);
      } in
      let to_t = ((wire-GoesTo jobs wired).1 s ms (channel t.uuid)).1 goes in
      let sent = sends_to s delivers (channel t.uuid) to_t in
      (
        delivers.0,
        execution.arrives (channel t.uuid) (ok delivers.0) s ms sent,
        sent-Needs jobs wired acyclic services messages execution s (channel t.uuid) delivers.0 ms
            sent (subst (Needs jobs s.uuid) s_is itself),
      )

  task-Delivers : (n : ℕ) (t : JobTask) → acyclic.rank t.uuid < n → In t tasks → Delivers t
  task-Delivers zero t below at = absurd (omega arith)
  task-Delivers (suc n) t below at =
      let (j, mj, of_j) = (wire-TaskOf jobs wired).0 t at in
      let lower : (d : Uuid) → DependsOn j d → acyclic.rank d < n = λ d depends.
        rank-lt jobs wired acyclic services messages execution n t j d below mj of_j depends in
      let (vs, all_ok) = results_of (messages (channel t.uuid)) (λ m came.
        let (s, ms, sent) = execution.sent (channel t.uuid) m came in
        let to_t = In-run (services s.uuid) s (messages (channel s.uuid)) sent in
        let depends =
          sender-DependsOn jobs wired acyclic services messages execution s t j ms mj of_j to_t in
        let delivers = task-Delivers n s (lower s.uuid depends) ms in
        (delivers.0, sent_result s delivers (channel t.uuid) m sent)) in
      let all_in =
        all_of_In (λ d. contains_key (extend_all [] vs) d) t.dependencies
          (λ d needed.
            let depends : DependsOn j d = subst (In d) (sym of_j.same_dependencies) needed in
            let (v, came, inside) = dependency_arrives t j d at mj of_j depends (λ s ms is.
              task-Delivers n s (lower s.uuid (subst (DependsOn j) (sym is) depends)) ms) in
            contains_key-member vs [] d
              (In-results vs (subst (In {A = JobResult} (ok v)) (sym all_ok) came)) inside) in
      let (m, is) = run-delivered (services t.uuid) t (good t.uuid) vs all_in in
      (m, ap (run (services t.uuid) t) (sym all_ok) ∙ is)

  all_finished_ok :
      (order : List JobTask)
      → ((t : JobTask) → In t order → In t tasks)
      → all_finished (map (run_of services messages) order) ≡ ok tt
  unfolding all_finished
  all_finished_ok [] inside = refl
  all_finished_ok (t ∷ order) inside =
      let (m, is) =
        task-Delivers (suc (acyclic.rank t.uuid)) t (omega arith) (inside t (here refl)) in
      ap (λ (r : Run). r.result >>= λ u. all_finished (map (run_of services messages) order)) is
      ∙ all_finished_ok order (λ s at. inside s (there at))

  -- What comes to the orchestrator is a result, and has all that the root needs.
  root_message :
      (m : JobResult)
      → In m (messages root_channel)
      → (v : Artifacts) × (ok v ≡ m) × ((u : Uuid) → Needs jobs root u → contains_key v u ≡ true)
  root_message m came =
      let (s, ms, sent) = execution.sent root_channel m came in
      let to_root = In-run (services s.uuid) s (messages (channel s.uuid)) sent in
      let goes = ((wire-GoesTo jobs wired).1 s ms root_channel).0 to_root in
      let delivers = task-Delivers (suc (acyclic.rank s.uuid)) s (omega arith) ms in
      let same = sent_result s delivers root_channel m sent in
      let (j, mj, of_j) = (wire-TaskOf jobs wired).0 s ms in
      let is_root = root_is s j mj of_j goes.target in
      (
        delivers.0,
        same,
        λ u needs.
            sent-Needs jobs wired acyclic services messages execution s root_channel delivers.0 ms
              (subst (λ (x : JobResult). In (root_channel, x) (run_of services messages s).sent)
                (sym same) sent)
              (subst (λ (r : Uuid). Needs jobs r u) (sym is_root) needs),
      )
    where
      root_is :
          (s : JobTask) (j : JobDefinition)
          → In j jobs
          → TaskOf s j
          → ((k : JobDefinition) × In k jobs × DependsOn k s.uuid × (channel k.job ≡ root_channel))
            ⊎ (((k : JobDefinition) → In k jobs → ¬ DependsOn k s.uuid)
                × (root_channel ≡ root_channel))
          → s.uuid ≡ root
      root_is s j mj of_j (inl (_, _, _, same)) = absurd (omega arith)
      root_is s j mj of_j (inr (unused, _)) = elim (Bool-cases (j.job == root)) [
        | inl same ↦ sym of_j.named ∙ (nat_eq.beq_iff j.job root).0 same
        | inr other ↦
            let (k, mk, depends) = tree.single j mj (λ e. cc ((nat_eq.beq_iff j.job root).1 e)) in
            absurd (unused k mk (subst (DependsOn k) of_j.named depends))
      ]

  some_root_message : (m : JobResult) × In m (messages root_channel)
  some_root_message =
      let (_, unused, (r, mr, name)) = wire-root jobs wired in
      let (t, at, of_r) = (wire-TaskOf jobs wired).1 r mr in
      let t_is : t.uuid ≡ root = sym of_r.named ∙ name in
      let goes : GoesTo jobs t.uuid root_channel = record {
        target = inr (λ k mk depends. unused k mk (subst (DependsOn k) t_is depends), refl);
      } in
      let delivers = task-Delivers (suc (acyclic.rank t.uuid)) t (omega arith) at in
      let sent =
        sends_to t delivers root_channel (((wire-GoesTo jobs wired).1 t at root_channel).1 goes) in
      (ok delivers.0, execution.arrives root_channel (ok delivers.0) t at sent)

  -- If the services succeed and all channels are open, the jobs have different UUIDs and no cycle,
  -- every dependency is a job and only the root is a job that no job depends on, then all tasks end
  -- without an error, in whatever order, and the orchestrator returns, without errors, the artifacts
  -- of a result that has an entry for every job which the root needs.
  pub finish_tree_lem :
      (order : List JobTask)
      → ((t : JobTask) → In t order → In t tasks)
      → (v : Artifacts) × (finish_tree
            (map (run_of services messages) order)
            (messages root_channel)
          ≡ ok (artifacts_of v, []))
        × ((u : Uuid) → Needs jobs root u → contains_key v u ≡ true)
  unfolding finish_tree
  finish_tree_lem order inside =
      let (x, some) = some_root_message in
      of_messages (messages root_channel) (λ m at. root_message m at) some
    where
      ends : all_finished (map (run_of services messages) order) ≡ ok tt
      ends = all_finished_ok order inside

      of_messages :
          (l : List JobResult)
          → ((m : JobResult)
              → In m l
              → (v : Artifacts) × (ok v ≡ m)
                × ((u : Uuid) → Needs jobs root u → contains_key v u ≡ true))
          → {x : JobResult} → In x l
          → (v : Artifacts) × (finish_tree (map (run_of services messages) order) l
              ≡ ok (artifacts_of v, []))
            × ((u : Uuid) → Needs jobs root u → contains_key v u ≡ true)
      of_messages [] each at = absurd (not-In-nil at)
      of_messages (m ∷ more) each at =
          let (v, same, all_needed) = each m (here refl) in (v, rw (ends, ← same) refl, all_needed)
