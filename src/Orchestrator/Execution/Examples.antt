-- ===== src/Orchestrator/Execution/Examples.antt =====
-- Two jobs, of which the first needs the second, and their run.
use butido.Prelude.{
  ℕ, ◌<◌, ◌≡◌, ◌≢◌, refl, sym, ◌∙◌, ap, subst, inl, inr, true, List, [], ◌∷◌, arith, map, In, here,
  there, not-In-nil, In-singleton, ok, ◌==◌, nat_eq, string_eq, contains_key, extend, map_insert,
  Bool-cases, if◌then◌else◌,
}
use butido.Orchestrator.Task.{
  Uuid, Artifacts, built, JobResult, artifacts_of, perform_receive, receive_dependencies, Services,
  JobTask, send_all, replacements, build, reuse_or_build, proceed, run,
}
use butido.Orchestrator.Task.Success.{Succeeds}
use butido.Orchestrator.Tree.{JobDefinition, root_channel, senders_of, associate, wire}
use butido.Orchestrator.Tree.Senders.{DependsOn}
use butido.Orchestrator.Execution.{run_of, IsExecution, finish_tree}
use butido.Orchestrator.Execution.Complete.{Needs, itself, over, IsAcyclic, sent-Needs}
use butido.Orchestrator.Execution.Success.{IsTree, finish_tree_lem}

abbrev first : JobDefinition
first = record { job = 1; dependencies = 2 ∷ [] }

abbrev second : JobDefinition
second = record { job = 2; dependencies = [] }

abbrev jobs : List JobDefinition
jobs = first ∷ second ∷ []

abbrev first_task : JobTask
first_task = record { uuid = 1; dependencies = 2 ∷ []; sender = 0 ∷ [] }

abbrev second_task : JobTask
second_task = record { uuid = 2; dependencies = []; sender = 2 ∷ [] }

abbrev pub tasks : List JobTask
tasks = first_task ∷ second_task ∷ []

wired : wire jobs ≡ ok (1, tasks)
unfolding wire associate senders_of
wired = refl

abbrev pub services : Uuid → Services
services u = record {
  RunnableJob = Unit;
  find_artifacts = ok [];
  staging_store = record { root_path = "staging"; store = [] };
  release_stores = [];
  build_from_job = λ artifacts. ok tt;
  run_job = λ runnable. ok (ok ("out.pkg" ∷ []));
  is_open = λ c. true;
}

abbrev of_second : Artifacts
of_second = (2, built "out.pkg" ∷ []) ∷ []

abbrev of_first : Artifacts
of_first = (2, built "out.pkg" ∷ []) ∷ (1, built "out.pkg" ∷ []) ∷ []

abbrev pub messages : ℕ → List JobResult
messages c = if c == 0 then ok of_first ∷ [] else if c == 2 then ok of_second ∷ [] else []

runs : Unit {0}
unfolding run proceed reuse_or_build build replacements send_all receive_dependencies
    perform_receive extend map_insert
runs = tt

sends_first : (run_of services messages first_task).sent ≡ (0, ok of_first) ∷ []
unfolding runs
sends_first = refl

sends_second : (run_of services messages second_task).sent ≡ (2, ok of_second) ∷ []
unfolding runs
sends_second = refl

pub execution : IsExecution services messages tasks
execution = record { sent = is_sent; arrives = is_there }
  where
    is_sent :
        (c : ℕ) (m : JobResult)
        → In m (messages c)
        → (t : JobTask) × In t tasks × In (c, m) (run_of services messages t).sent
    is_sent c m at = elim (Bool-cases (c == 0)) [
      | inl root ↦
          let one : ok of_first ≡ m = In-singleton (rw (root, if◌then◌else◌) at at) in
          let zero' = (nat_eq.beq_iff c 0).0 root in
          (first_task, here refl, subst (In (c, m)) (sym sends_first) (here (cc)))
      | inr other ↦ elim (Bool-cases (c == 2)) [
        | inl of_1 ↦
            let one : ok of_second ≡ m = In-singleton (rw (other, of_1, if◌then◌else◌) at at) in
            let two = (nat_eq.beq_iff c 2).0 of_1 in
            (second_task, there (here refl), subst (In (c, m)) (sym sends_second) (here (cc)))
        | inr no_channel ↦ absurd (not-In-nil (rw (other, no_channel, if◌then◌else◌) at at))
      ]
    ]

    is_there :
        (c : ℕ) (m : JobResult) (t : JobTask)
        → In t tasks
        → In (c, m) (run_of services messages t).sent
        → In m (messages c)
    is_there c m t (here same) at =
        let sends =
          subst (λ (x : JobTask). In (c, m) (run_of services messages x).sent) (sym same) at in
        let pair = In-singleton (subst (In (c, m)) sends_first sends) in
        subst (λ (p : ℕ × JobResult). In p.1 (messages p.0)) pair (here refl)
    is_there c m t (there (here same)) at =
        let sends =
          subst (λ (x : JobTask). In (c, m) (run_of services messages x).sent) (sym same) at in
        let pair = In-singleton (subst (In (c, m)) sends_second sends) in
        subst (λ (p : ℕ × JobResult). In p.1 (messages p.0)) pair (here refl)
    is_there c m t (there (there m')) at = absurd (not-In-nil m')

-- The only dependency is that of the first job on the second.
only_dependency : (j : JobDefinition) (d : Uuid) → In j jobs → DependsOn j d → (first ≡ j) × (2 ≡ d)
only_dependency j d (here same) at =
    (same, In-singleton (subst (λ (x : JobDefinition). DependsOn x d) (sym same) at))
only_dependency j d (there (here same)) at =
    absurd (not-In-nil (subst (λ (x : JobDefinition). DependsOn x d) (sym same) at))
only_dependency j d (there (there m)) at = absurd (not-In-nil m)

abbrev rank : Uuid → ℕ
rank u = if u == 1 then 1 else 0

acyclic : IsAcyclic jobs
acyclic = record { rank = rank; descends = descends; distinct = distinct }
  where
    descends : (j : JobDefinition) (d : Uuid) → In j jobs → DependsOn j d → rank d < rank j.job
    descends j d m at =
        let (j_is, d_is) = only_dependency j d m at in
        let below : rank 2 < rank first.job = omega arith in
        subst (λ (x : JobDefinition). rank d < rank x.job) j_is
          (subst (λ (u : Uuid). rank u < rank first.job) d_is below)

    distinct : (j k : JobDefinition) → In j jobs → In k jobs → j.job ≡ k.job → j ≡ k
    distinct j k (here a) (here b) e = sym a ∙ b
    distinct j k (there (here a)) (there (here b)) e = sym a ∙ b
    distinct j k (here a) (there (here b)) e =
        let no : 1 ≡ 2 =
          ap (λ (x : JobDefinition). x.job) a ∙ e ∙ ap (λ (x : JobDefinition). x.job) (sym b) in
        absurd (omega (arith, no))
    distinct j k (there (here a)) (here b) e =
        let no : 2 ≡ 1 =
          ap (λ (x : JobDefinition). x.job) a ∙ e ∙ ap (λ (x : JobDefinition). x.job) (sym b) in
        absurd (omega (arith, no))
    distinct j k (there (there m)) n e = absurd (not-In-nil m)
    distinct j k m (there (there n)) e = absurd (not-In-nil n)

tree : IsTree jobs 1
tree = record { complete = complete; single = single }
  where
    complete :
        (j : JobDefinition) (d : Uuid)
        → In j jobs
        → DependsOn j d
        → (k : JobDefinition) × In k jobs × (k.job ≡ d)
    complete j d m at = (second, there (here refl), (only_dependency j d m at).1)

    single :
        (j : JobDefinition)
        → In j jobs
        → j.job ≢ 1
        → (k : JobDefinition) × In k jobs × DependsOn k j.job
    single j (here same) other = absurd (other (ap (λ (x : JobDefinition). x.job) (sym same)))
    single j (there (here same)) other =
        (first, here refl, here (ap (λ (x : JobDefinition). x.job) same))
    single j (there (there m)) other = absurd (not-In-nil m)

pub good : (u : Uuid) → Succeeds (services u)
good u = record {
  found = [];
  finds = refl;
  prepares = λ artifacts. (tt, refl);
  runs = λ r. ("out.pkg" ∷ [], refl);
  opened = λ c. refl;
}

first_sends : In (0, ok of_first) (run_of services messages first_task).sent
first_sends = subst (In (0, ok of_first)) (sym sends_first) (here refl)

sent-Needs_example : contains_key of_first 2 ≡ true
sent-Needs_example =
    sent-Needs jobs wired acyclic services messages execution first_task 0 of_first (here refl)
      first_sends (over (here refl) (here refl) itself)

finish_tree_lem_example :
    (v : Artifacts) × (finish_tree (map (run_of services messages) tasks) (messages root_channel)
      ≡ ok (artifacts_of v, []))
    × ((u : Uuid) → Needs jobs 1 u → contains_key v u ≡ true)
finish_tree_lem_example =
    finish_tree_lem jobs wired acyclic tree services messages execution good tasks (λ t at. at)
