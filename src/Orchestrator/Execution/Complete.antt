-- ===== src/Orchestrator/Execution/Complete.antt =====
-- What the results of the tasks contain (src/orchestrator/orchestrator.rs, `run_tree`).
use butido.Prelude.{
  ℕ, zero, suc, ◌<◌, ◌≡◌, sym, ◌∙◌, ap, subst, inl, inr, true, List, [], arith, In, In-of_all, ok,
  ◌==◌, nat_eq, eq_refl, contains_key, extend, map_insert, contains_key-insert, contains_key-extend,
  Bool-cases,
}
use butido.Orchestrator.Task.{Uuid, Artifacts, JobResult, Services, JobTask}
use butido.Orchestrator.Task.Receiving.{no_errors, ready_invariant}
use butido.Orchestrator.Task.Outcome.{IsOutput, run-IsOutput}
use butido.Orchestrator.Tree.{JobDefinition, channel, wire}
use butido.Orchestrator.Tree.Senders.{DependsOn}
use butido.Orchestrator.Tree.Wiring.{TaskOf, wire-GoesTo, wire-TaskOf}
use butido.Orchestrator.Execution.{run_of, IsExecution}

-- A job needs itself, and what the jobs need that it depends on.
pub data Needs (jobs : List JobDefinition) : Uuid → Uuid → Type 0 where
  itself : {u : Uuid} → Needs jobs u u
  over :
      {j : JobDefinition} {d u : Uuid}
      → In j jobs
      → DependsOn j d
      → Needs jobs d u
      → Needs jobs j.job u

-- Jobs have different UUIDs, and no cycles: a dependency has a lower rank.
pub record IsAcyclic (jobs : List JobDefinition) : Type 0 where
  pub rank : Uuid → ℕ
  pub descends : (j : JobDefinition) (d : Uuid) → In j jobs → DependsOn j d → rank d < rank j.job
  pub distinct : (j k : JobDefinition) → In j jobs → In k jobs → j.job ≡ k.job → j ≡ k

-- With a job, a result has the dependencies of the job.
pub IsClosed : List JobDefinition → Artifacts → Type 0
IsClosed jobs m =
    (j : JobDefinition) (d : Uuid)
    → In j jobs
    → DependsOn j d
    → contains_key m j.job ≡ true
    → contains_key m d ≡ true

extend-IsClosed :
    (jobs : List JobDefinition) (a b : Artifacts)
    → IsClosed jobs a
    → IsClosed jobs b
    → IsClosed jobs (extend a b)
unfolding IsClosed
extend-IsClosed jobs a b ca cb j d m n h =
    ground (arith, contains_key-extend j.job b a, contains_key-extend d b a, ca j d m n, cb j d m n)

Needs-contained :
    (jobs : List JobDefinition) (m : Artifacts) {v u : Uuid}
    → IsClosed jobs m
    → contains_key m v ≡ true
    → Needs jobs v u
    → contains_key m u ≡ true
unfolding IsClosed
Needs-contained jobs m c h itself = h
Needs-contained jobs m c h (over {j = j} {d = d} at n rest) =
    Needs-contained jobs m c (c j d at n h) rest

module _ (jobs : List JobDefinition) {root : Uuid} {tasks : List JobTask}
    (wired : wire jobs ≡ ok (root, tasks)) (acyclic : IsAcyclic jobs) (services : Uuid → Services)
    (messages : ℕ → List JobResult) (execution : IsExecution services messages tasks) where
  -- A task that sends to the channel of another is that of one of its dependencies.
  pub sender-DependsOn :
      (s t : JobTask) (j : JobDefinition)
      → In s tasks
      → In j jobs
      → TaskOf t j
      → In (channel t.uuid) s.sender
      → DependsOn j s.uuid
  sender-DependsOn s t j ms mj of_j at =
      elim (((wire-GoesTo jobs wired).1 s ms (channel t.uuid)).0 at).target [
        | inr (_, no_channel) ↦ absurd (omega arith)
        | inl (k, mk, depends, same) ↦
            let same_uuid : k.job ≡ j.job = cc (of_j.named) in
            subst (λ (x : JobDefinition). DependsOn x s.uuid) (acyclic.distinct k j mk mj same_uuid)
              depends
      ]

  -- A dependency has a lower rank than the task.
  pub rank-lt :
      (n : ℕ) (t : JobTask) (j : JobDefinition) (d : Uuid)
      → acyclic.rank t.uuid < suc n
      → In j jobs
      → TaskOf t j
      → DependsOn j d
      → acyclic.rank d < n
  rank-lt n t j d below mj of_j depends =
      let descends = acyclic.descends j d mj depends in
      let same_rank = ap acyclic.rank of_j.named in omega (arith, below, descends, same_rank)

  output-Closed :
      (t : JobTask) (j : JobDefinition) (m : Artifacts)
      → In j jobs
      → TaskOf t j
      → ((v : Artifacts) → In {A = JobResult} (ok v) (messages (channel t.uuid)) → IsClosed jobs v)
      → IsOutput (services t.uuid) t (messages (channel t.uuid)) m
      → (contains_key m t.uuid ≡ true) × IsClosed jobs m
  unfolding IsClosed
  output-Closed t j m mj of_j each o =
      let closed =
        ready_invariant t.dependencies (IsClosed jobs) (extend-IsClosed jobs)
          (messages (channel t.uuid)) (no_errors []) (λ k d mk n h. absurd (cc)) each o.gathered in
      let own = contains_key-insert t.uuid t.uuid o.own o.received in
      (
        subst (λ (x : Artifacts). contains_key x t.uuid ≡ true) o.made
            (ground (arith, own, eq_refl t.uuid)),
        subst (IsClosed jobs) o.made (λ k d mk n h. inserted closed k d mk n h),
      )
    where
      inserted :
          IsClosed jobs o.received
          → (k : JobDefinition) (d : Uuid) → In k jobs
          → DependsOn k d
          → contains_key (map_insert t.uuid o.own o.received) k.job ≡ true
          → contains_key (map_insert t.uuid o.own o.received) d ≡ true
      inserted closed k d mk n h =
          let at_k = contains_key-insert t.uuid k.job o.own o.received in
          let at_d = contains_key-insert t.uuid d o.own o.received in
          elim (Bool-cases (t.uuid == k.job)) [
            | inr other ↦ ground (arith, at_k, at_d, closed k d mk n)
            | inl same ↦
                let name = (nat_eq.beq_iff t.uuid k.job).0 same in
                let is_j = acyclic.distinct j k mj mk (of_j.named ∙ name) in
                let is_dependency : In d t.dependencies =
                  subst (In d) (of_j.same_dependencies)
                    (subst (λ (x : JobDefinition). DependsOn x d) (sym is_j) n) in
                let got = In-of_all (contains_key o.received) o.complete is_dependency in
                ground (arith, at_d, got)
          ]

  sent-Closed :
      (n : ℕ) (t : JobTask) (c : ℕ) (m : Artifacts)
      → acyclic.rank t.uuid < n
      → In t tasks
      → In (c, ok m) (run_of services messages t).sent
      → (contains_key m t.uuid ≡ true) × IsClosed jobs m
  sent-Closed zero t c m below at sends = absurd (omega arith)
  sent-Closed (suc n) t c m below at sends =
      let (j, mj, of_j) = (wire-TaskOf jobs wired).0 t at in
      let (o, _) = run-IsOutput (services t.uuid) t (messages (channel t.uuid)) sends in
      output-Closed t j m mj of_j
        (λ v came.
          let (s, ms, sent) = execution.sent (channel t.uuid) (ok v) came in
          let (_, to_t) = run-IsOutput (services s.uuid) s (messages (channel s.uuid)) sent in
          let depends = sender-DependsOn s t j ms mj of_j to_t in
          (sent-Closed n s (channel t.uuid) v (rank-lt n t j s.uuid below mj of_j depends) ms
            sent).1)
        o

  -- If the jobs have different UUIDs and no cycle, then whatever the services do and in whatever order
  -- the tasks run, a result that a task sends has an entry for every job that the task's job needs,
  -- directly or over other jobs.
  pub sent-Needs :
      (t : JobTask) (c : ℕ) (m : Artifacts) {u : Uuid}
      → In t tasks
      → In (c, ok m) (run_of services messages t).sent
      → Needs jobs t.uuid u
      → contains_key m u ≡ true
  sent-Needs t c m at sends needs =
      let (own, closed) = sent-Closed (suc (acyclic.rank t.uuid)) t c m (omega arith) at sends in
      Needs-contained jobs m closed own needs
