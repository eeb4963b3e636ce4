-- ===== src/Job/Dag/Packages.antt =====
-- From a package to the artifacts of everything it needs: `Dag::for_root_package`
-- (src/package/dag.rs), the jobs (src/job/dag.rs), and the run of their tasks
-- (src/orchestrator/orchestrator.rs).
use butido.Prelude.{
  ℕ, ◌<◌, ◌≤◌, ◌==◌, arith, Bool-cases, ◌≡◌, sym, ◌∙◌, ap, subst, ◌↔◌, inl, inr, true, some, List,
  [], map, get_elem?, length, In, ok, nat_eq, contains_key,
}
use butido.Package.Condition.{ConditionData}
use butido.Package.Types.{key, Package}
use butido.Package.Dependency.{DependencySyntax}
use butido.Package.Dag.Dependencies.{DependencyType}
use butido.Package.Dag.Build.{Repository, HashOrder, PackageGraph, Dag}
use butido.Package.Dag.Build.Growth.{IsKeyed}
use butido.Package.Dag.Build.Keeps.{IsMap}
use butido.Package.Dag.Build.Visited.{DependsOn, direct, below}
use butido.Package.Dag.Build.Nodes.{In-get_elem?}
use butido.Package.Dag.Build.Passes.{Returns}
use butido.Package.Dag.Build.Closure.{for_root_package-origin, for_root_package-Distinct}
use butido.Package.Dag.Build.Parents.{
  get_elem?-some, get_elem?-lt, get_elem?-Distinct, dependency_edge, dependency_index,
  for_root_package-needed, for_root_package-inside,
}
use butido.Orchestrator.Task.{Uuid, Artifacts, artifacts_of, JobResult, JobTask, Services}
use butido.Orchestrator.Task.Success.{Succeeds}
use butido.Orchestrator.Tree.{JobDefinition, root_channel, wire}
use butido.Orchestrator.Tree.Senders.{DependsOn as JobDependsOn}
use butido.Orchestrator.Tree.Wiring.{wire-root}
use butido.Orchestrator.Tree.Total.{wire_total}
use butido.Orchestrator.Execution.{run_of, IsExecution, finish_tree}
use butido.Orchestrator.Execution.Complete.{Needs, itself, over, IsAcyclic}
use butido.Orchestrator.Execution.Success.{IsTree, finish_tree_lem}
use butido.Job.Dag.{JobSettings, from_package_dag, iter}
use butido.Job.Dag.Tree.{IsPackageGraph, iter-IsTree, iter-node, iter-job, edge-Needs}

Needs-trans :
    (jobs : List JobDefinition) {u v w : Uuid} → Needs jobs u v → Needs jobs v w → Needs jobs u w
Needs-trans jobs itself n = n
Needs-trans jobs (over m d rest) n = over m d (Needs-trans jobs rest n)

-- What is drawn at random, and what petgraph says of the edges of an `Acyclic`: the UUIDs are
-- different, `neighbors` are the ends of a node's edges, and the nodes have a topological order.
pub record JobGraph (edges : List (ℕ × ℕ × DependencyType)) : Type 0 where
  pub new_v4 : ℕ → Uuid
  pub different : (i j : ℕ) → new_v4 i ≡ new_v4 j → i ≡ j
  pub neighbors : ℕ → List ℕ
  pub neighbors_iff :
      (i j : ℕ) → In j (neighbors i) ↔ ((kind : DependencyType) × In (i, j, kind) edges)
  pub position : ℕ → ℕ
  pub position_lt :
      (i j : ℕ) (kind : DependencyType) → In (i, j, kind) edges → position j < position i

module _ (g : PackageGraph) (repo : Repository) (syntax : DependencySyntax) (data' : ConditionData)
    (order : HashOrder) (keyed : IsKeyed repo) (unique : IsMap repo) (p : Package)
    (stored : In (key p, p) repo) {d : Dag g}
    (h : Returns g repo syntax data' order keyed unique p d) (settings : JobSettings)
    (made : JobGraph (g.edges d.dag)) where
  open g use {nodes, edges}

  -- The definitions of the jobs of a returned graph
  abbrev pub jobs_of : List JobDefinition
  jobs_of =
      iter settings made.new_v4 made.neighbors
        (from_package_dag settings made.new_v4 made.neighbors (nodes d.dag))

  IsPackageGraph-made :
      IsPackageGraph (length (nodes d.dag)) d.root_idx (edges d.dag) made.new_v4 made.neighbors
  IsPackageGraph-made = record {
    neighbors_iff = made.neighbors_iff;
    different = made.different;
    position = made.position;
    position_lt = made.position_lt;
    inside = λ i j kind m.
        for_root_package-inside g repo syntax data' order keyed unique p stored h i j kind m;
    needed = λ i inside other.
        for_root_package-needed g repo syntax data' order keyed unique p stored h i inside other;
  }

  -- The jobs of a returned graph of packages have no cycle, every dependency of them is a job, and
  -- each job but that of the root package has a job that depends on it.
  pub for_root_package-IsTree : IsAcyclic jobs_of × IsTree jobs_of (made.new_v4 d.root_idx)
  for_root_package-IsTree =
      iter-IsTree settings made.new_v4 made.neighbors (nodes d.dag) d.root_idx (edges d.dag)
        IsPackageGraph-made

  -- The job of a package needs those of its dependencies.
  DependsOn-Needs :
      {q r : Package} (i j : ℕ)
      → DependsOn g repo syntax data' q r
      → get_elem? (nodes d.dag) i ≡ some q
      → get_elem? (nodes d.dag) j ≡ some r
      → Needs jobs_of (made.new_v4 i) (made.new_v4 j)
  DependsOn-Needs i j (direct item found) at_i at_j =
      let (kind, m) =
        dependency_edge g repo syntax data' order keyed unique p stored h i j item found at_i
          at_j in
      edge-Needs settings made.new_v4 made.neighbors (nodes d.dag) d.root_idx (edges d.dag)
        IsPackageGraph-made i j kind m
  DependsOn-Needs i j (below first rest) at_i at_j =
      let (k, at_k) =
        dependency_index g repo syntax data' order keyed unique p stored h i first at_i in
      Needs-trans jobs_of (DependsOn-Needs i k first at_i at_k) (DependsOn-Needs k j rest at_k at_j)

  -- The job of the root package needs that of every package of the graph.
  root-Needs :
      (i : ℕ) → i < length (nodes d.dag) → Needs jobs_of (made.new_v4 d.root_idx) (made.new_v4 i)
  root-Needs i inside =
      let (distinct, at_root) =
        for_root_package-Distinct g repo syntax data' order keyed unique p h in
      let (q, at) = get_elem?-some (nodes d.dag) i inside in
      elim (for_root_package-origin g repo syntax data' order keyed unique p h q
        (In-get_elem? (nodes d.dag) i q at)) [
          | inr reached ↦ DependsOn-Needs d.root_idx i reached at_root at
          | inl same ↦
              let same_index =
                get_elem?-Distinct (nodes d.dag) d.root_idx i distinct at_root
                  (at ∙ ap (λ (x : Package). some x) same) in
              subst (λ (x : ℕ). Needs jobs_of (made.new_v4 d.root_idx) (made.new_v4 x)) same_index
                itself
        ]

  Needs-rank :
      (acyclic : IsAcyclic jobs_of) {u v : Uuid}
      → Needs jobs_of u v
      → acyclic.rank v ≤ acyclic.rank u
  Needs-rank acyclic itself = omega arith
  Needs-rank acyclic (over {j = j} {d = x} m depends rest) =
      let lower = acyclic.descends j x m depends in
      let more = Needs-rank acyclic rest in omega (arith, lower, more)

  -- No job depends on that of the root package, since it needs every other.
  root_unused : (k : JobDefinition) → In k jobs_of → ¬ JobDependsOn k (made.new_v4 d.root_idx)
  root_unused k m depends =
      let acyclic = for_root_package-IsTree.0 in
      let (i, inside, is) =
        iter-node settings made.new_v4 made.neighbors (nodes d.dag) d.root_idx (edges d.dag)
          IsPackageGraph-made k m in
      let below_root = Needs-rank acyclic (root-Needs i inside) in
      let above = acyclic.descends k (made.new_v4 d.root_idx) m depends in
      let same = ap acyclic.rank is in omega (arith, below_root, above, same)

  never_itself : (j : JobDefinition) → In j jobs_of → ¬ JobDependsOn j j.job
  never_itself j m depends =
      let lower = for_root_package-IsTree.0.descends j j.job m depends in omega (arith, lower)

  -- If the graph of a root package of the repository is returned and no UUID is drawn twice, the tasks
  -- of its jobs can be wired, and the root is the job of that package.
  pub for_root_package-wire :
      (tasks : List JobTask) × (wire jobs_of ≡ ok (made.new_v4 d.root_idx, tasks))
  for_root_package-wire =
      let (_, at_root) = for_root_package-Distinct g repo syntax data' order keyed unique p h in
      let (r, m, r_is) =
        iter-job settings made.new_v4 made.neighbors (nodes d.dag) d.root_idx (edges d.dag)
          IsPackageGraph-made d.root_idx (get_elem?-lt (nodes d.dag) d.root_idx at_root) in
      let (root, tasks, wired) =
        wire_total jobs_of r never_itself m
          (λ k n. subst (λ (u : Uuid). ¬ JobDependsOn k u) (sym r_is) (root_unused k n)) in
      (tasks, subst (λ (u : Uuid). wire jobs_of ≡ ok (u, tasks)) (root_same root tasks wired) wired)
    where
      root_same :
          (root : Uuid) (tasks : List JobTask)
          → wire jobs_of ≡ ok (root, tasks)
          → root ≡ made.new_v4 d.root_idx
      root_same root tasks wired =
          let (_, unused, (r, m, name)) = wire-root jobs_of wired in
          elim (Bool-cases (root == made.new_v4 d.root_idx)) [
            | inl same ↦ (nat_eq.beq_iff root (made.new_v4 d.root_idx)).0 same
            | inr other ↦
                let (k, n, depends) =
                  for_root_package-IsTree.1.single r m
                    (λ e. cc ((nat_eq.beq_iff root (made.new_v4 d.root_idx)).1 (sym name ∙ e))) in
                absurd (unused k n (subst (JobDependsOn k) name depends))
          ]

  -- If the graph of a root package of the repository is returned, no UUID is drawn twice, the jobs are
  -- wired, the services succeed and all channels are open, then all tasks end without an error, in
  -- whatever order, and the orchestrator returns, without errors, the artifacts of a result that has
  -- an entry for every package of the graph.
  pub for_root_package-builds :
      {tasks : List JobTask}
      → wire jobs_of ≡ ok (made.new_v4 d.root_idx, tasks)
      → (services : Uuid → Services) (messages : ℕ → List JobResult)
      → IsExecution services messages tasks
      → ((u : Uuid) → Succeeds (services u))
      → (ended : List JobTask) → ((t : JobTask) → In t ended → In t tasks)
      → (v : Artifacts) × (finish_tree
            (map (run_of services messages) ended)
            (messages root_channel)
          ≡ ok (artifacts_of v, []))
        × ((i : ℕ) → i < length (nodes d.dag) → contains_key v (made.new_v4 i) ≡ true)
  for_root_package-builds wired services messages execution good ended inside =
      let (acyclic, tree) = for_root_package-IsTree in
      let (v, finishes, all_needed) =
        finish_tree_lem jobs_of wired acyclic tree services messages execution good ended inside in
      (v, finishes, λ i below'. all_needed (made.new_v4 i) (root-Needs i below'))
