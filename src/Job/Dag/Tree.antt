-- ===== src/Job/Dag/Tree.antt =====
-- The jobs of a graph of packages are a tree without cycles (src/job/dag.rs), so that the
-- orchestrator can run them.
use butido.Prelude.{
  ℕ, zero, suc, ◌+◌, ◌<◌, ◌≡◌, ◌≢◌, refl, sym, ◌∙◌, ap, subst, ◌↔◌, inl, inr, Option, none, some,
  List, [], ◌∷◌, arith, get_elem?, length, In, here, there, not-In-nil, ◌==◌, nat_eq, Bool-cases,
  Option-cases, if◌then◌else◌,
}
use butido.Package.Types.{Package}
use butido.Orchestrator.Task.{Uuid}
use butido.Orchestrator.Tree.{JobDefinition}
use butido.Orchestrator.Tree.Senders.{DependsOn}
use butido.Orchestrator.Execution.Complete.{IsAcyclic, Needs, itself, over}
use butido.Orchestrator.Execution.Success.{IsTree}
use butido.Job.{Job}
use butido.Job.Dag.{
  JobSettings, new_job, jobs_from, from_package_dag, prepend_uuid, children_uuids, definitions_from,
  iter,
}

-- A graph of `n` nodes, by its edges: `neighbors` are the ends of a node's edges, no UUID is drawn
-- twice, an edge leads to a lower position (petgraph keeps a topological order of the nodes of an
-- `Acyclic`), and every node but the root is the end of an edge.
pub record IsPackageGraph {E : Type 0} (n root : ℕ) (edges : List (ℕ × ℕ × E)) (new_v4 : ℕ → Uuid)
    (neighbors : ℕ → List ℕ) : Type 0 where
  pub neighbors_iff : (i j : ℕ) → In j (neighbors i) ↔ ((e : E) × In (i, j, e) edges)
  pub different : (i j : ℕ) → new_v4 i ≡ new_v4 j → i ≡ j
  pub position : ℕ → ℕ
  pub position_lt : (i j : ℕ) (e : E) → In (i, j, e) edges → position j < position i
  pub inside : (i j : ℕ) (e : E) → In (i, j, e) edges → (i < n) × (j < n)
  pub needed : (i : ℕ) → i < n → i ≢ root → (j : ℕ) × (e : E) × In (j, i, e) edges

-- The index that a UUID was drawn for
abbrev index_of : (ℕ → Uuid) → ℕ → Uuid → ℕ
index_of new_v4 zero u = 0
index_of new_v4 (suc n) u = let rest = index_of new_v4 n u in if new_v4 n == u then n else rest

index_of-new_v4 :
    (new_v4 : ℕ → Uuid) (n i : ℕ)
    → ((k j : ℕ) → new_v4 k ≡ new_v4 j → k ≡ j)
    → i < n
    → index_of new_v4 n (new_v4 i) ≡ i
index_of-new_v4 new_v4 zero i different below = absurd (omega arith)
index_of-new_v4 new_v4 (suc n) i different below = elim (Bool-cases (new_v4 n == new_v4 i)) [
  | inl same ↦ rw same (different n i ((nat_eq.beq_iff (new_v4 n) (new_v4 i)).0 same))
  | inr other ↦ rw other (
      index_of-new_v4 new_v4 n i different
        (not_last i below (λ is. cc ((nat_eq.beq_iff (new_v4 n) (new_v4 i)).1 (ap new_v4 is)))))
]
  where
    not_last : (i : ℕ) → i < suc n → n ≢ i → i < n
    not_last i below other = ground arith

module _ (settings : JobSettings) (new_v4 : ℕ → Uuid) (neighbors : ℕ → List ℕ) where
  node_uuid :
      (ps : List Package) (k i : ℕ)
      → i < length ps
      → (j : Job) × (get_elem? (jobs_from settings new_v4 neighbors k ps) i ≡ some j)
        × (j.uuid ≡ new_v4 (k + i))
  node_uuid [] k i below = absurd (omega arith)
  node_uuid (p ∷ ps) k zero below = (_, refl, ap new_v4 (omega arith))
  node_uuid (p ∷ ps) k (suc i) below =
      let (j, at, is) = node_uuid ps (suc k) i (omega (arith, below)) in
      (j, at, is ∙ ap new_v4 (omega arith))

  In-children :
      (dag : List Job) (children : List ℕ) (i : ℕ) (j : Job)
      → In i children
      → get_elem? dag i ≡ some j
      → In j.uuid (children_uuids settings new_v4 neighbors dag children)
  In-children dag (c ∷ children) i j (here same) at =
      let at_c : get_elem? dag c ≡ some j = ap (get_elem? dag) same ∙ at in
      subst
        (λ (o : Option Job). In j.uuid (
          prepend_uuid settings new_v4 neighbors o
            (children_uuids settings new_v4 neighbors dag children)))
        (sym at_c) (here refl)
  In-children dag (c ∷ children) i j (there m) at = elim (Option-cases (get_elem? dag c)) [
    | inl missing ↦ rw missing (In-children dag children i j m at)
    | inr (x, found) ↦ rw found (there (In-children dag children i j m at))
  ]
  In-children dag [] i j m at = absurd (not-In-nil m)

  children-In :
      (dag : List Job) (children : List ℕ) (u : Uuid)
      → In u (children_uuids settings new_v4 neighbors dag children)
      → (i : ℕ) × (j : Job) × In i children × (get_elem? dag i ≡ some j) × (j.uuid ≡ u)
  children-In dag [] u m = absurd (not-In-nil m)
  children-In dag (c ∷ children) u m =
      of_option (get_elem? dag c) refl (λ l. children-In dag children u l) m
    where
      of_option :
          (o : Option Job)
          → get_elem? dag c ≡ o
          → (In u (children_uuids settings new_v4 neighbors dag children)
              → (i : ℕ) × (j : Job) × In i children × (get_elem? dag i ≡ some j) × (j.uuid ≡ u))
          → In u (
              prepend_uuid settings new_v4 neighbors o
                (children_uuids settings new_v4 neighbors dag children))
          → (i : ℕ) × (j : Job) × In i (c ∷ children) × (get_elem? dag i ≡ some j) × (j.uuid ≡ u)
      of_option none e below l = let (i, j, n, at, is) = below l in (i, j, there n, at, is)
      of_option (some x) e below (here is) = (c, x, here refl, e, is)
      of_option (some x) e below (there l) =
          let (i, j, n, at, is) = below l in (i, j, there n, at, is)

  node_inside :
      (ps : List Package) (k i : ℕ) (j : Job)
      → get_elem? (jobs_from settings new_v4 neighbors k ps) i ≡ some j
      → (i < length ps) × (j.uuid ≡ new_v4 (k + i))
  node_inside [] k i j at = absurd (cc)
  node_inside (p ∷ ps) k zero j at =
      let same : new_job settings new_v4 neighbors k p ≡ j = cc in
      (omega arith, ap (λ (x : Job). x.uuid) (sym same) ∙ ap new_v4 (omega arith))
  node_inside (p ∷ ps) k (suc i) j at =
      let (below, is) = node_inside ps (suc k) i j at in
      (omega (arith, below), is ∙ ap new_v4 (omega arith))

  -- The definition of the job of a node
  abbrev pub definition : List Job → ℕ → JobDefinition
  definition dag i = record {
    job = new_v4 i;
    dependencies = children_uuids settings new_v4 neighbors dag (neighbors i);
  }

  definitions-In :
      (dag : List Job) (ps : List Package) (k : ℕ) (d : JobDefinition)
      → In d (
          definitions_from settings new_v4 neighbors dag k
            (jobs_from settings new_v4 neighbors k ps))
      → (i : ℕ) × (i < length ps) × (definition dag (k + i) ≡ d)
  definitions-In dag [] k d m = absurd (not-In-nil m)
  definitions-In dag (p ∷ ps) k d (here same) =
      (0, omega arith, ap (definition dag) (omega arith) ∙ same)
  definitions-In dag (p ∷ ps) k d (there m) =
      let (i, below, is) = definitions-In dag ps (suc k) d m in
      (suc i, omega (arith, below), ap (definition dag) (omega arith) ∙ is)

  In-definitions :
      (dag : List Job) (ps : List Package) (k i : ℕ)
      → i < length ps
      → In (definition dag (k + i)) (
          definitions_from settings new_v4 neighbors dag k
            (jobs_from settings new_v4 neighbors k ps))
  In-definitions dag [] k i below = absurd (omega arith)
  In-definitions dag (p ∷ ps) k zero below = here (ap (definition dag) (omega arith))
  In-definitions dag (p ∷ ps) k (suc i) below =
      let e : suc k + i ≡ k + suc i = omega arith in
      let m = In-definitions dag ps (suc k) i (omega (arith, below)) in
      there (
        subst
          (λ (x : ℕ). In (definition dag x) (
            definitions_from settings new_v4 neighbors dag (suc k)
              (jobs_from settings new_v4 neighbors (suc k) ps)))
          e m)

  module _ {E : Type 0} (ps : List Package) (root : ℕ) (edges : List (ℕ × ℕ × E))
      (graph : IsPackageGraph (length ps) root edges new_v4 neighbors) where
    abbrev dag : List Job
    dag = jobs_from settings new_v4 neighbors 0 ps

    abbrev jobs : List JobDefinition
    jobs = definitions_from settings new_v4 neighbors dag 0 dag

    node_of : (d : JobDefinition) → In d jobs → (i : ℕ) × (i < length ps) × (definition dag i ≡ d)
    node_of d m =
        let (i, below, is) = definitions-In dag ps 0 d m in
        (i, below, ap (definition dag) (omega arith) ∙ is)

    In-jobs : (i : ℕ) → i < length ps → In (definition dag i) jobs
    In-jobs i below =
        let e : 0 + i ≡ i = omega arith in
        subst (λ (x : ℕ). In (definition dag x) jobs) e (In-definitions dag ps 0 i below)

    -- A dependency of a node's job is the job of a node at the end of an edge.
    dependency_node :
        (i : ℕ) (d : Uuid)
        → DependsOn (definition dag i) d
        → (c : ℕ) × (e : E) × In (i, c, e) edges × (new_v4 c ≡ d)
    dependency_node i d m =
        let (c, j, n, at, is) = children-In dag (neighbors i) d m in
        let (_, uuid) = node_inside ps 0 c j at in
        let (e, held) = (graph.neighbors_iff i c).0 n in
        let at_c : 0 + c ≡ c = omega arith in (c, e, held, ap new_v4 (sym at_c) ∙ sym uuid ∙ is)

    -- The jobs are those of the nodes.
    pub iter-node :
        (d : JobDefinition)
        → In d (iter settings new_v4 neighbors (from_package_dag settings new_v4 neighbors ps))
        → (i : ℕ) × (i < length ps) × (new_v4 i ≡ d.job)
    unfolding iter from_package_dag
    iter-node d m =
        let (i, below, is) = node_of d m in (i, below, ap (λ (x : JobDefinition). x.job) is)

    pub iter-job :
        (i : ℕ)
        → i < length ps
        → (d : JobDefinition) × In d
            (iter settings new_v4 neighbors (from_package_dag settings new_v4 neighbors ps))
          × (d.job ≡ new_v4 i)
    unfolding iter from_package_dag
    iter-job i below = (definition dag i, In-jobs i below, refl)

    -- A job needs the job at the end of an edge.
    pub edge-Needs :
        (i j : ℕ) (e : E)
        → In (i, j, e) edges
        → Needs
            (iter settings new_v4 neighbors (from_package_dag settings new_v4 neighbors ps))
            (new_v4 i)
            (new_v4 j)
    unfolding iter from_package_dag
    edge-Needs i j e held =
        let (below_i, below_j) = graph.inside i j e held in
        let (x, at, x_is) = node_uuid ps 0 j below_j in
        let child = In-children dag (neighbors i) j x ((graph.neighbors_iff i j).1 (e, held)) at in
        over (In-jobs i below_i)
          (subst (DependsOn (definition dag i)) (x_is ∙ ap new_v4 (omega arith)) child) itself

    rank : Uuid → ℕ
    rank u = graph.position (index_of new_v4 (length ps) u)

    rank-new_v4 : (i : ℕ) → i < length ps → rank (new_v4 i) ≡ graph.position i
    unfolding rank
    rank-new_v4 i below =
        ap graph.position (index_of-new_v4 new_v4 (length ps) i graph.different below)

    -- The jobs of a graph of packages have no cycle, every dependency of them is a job, and each job
    -- but that of the root has a job that depends on it.
    pub iter-IsTree :
        IsAcyclic (iter settings new_v4 neighbors (from_package_dag settings new_v4 neighbors ps))
        × IsTree
            (iter settings new_v4 neighbors (from_package_dag settings new_v4 neighbors ps))
            (new_v4 root)
    unfolding iter from_package_dag
    iter-IsTree = (
      record { rank = rank; descends = descends; distinct = distinct },
      record { complete = complete; single = single },
    )
      where
        descends : (j : JobDefinition) (d : Uuid) → In j jobs → DependsOn j d → rank d < rank j.job
        descends j d m at =
            let (i, below, is) = node_of j m in
            let (c, e, held, uuid) =
              dependency_node i d (subst (λ (x : JobDefinition). DependsOn x d) (sym is) at) in
            let (_, c_below) = graph.inside i c e held in
            let lower = graph.position_lt i c e held in
            let of_c = ap rank (sym uuid) ∙ rank-new_v4 c c_below in
            let of_i = ap (λ (x : JobDefinition). rank x.job) (sym is) ∙ rank-new_v4 i below in
            omega (arith, lower, of_c, of_i)

        distinct : (j k : JobDefinition) → In j jobs → In k jobs → j.job ≡ k.job → j ≡ k
        distinct j k m n same =
            let (i, _, is_j) = node_of j m in
            let (l, _, is_k) = node_of k n in
            let uuid =
              ap (λ (x : JobDefinition). x.job) is_j
              ∙ same
              ∙ ap (λ (x : JobDefinition). x.job) (sym is_k) in
            sym is_j ∙ ap (definition dag) (graph.different i l uuid) ∙ is_k

        complete :
            (j : JobDefinition) (d : Uuid)
            → In j jobs
            → DependsOn j d
            → (k : JobDefinition) × In k jobs × (k.job ≡ d)
        complete j d m at =
            let (i, _, is) = node_of j m in
            let (c, e, held, uuid) =
              dependency_node i d (subst (λ (x : JobDefinition). DependsOn x d) (sym is) at) in
            (definition dag c, In-jobs c (graph.inside i c e held).1, uuid)

        single :
            (j : JobDefinition)
            → In j jobs
            → j.job ≢ new_v4 root
            → (k : JobDefinition) × In k jobs × DependsOn k j.job
        single j m other =
            let (i, below, is) = node_of j m in
            let uuid = ap (λ (x : JobDefinition). x.job) is in
            let (k, e, held) =
              graph.needed i below (λ at_root. other (sym uuid ∙ ap new_v4 at_root)) in
            let (x, at, x_is) = node_uuid ps 0 i below in
            let child =
              In-children dag (neighbors k) i x ((graph.neighbors_iff k i).1 (e, held)) at in
            (
              definition dag k,
              In-jobs k (graph.inside k i e held).0,
              subst (DependsOn (definition dag k)) (x_is ∙ ap new_v4 (omega arith) ∙ uuid) child,
            )
