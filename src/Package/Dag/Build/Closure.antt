-- ===== src/Package/Dag/Build/Closure.antt =====
-- What `Dag::for_root_package` returns (src/package/dag.rs).
use butido.Prelude.{
  ℕ, ◌≡◌, sym, ◌∙◌, ap, subst, ◌⊎◌, inl, inr, ◌↔◌, String, Option, some, ◌++◌, get_elem?, In,
  In-of_any, ok, ◌==◌, string_eq, pair_eq,
}
use butido.Package.Condition.{Condition, ConditionData}
use butido.Package.Types.{Key, key, Package}
use butido.Package.Dependency.{DependencySyntax}
use butido.Package.Dag.Dependencies.{DependencyType, Needed, Item, get_package_dependencies}
use butido.Package.Dag.Dependencies.Declared.{Declares, Applies, Reads, Requires}
use butido.Package.Dag.Dependencies.Items.{In-get_package_dependencies, Declares-Reads}
use butido.Package.Dag.Build.{Repository, HashOrder, PackageGraph, Dag}
use butido.Package.Dag.Build.Growth.{IsKeyed}
use butido.Package.Dag.Build.Keeps.{IsMap}
use butido.Package.Dag.Build.Visited.{DependsOn}
use butido.Package.Dag.Build.Nodes.{Distinct}
use butido.Package.Dag.Build.Edges.{all_edges, In-all_edges, In-all_edges_intro}
use butido.Package.Dag.Build.Passes.{
  Returns, passes, Holds-of_node, node_of_Holds, entry_at, entry_of, resolved, Holds-start,
}

module _ (g : PackageGraph) (repo : Repository) (syntax : DependencySyntax) (data' : ConditionData)
    (order : HashOrder) (keyed : IsKeyed repo) (unique : IsMap repo) (p : Package) where
  open g use {nodes, edges}

  -- No item that `get_package_dependencies` returns for a node is an error, and a package with its
  -- name and version is a node.
  pub for_root_package-items :
      {d : Dag g}
      → Returns g repo syntax data' order keyed unique p d
      → (q : Package) → In q (nodes d.dag)
      → (item : Item) → In item (get_package_dependencies syntax data' q)
      → (r : Package) × (kind : DependencyType) × In r (nodes d.dag) × (item ≡ ok (key r, kind))
  for_root_package-items {d} h q m item n =
      let s = passes g repo syntax data' order keyed unique p d h in
      let (k, kind, e, has) =
        resolved g repo syntax data' order keyed unique p s q
          (Holds-of_node g repo syntax data' order keyed unique p s q m) item n in
      let (entry, at, same) = In-of_any (λ m. k == key m.0) s.st.mappings has in
      let key_eq : k ≡ key entry.0 = (pair_eq.beq_iff k (key entry.0)).0 same in
      (
        entry.0,
        kind,
        node_of_Holds g repo syntax data' order keyed unique p s entry.0 (entry.1, at),
        e ∙ ap (λ x. ok (x, kind)) key_eq,
      )

  -- If the construction succeeds, every node is the root package or a package of the repository
  -- that the root needs, directly or through others.
  pub for_root_package-origin :
      {d : Dag g}
      → Returns g repo syntax data' order keyed unique p d
      → (q : Package) → In q (nodes d.dag)
      → (q ≡ p) ⊎ DependsOn g repo syntax data' p q
  for_root_package-origin {d} h q m =
      let s = passes g repo syntax data' order keyed unique p d h in
      elim (s.visited.origin q (Holds-of_node g repo syntax data' order keyed unique p s q m)) [
        | inl old ↦ inl (Holds-start g p q old)
        | inr new ↦ inr new
      ]

  -- If the construction succeeds, no two nodes have the same name and version, and the root's index
  -- is that of the given package.
  pub for_root_package-Distinct :
      {d : Dag g}
      → Returns g repo syntax data' order keyed unique p d
      → Distinct (nodes d.dag) × (get_elem? (nodes d.dag) d.root_idx ≡ some p)
  for_root_package-Distinct {d} h =
      let s = passes g repo syntax data' order keyed unique p d h in
      (rw s.adds.same_nodes s.indexed.distinct, rw (s.root, s.adds.same_nodes) s.first)

  -- The edges in terms of the items that `get_package_dependencies` returns.
  pub for_root_package-item_edges :
      {d : Dag g}
      → Returns g repo syntax data' order keyed unique p d
      → (i j : ℕ) (kind : DependencyType)
      → In (i, j, kind) (edges d.dag) ↔ (
          (q : Package) × (r : Package) × (get_elem? (nodes d.dag) i ≡ some q)
          × (get_elem? (nodes d.dag) j ≡ some r)
          × In (ok (key r, kind)) (get_package_dependencies syntax data' q))
  for_root_package-item_edges {d} h i j kind =
      let s = passes g repo syntax data' order keyed unique p d h in
      let entries = order.iter s.st.mappings in
      let es : edges d.dag ≡ all_edges g syntax data' entries entries =
        s.adds.more_edges ∙ ap (λ l. l ++ all_edges g syntax data' entries entries) s.no_edges in
      (
        λ m.
            let (q, r, at_q, at_r, n) =
              In-all_edges g syntax data' entries entries (subst (In (i, j, kind)) es m) in
            (
              q,
              r,
              entry_at g repo syntax data' order keyed unique p s q i at_q,
              entry_at g repo syntax data' order keyed unique p s r j at_r,
              n,
            ),
        λ (q, r, at_q, at_r, n). subst (In (i, j, kind)) (sym es) (
            In-all_edges_intro g syntax data' entries r
              (λ t l held item m.
                let (k, kind', e, _) =
                  resolved g repo syntax data' order keyed unique p s t
                    (l, (order.same s.st.mappings (t, l)).0 held) item m in
                ((k, kind'), e))
              (entry_of g repo syntax data' order keyed unique p s q i at_q)
              (entry_of g repo syntax data' order keyed unique p s r j at_r) n),
      )

  -- If the construction succeeds, every dependency that a node declares for the build or the
  -- runtime and whose condition holds reads as the name and version of a node.
  pub for_root_package-closed :
      {d : Dag g}
      → Returns g repo syntax data' order keyed unique p d
      → (q : Package) → In q (nodes d.dag)
      → (text : String) (c : Option Condition) (kind : DependencyType) → Declares q text c kind
      → Applies c data'
      → (r : Package) × In r (nodes d.dag) × Reads syntax text (key r)
  for_root_package-closed {d} h q m text c kind declares applies =
      let (k, reads) =
        Declares-Reads syntax data' q
          (λ item n.
            let (r, kind', _, e) = for_root_package-items h q m item n in ((key r, kind'), e))
          declares applies in
      let (r, kind', at, e) = for_root_package-items h q m (ok (k, kind)) (
        (In-get_package_dependencies syntax data' q k kind).1
          (text, c, declares, applies, reads)) in
      let same : (k, kind) ≡ (key r, kind') = cc in
      (r, at, subst (λ (x : Key). Reads syntax text x) (ap (λ (x : Needed). x.0) same) reads)

  -- If the construction succeeds, there is an edge of a kind from one node to another exactly when
  -- the one declares a dependency of this kind whose condition holds and that reads as the name and
  -- version of the other. A package that is needed for the build and for the runtime has both edges.
  pub for_root_package-edges :
      {d : Dag g}
      → Returns g repo syntax data' order keyed unique p d
      → (i j : ℕ) (kind : DependencyType)
      → In (i, j, kind) (edges d.dag) ↔ (
          (q : Package) × (r : Package) × (get_elem? (nodes d.dag) i ≡ some q)
          × (get_elem? (nodes d.dag) j ≡ some r)
          × Requires syntax data' q (key r) kind)
  for_root_package-edges {d} h i j kind = (
    λ m.
        let (q, r, at_q, at_r, n) = (for_root_package-item_edges h i j kind).0 m in
        (q, r, at_q, at_r, (In-get_package_dependencies syntax data' q (key r) kind).0 n),
    λ (q, r, at_q, at_r, n).
        (for_root_package-item_edges h i j kind).1
          (q, r, at_q, at_r, (In-get_package_dependencies syntax data' q (key r) kind).1 n),
  )
