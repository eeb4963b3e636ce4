-- ===== src/Package/Dag/Build/Passes.antt =====
-- The two passes of a successful `Dag::for_root_package` (src/package/dag.rs), taken apart.
use butido.Prelude.{
  ℕ, suc, ◌+◌, ◌≤◌, ◌≡◌, sym, ap, subst, inl, inr, Bool, some, List, [], ◌∷◌, ◌++◌, arith, count,
  length, get_elem?, In, here, there, not-In-nil, ok, ◌>>=◌, >>=-eq-ok, string_eq, pair_eq,
}
use butido.Package.Condition.{ConditionData}
use butido.Package.Types.{Package}
use butido.Package.Dependency.{DependencySyntax}
use butido.Package.Dag.Build.{
  Repository, HashOrder, PackageGraph, State, Dag, add_package, add_sub_packages, add_edges, start,
  enough_fuel, for_root_package,
}
use butido.Package.Dag.Build.Growth.{Holds, IsKeyed}
use butido.Package.Dag.Build.Keeps.{IsMap, add_sub_packages-keeps}
use butido.Package.Dag.Build.Visited.{deps, Resolved, Visited, add_sub_packages-Visited}
use butido.Package.Dag.Build.Nodes.{
  enumerate, get_elem?-enumerate, In-enumerate, In-get_elem?, Indexed, Indexed-start,
  Indexed-add_package,
}
use butido.Package.Dag.Build.Edges.{all_edges, Adds, add_edges-Adds}

get_elem?-snoc :
    (ps : List Package) (q p : Package)
    → get_elem? ps 0 ≡ some p
    → get_elem? (ps ++ q ∷ []) 0 ≡ some p
get_elem?-snoc [] q p h = absurd (cc)
get_elem?-snoc (x ∷ ps) q p h = h

pub count-le-length : {A : Type 0} (f : A → Bool) (xs : List A) → count f xs ≤ length xs
count-le-length f [] = omega arith
count-le-length f (x ∷ xs) = ground (arith, count-le-length f xs)

In-index : (ps : List Package) {q : Package} → In q ps → (j : ℕ) × (get_elem? ps j ≡ some q)
In-index (p ∷ ps) (here e) = (0, ap some e)
In-index (p ∷ ps) (there m) = let (j, e) = In-index ps m in (suc j, e)
In-index [] m = elim m [ ]

module _ (g : PackageGraph) (p : Package) where
  open g use {
    nodes, edges, nodes-empty, nodes-add_node, edges-empty, edges-add_node, index-add_node,
  }

  abbrev RootFirst : State g → Type 0
  RootFirst st = get_elem? (nodes st.dag) 0 ≡ some p

  abbrev NoEdges : State g → Type 0
  NoEdges st = edges st.dag ≡ []

  RootFirst-start : RootFirst (start g p)
  unfolding start
  RootFirst-start = rw (nodes-add_node, nodes-empty)

  RootFirst-add_package :
      (q : Package) (st : State g) → RootFirst st → RootFirst (add_package g q st)
  unfolding add_package
  RootFirst-add_package q st h = rw nodes-add_node (get_elem?-snoc (nodes st.dag) q p h)

  NoEdges-start : NoEdges (start g p)
  unfolding start
  NoEdges-start = rw edges-add_node edges-empty

  NoEdges-add_package : (q : Package) (st : State g) → NoEdges st → NoEdges (add_package g q st)
  unfolding add_package
  NoEdges-add_package q st h = rw edges-add_node h

  root_index : (g.add_node g.empty p).1 ≡ 0
  root_index = rw (index-add_node, nodes-empty)

  pub Holds-start : (q : Package) → Holds (start g p).mappings q → q ≡ p
  unfolding start
  Holds-start q (i, here e) = sym (ap (λ x. x.0) e)
  Holds-start q (i, there m) = absurd (not-In-nil m)

module _ (g : PackageGraph) (repo : Repository) (syntax : DependencySyntax) (data' : ConditionData)
    (order : HashOrder) (keyed : IsKeyed repo) (unique : IsMap repo) (p : Package) where
  open g use {
    Graph, nodes, edges, add_node, nodes-empty, nodes-add_node, index-add_node, edges-empty,
  }

  abbrev pub Returns : Dag g → Type 0
  Returns d = for_root_package g repo syntax data' order p ≡ ok d

  -- The state between the two passes
  pub record Passes (d : Dag g) : Type 0 where
    pub st : State g
    pub visited : Visited g repo syntax data' p (start g p) st
    pub root_resolved : Resolved g repo syntax data' (deps g repo syntax data' p) st
    pub indexed : Indexed g st
    pub first : get_elem? (nodes st.dag) 0 ≡ some p
    pub adds :
        Adds g st.dag d.dag
          (all_edges g syntax data' (order.iter st.mappings) (order.iter st.mappings))
    pub no_edges : edges st.dag ≡ []
    pub root : d.root_idx ≡ 0

  pub passes : (d : Dag g) → Returns d → Passes d
  unfolding for_root_package
  passes d h =
      let (st, first_pass, rest) =
        >>=-eq-ok
          (add_sub_packages g repo syntax data' (enough_fuel g repo syntax data' order) p
            (start g p))
          (λ st.
            add_edges g syntax data' (order.iter st.mappings) (order.iter st.mappings) st.dag
            >>= λ dag'. ok (record { dag = dag'; root_idx = (add_node g.empty p).1 }))
          h in
      let (dag', second, made) =
        >>=-eq-ok
          (add_edges g syntax data' (order.iter st.mappings) (order.iter st.mappings) st.dag)
          (λ dag'. ok (record { dag = dag'; root_idx = (add_node g.empty p).1 })) rest in
      let same : record { dag = dag'; root_idx = (add_node g.empty p).1 } ≡ d = cc in
      let fuel = enough_fuel g repo syntax data' order in
      let (v, r) =
        add_sub_packages-Visited g repo syntax data' keyed fuel p (start g p) st first_pass in
      record {
        st = st;
        visited = v;
        root_resolved = r;
        indexed =
            add_sub_packages-keeps g repo syntax data' unique (Indexed g) (Indexed-add_package g)
              fuel p (start g p) st first_pass (Indexed-start g p);
        first =
            add_sub_packages-keeps g repo syntax data' unique (RootFirst g p)
              (λ q s _. RootFirst-add_package g p q s) fuel p (start g p) st first_pass
              (RootFirst-start g p);
        no_edges =
            add_sub_packages-keeps g repo syntax data' unique (NoEdges g p)
              (λ q s _. NoEdges-add_package g p q s) fuel p (start g p) st first_pass
              (NoEdges-start g p);
        adds =
            subst
              (λ (x : Dag g).
                Adds g st.dag x.dag
                  (all_edges g syntax data' (order.iter st.mappings) (order.iter st.mappings)))
              same
              (add_edges-Adds g syntax data' (order.iter st.mappings) (order.iter st.mappings)
                st.dag dag' second);
        root = subst (λ (x : Dag g). x.root_idx ≡ 0) same (root_index g p);
      }

  pub Holds-of_node :
      {d : Dag g} (s : Passes d) (q : Package) → In q (nodes d.dag) → Holds s.st.mappings q
  Holds-of_node s q m =
      let (j, e) = In-index (nodes s.st.dag) (subst (In q) s.adds.same_nodes m) in
      (0 + j, subst (In (q, 0 + j)) (sym s.indexed.entries) (In-enumerate 0 (nodes s.st.dag) q j e))

  pub node_of_Holds :
      {d : Dag g} (s : Passes d) (q : Package) → Holds s.st.mappings q → In q (nodes d.dag)
  node_of_Holds s q (i, m) =
      let (j, _, e) =
        get_elem?-enumerate 0 (nodes s.st.dag) (subst (In (q, i)) s.indexed.entries m) in
      subst (In q) (sym s.adds.same_nodes) (In-get_elem? (nodes s.st.dag) j q e)

  pub entry_at :
      {d : Dag g} (s : Passes d) (q : Package) (i : ℕ)
      → In (q, i) (order.iter s.st.mappings)
      → get_elem? (nodes d.dag) i ≡ some q
  entry_at s q i m =
      let (j, e, at) =
        get_elem?-enumerate 0 (nodes s.st.dag)
          (subst (In (q, i)) s.indexed.entries ((order.same s.st.mappings (q, i)).0 m)) in
      let index : i ≡ j = omega arith in rw (index, s.adds.same_nodes) at

  pub entry_of :
      {d : Dag g} (s : Passes d) (q : Package) (i : ℕ)
      → get_elem? (nodes d.dag) i ≡ some q
      → In (q, i) (order.iter s.st.mappings)
  entry_of s q i e =
      let index : 0 + i ≡ i = omega arith in
      (order.same s.st.mappings (q, i)).1 (
        subst (In (q, i)) (sym s.indexed.entries) (
          subst (λ j. In (q, j) (enumerate 0 (nodes s.st.dag))) index
            (In-enumerate 0 (nodes s.st.dag) q i (rw s.adds.same_nodes at e))))

  pub resolved :
      {d : Dag g} (s : Passes d) (q : Package)
      → Holds s.st.mappings q
      → Resolved g repo syntax data' (deps g repo syntax data' q) s.st
  resolved s q h = elim (s.visited.closed q h) [
    | inr done ↦ done
    | inl old ↦
        subst (λ r. Resolved g repo syntax data' (deps g repo syntax data' r) s.st)
          (sym (Holds-start g p q old)) s.root_resolved
  ]
