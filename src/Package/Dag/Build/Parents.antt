-- ===== src/Package/Dag/Build/Parents.antt =====
-- Which nodes of a returned graph have an edge to them (src/package/dag.rs).
use butido.Prelude.{
  ℕ, zero, suc, ◌<◌, ◌≤◌, ◌≡◌, ◌≢◌, refl, sym, ◌∙◌, ap, subst, inl, inr, some, List, [], ◌∷◌, ◌&&◌,
  arith, length, get_elem?, In, here, there, not-In-nil, In-map_intro, In-filter_intro, any_of_In,
  ok, ◌==◌, string_eq, pair_eq, eq_refl,
}
use butido.Package.Condition.{ConditionData}
use butido.Package.Types.{Key, key, Package}
use butido.Package.Dependency.{DependencySyntax}
use butido.Package.Dag.Dependencies.{DependencyType, Item, get_package_dependencies}
use butido.Package.Dag.Build.{Repository, find_with_version, HashOrder, PackageGraph, Dag}
use butido.Package.Dag.Build.Growth.{IsKeyed, In-find_with_version}
use butido.Package.Dag.Build.Keeps.{IsMap, length-find_with_version}
use butido.Package.Dag.Build.Visited.{DependsOn, direct, below}
use butido.Package.Dag.Build.Nodes.{Distinct, In-get_elem?}
use butido.Package.Dag.Build.Closure.{
  for_root_package-items, for_root_package-origin, for_root_package-Distinct,
  for_root_package-item_edges,
}
use butido.Package.Dag.Build.Passes.{Returns}

pub get_elem?-lt :
    (ps : List Package) (i : ℕ) {q : Package} → get_elem? ps i ≡ some q → i < length ps
get_elem?-lt [] i h = absurd (cc)
get_elem?-lt (p ∷ ps) zero h = omega arith
get_elem?-lt (p ∷ ps) (suc i) h = let below' = get_elem?-lt ps i h in omega (arith, below')

pub get_elem?-some :
    (ps : List Package) (i : ℕ) → i < length ps → (q : Package) × (get_elem? ps i ≡ some q)
get_elem?-some [] i h = absurd (omega arith)
get_elem?-some (p ∷ ps) zero h = (p, refl)
get_elem?-some (p ∷ ps) (suc i) h = get_elem?-some ps i (omega (arith, h))

get_elem?-In : (ps : List Package) {q : Package} → In q ps → (i : ℕ) × (get_elem? ps i ≡ some q)
get_elem?-In (p ∷ ps) (here e) = (0, ap (λ (x : Package). some x) e)
get_elem?-In (p ∷ ps) (there m) = let (i, at) = get_elem?-In ps m in (suc i, at)
get_elem?-In [] m = absurd (not-In-nil m)

-- A node has one index.
pub get_elem?-Distinct :
    (ps : List Package) (i j : ℕ) {q : Package}
    → Distinct ps
    → get_elem? ps i ≡ some q
    → get_elem? ps j ≡ some q
    → i ≡ j
get_elem?-Distinct [] i j d a b = absurd (cc)
get_elem?-Distinct (p ∷ ps) zero zero d a b = refl
get_elem?-Distinct (p ∷ ps) (suc i) (suc j) d a b = ap suc (get_elem?-Distinct ps i j d.1 a b)
get_elem?-Distinct (p ∷ ps) zero (suc j) {q} d a b =
    let same : p ≡ q = cc in
    let again =
      any_of_In (λ x. key x == key p) (In-get_elem? ps j q b)
        (ap (λ (x : Package). key x == key p) (sym same) ∙ eq_refl (key p)) in
    absurd (cc (d.0))
get_elem?-Distinct (p ∷ ps) (suc i) zero {q} d a b =
    let same : p ≡ q = cc in
    let again =
      any_of_In (λ x. key x == key p) (In-get_elem? ps i q a)
        (ap (λ (x : Package). key x == key p) (sym same) ∙ eq_refl (key p)) in
    absurd (cc (d.0))

find_with_version_intro :
    (repo : Repository) (k : Key) {q : Package}
    → In (k, q) repo
    → In q (find_with_version repo k.0 k.1)
unfolding find_with_version
find_with_version_intro repo k {q} m =
    In-map_intro (λ (e : Key × Package). e.1)
      (In-filter_intro (λ e. e.0.0 == k.0 && e.0.1 == k.1) m (eq_refl k))

In-short : (ps : List Package) {q r : Package} → length ps ≤ 1 → In q ps → In r ps → q ≡ r
In-short (x ∷ []) h (here a) (here b) = sym a ∙ b
In-short (x ∷ y ∷ ps) h m n = absurd (omega (arith, h))
In-short (x ∷ []) h (there m) n = absurd (not-In-nil m)
In-short (x ∷ []) h m (there n) = absurd (not-In-nil n)
In-short [] h m n = absurd (not-In-nil m)

module _ (g : PackageGraph) (repo : Repository) (syntax : DependencySyntax) (data' : ConditionData)
    (order : HashOrder) (keyed : IsKeyed repo) (unique : IsMap repo) (p : Package)
    (stored : In (key p, p) repo) where
  open g use {nodes, edges}

  -- Two packages of the repository with one key are the same.
  same_key : {q r : Package} → In (key q, q) repo → In (key r, r) repo → key q ≡ key r → q ≡ r
  same_key {q} {r} m n e =
      In-short (find_with_version repo (key q).0 (key q).1)
        (length-find_with_version repo unique (key q)) (find_with_version_intro repo (key q) m)
        (find_with_version_intro repo (key q) (subst (λ (k : Key). In (k, r) repo) (sym e) n))

  found_stored :
      (k : Key) {q : Package}
      → In q (find_with_version repo k.0 k.1)
      → In (key q, q) repo × (k ≡ key q)
  found_stored k {q} m =
      let at = In-find_with_version repo k m in
      let e = keyed (k, q) at in (subst (λ (x : Key). In (x, q) repo) e at, e)

  dependency_stored : {q r : Package} → DependsOn g repo syntax data' q r → In (key r, r) repo
  dependency_stored (direct {k = k} item found) = (found_stored k found).0
  dependency_stored (below first rest) = dependency_stored rest

  module _ {d : Dag g} (h : Returns g repo syntax data' order keyed unique p d) where
    node_stored : {q : Package} → In q (nodes d.dag) → In (key q, q) repo
    node_stored {q} m =
        elim (for_root_package-origin g repo syntax data' order keyed unique p h q m) [
          | inl same ↦ subst (λ (x : Package). In (key x, x) repo) (sym same) stored
          | inr over ↦ dependency_stored over
        ]

    -- What a node depends on is a node.
    dependency_node :
        {q r : Package}
        → In q (nodes d.dag)
        → DependsOn g repo syntax data' q r
        → In r (nodes d.dag)
    dependency_node {q} {r} m (direct {k = k} {kind = kind} item found) =
        let (t, kind', at, e) =
          for_root_package-items g repo syntax data' order keyed unique p h q m (ok (k, kind))
            item in
        let (in_repo, is) = found_stored k found in
        let k_is : k ≡ key t = cc in
        subst (λ (x : Package). In x (nodes d.dag))
          (same_key (node_stored at) in_repo (sym k_is ∙ is)) at
    dependency_node m (below first rest) = dependency_node (dependency_node m first) rest

    -- A node that another needs is a dependency of a node.
    parent :
        {q r : Package}
        → In q (nodes d.dag)
        → DependsOn g repo syntax data' q r
        → (t : Package) × (kind : DependencyType) × In t (nodes d.dag)
          × In (ok (key r, kind)) (get_package_dependencies syntax data' t)
    parent {q} {r} m (direct {k = k} {kind = kind} item found) = (
      q,
      kind,
      m,
      subst (λ (x : Key). In {A = Item} (ok (x, kind)) (get_package_dependencies syntax data' q))
          (found_stored k found).1 item,
    )
    parent m (below first rest) = parent (dependency_node m first) rest

    pub dependency_index :
        {q r : Package} (i : ℕ)
        → DependsOn g repo syntax data' q r
        → get_elem? (nodes d.dag) i ≡ some q
        → (j : ℕ) × (get_elem? (nodes d.dag) j ≡ some r)
    dependency_index {q} i over at =
        get_elem?-In (nodes d.dag) (dependency_node (In-get_elem? (nodes d.dag) i q at) over)

    -- There is an edge to what a node depends on directly.
    pub dependency_edge :
        {q r : Package} {k : Key} {kind : DependencyType} (i j : ℕ)
        → In {A = Item} (ok (k, kind)) (get_package_dependencies syntax data' q)
        → In r (find_with_version repo k.0 k.1)
        → get_elem? (nodes d.dag) i ≡ some q
        → get_elem? (nodes d.dag) j ≡ some r
        → (kind' : DependencyType) × In (i, j, kind') (edges d.dag)
    dependency_edge {q} {r} {k} {kind} i j item found at_i at_j = (
      kind,
      (for_root_package-item_edges g repo syntax data' order keyed unique p h i j kind).1 (
        q,
        r,
        at_i,
        at_j,
        subst (λ (x : Key). In {A = Item} (ok (x, kind)) (get_package_dependencies syntax data' q))
            (found_stored k found).1 item,
      ),
    )

    -- If the root package is in the repository, every node of a returned graph but the root is the
    -- end of an edge.
    pub for_root_package-needed :
        (i : ℕ)
        → i < length (nodes d.dag)
        → i ≢ d.root_idx
        → (j : ℕ) × (kind : DependencyType) × In (j, i, kind) (edges d.dag)
    for_root_package-needed i inside other =
        let (distinct, at_root) =
          for_root_package-Distinct g repo syntax data' order keyed unique p h in
        let (q, at) = get_elem?-some (nodes d.dag) i inside in
        let m = In-get_elem? (nodes d.dag) i q at in
        elim (for_root_package-origin g repo syntax data' order keyed unique p h q m) [
          | inl same ↦ absurd (
              other (
                get_elem?-Distinct (nodes d.dag) i d.root_idx distinct at
                  (at_root ∙ ap (λ (x : Package). some x) (sym same))))
          | inr over ↦
              let (t, kind, mt, item) =
                parent (In-get_elem? (nodes d.dag) d.root_idx p at_root) over in
              let (j, at_j) = get_elem?-In (nodes d.dag) mt in
              (
                j,
                kind,
                (for_root_package-item_edges g repo syntax data' order keyed unique p h j i kind).1
                    (t, q, at_j, at, item),
              )
        ]

    -- The ends of an edge are nodes.
    pub for_root_package-inside :
        (i j : ℕ) (kind : DependencyType)
        → In (i, j, kind) (edges d.dag)
        → (i < length (nodes d.dag)) × (j < length (nodes d.dag))
    for_root_package-inside i j kind m =
        let (q, r, at_i, at_j, _) =
          (for_root_package-item_edges g repo syntax data' order keyed unique p h i j kind).0 m in
        (get_elem?-lt (nodes d.dag) i at_i, get_elem?-lt (nodes d.dag) j at_j)
