-- ===== src/Package/Dag/Build.antt =====
-- `Dag::for_root_package` with its local functions `add_sub_packages` and `add_edges`
-- (src/package/dag.rs), and `Repository::find_with_version` (src/repository/repository.rs).
pub mod Growth
pub mod Keeps
pub mod Visited
pub mod Fuel
pub mod Passes
pub mod Closure
pub mod Ends
pub mod Nodes
pub mod Edges
pub mod Parents
pub mod Examples
use butido.Prelude.{
  ℕ, zero, suc, ◌≡◌, ◌⊎◌, ◌↔◌, Bool, true, false, Option, none, some, List, [], ◌∷◌, ◌&&◌, not, map,
  filter, any, is_empty, length, In, Result, ok, err, ◌>>=◌, ◌==◌, string_eq, pair_eq,
  if◌then◌else◌,
}
use butido.Package.Condition.{ConditionData}
use butido.Package.Types.{PackageName, PackageVersion, Key, key, package_beq, Package}
use butido.Package.Dependency.{DependencySyntax}
use butido.Package.Dag.Graph.{AcyclicGraph}
use butido.Package.Dag.Dependencies.{
  DependencyType, DagError, not_found, edge, out_of_fuel, Needed, Item, get_package_dependencies,
}

-- `BTreeMap<(PackageName, PackageVersion), Package>`
abbrev pub Repository : Type 0
Repository = List (Key × Package)

unfoldable pub find_with_version : Repository → PackageName → PackageVersion → List Package
find_with_version repo name version =
    map (λ e. e.1) (filter (λ e. e.0.0 == name && e.0.1 == version) repo)

-- `HashMap<&Package, NodeIndex>`; packages are equal if name and version are.
abbrev pub Mappings : Type 0
Mappings = List (Package × ℕ)

-- `HashMap::insert`: an equal key stays, and its value is replaced.
abbrev pub insert : Package → ℕ → Mappings → Mappings
insert p i [] = (p, i) ∷ []
insert p i ((q, j) ∷ ms) = if package_beq q p then (q, i) ∷ ms else (q, j) ∷ insert p i ms

-- The order in which a `HashMap` is iterated over is not known: some list with the same entries.
pub record HashOrder : Type 0 where
  pub iter : Mappings → Mappings
  pub same : (ms : Mappings) (m : Package × ℕ) → In m (iter ms) ↔ In m ms

abbrev pub PackageGraph : Type 1
PackageGraph = AcyclicGraph Package DependencyType

module _ (g : PackageGraph) where
  open g use {Graph, add_node, try_add_edge}

  pub record State : Type 0 where
    pub mappings : Mappings
    pub dag : Graph

  abbrev pub Built : Type 0
  Built = Result DagError State

  -- `dag.add_node(p)` and `mappings.insert(p, idx)`
  pub add_package : Package → State → State
  add_package p st =
      let (dag', idx) = add_node st.dag p in
      record { mappings = insert p idx st.mappings; dag = dag' }

  -- `packs.into_iter().try_for_each(…)`, where `recurse` is `add_sub_packages`
  pub visit_packs : (Package → State → Built) → List Package → State → Built
  visit_packs recurse [] st = ok st
  visit_packs recurse (p ∷ packs) st = do
    st' ← recurse p (add_package p st)
    visit_packs recurse packs st'

  -- `mappings.keys().any(|p| packs.iter().any(…))`
  abbrev pub any_mapped : Mappings → List Package → Bool
  any_mapped ms packs = any (λ m. any (λ pk. key pk == key m.0) packs) ms

  module _ (repo : Repository) (syntax : DependencySyntax) (data' : ConditionData) where
    -- The closure of `and_then_ok`
    pub visit_dependency : (Package → State → Built) → Package → Item → State → Built
    visit_dependency recurse p (err e) st = err e
    visit_dependency recurse p (ok ((name, version), kind)) st =
        let packs = find_with_version repo name version in
        if is_empty packs
        then err (not_found (key p) (name, version))
        else if not (any_mapped st.mappings packs)
        then visit_packs recurse packs st
        else ok st

    pub visit_dependencies : (Package → State → Built) → Package → List Item → State → Built
    visit_dependencies recurse p [] st = ok st
    visit_dependencies recurse p (item ∷ items) st = do
      st' ← visit_dependency recurse p item st
      visit_dependencies recurse p items st'

    pub add_sub_packages : ℕ → Package → State → Built
    add_sub_packages zero p st = err out_of_fuel
    add_sub_packages (suc fuel) p st =
        visit_dependencies (add_sub_packages fuel) p (get_package_dependencies syntax data' p) st

  -- `mappings.iter().filter(…).try_for_each(…)`, over the entries that the filter lets through
  pub add_edges_to : Package → ℕ → DependencyType → Mappings → Graph → Result DagError Graph
  add_edges_to p idx kind [] dag = ok dag
  add_edges_to p idx kind ((dep, dep_idx) ∷ ms) dag = elim (try_add_edge dag idx dep_idx kind) [
    | none ↦ err (edge (key p) (key dep))
    | some dag' ↦ add_edges_to p idx kind ms dag'
  ]

  module _ (syntax : DependencySyntax) (data' : ConditionData) (all_mappings : Mappings) where
    abbrev pub with_key : Key → Mappings
    with_key k = filter (λ m. m.0.name == k.0 && m.0.version == k.1) all_mappings

    pub add_edges_for : Package → ℕ → List Item → Graph → Result DagError Graph
    add_edges_for p idx [] dag = ok dag
    add_edges_for p idx (err e ∷ items) dag = err e
    add_edges_for p idx (ok (k, kind) ∷ items) dag = do
      dag' ← add_edges_to p idx kind (with_key k) dag
      add_edges_for p idx items dag'

    pub add_edges : Mappings → Graph → Result DagError Graph
    add_edges [] dag = ok dag
    add_edges ((p, idx) ∷ ms) dag = do
      dag' ← add_edges_for p idx (get_package_dependencies syntax data' p) dag
      add_edges ms dag'

  pub record Dag : Type 0 where
    pub dag : Graph
    pub root_idx : ℕ

  -- The state in which the root package is the only node
  pub start : Package → State
  start p =
      let (dag', idx) = add_node g.empty p in record { mappings = insert p idx []; dag = dag' }

  module _ (repo : Repository) (syntax : DependencySyntax) (data' : ConditionData)
      (order : HashOrder) where
    -- The depth of the recursion is at most the number of packages of the repository and one.
    abbrev pub enough_fuel : ℕ
    enough_fuel = suc (length repo)

    pub for_root_package : Package → Result DagError Dag
    for_root_package p = do
      st ← add_sub_packages repo syntax data' enough_fuel p (start p)
      let entries = order.iter st.mappings
      dag' ← add_edges syntax data' entries entries st.dag
      ok (record { dag = dag'; root_idx = (add_node g.empty p).1 })
