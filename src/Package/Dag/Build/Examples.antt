-- ===== src/Package/Dag/Build/Examples.antt =====
-- A graph in lists for the interface of petgraph, and the theorems at a repository of two packages.
use mathlib.Core.Bool.{false≢true}
use native.Mathlib.Decide.{ℕ_discrete}
use butido.Prelude.{
  ℕ, zero, suc, ◌≡◌, ◌≢◌, refl, sym, ap, ◌∙◌, subst, ◌⊎◌, ◌↔◌, true, false, Option, none, some,
  List, [], ◌∷◌, ◌++◌, arith, String, length, get_elem?, In, here, there, not-In-nil, ok, err, ◌==◌,
  string_eq, if◌then◌else◌,
}
use butido.Package.Condition.{ConditionData}
use butido.Package.Types.{key, Package, Dependency, check_dependency}
use butido.Package.Dependency.{
  DependencySyntax, parse_package_dependency_string_into_name_and_version,
}
use butido.Package.Dag.Graph.{PathIn}
use butido.Package.Dag.Dependencies.{
  DependencyType, DagError, out_of_fuel, process_dependency, get_package_dependencies,
}
use butido.Package.Dag.Dependencies.Declared.{Declares, Reads, Requires}
use butido.Package.Dag.Build.{
  Repository, find_with_version, HashOrder, PackageGraph, Dag, add_package, visit_packs,
  visit_dependency, visit_dependencies, add_sub_packages, add_edges_to, add_edges_for, add_edges,
  start, for_root_package,
}
use butido.Package.Dag.Build.Growth.{IsKeyed}
use butido.Package.Dag.Build.Keeps.{IsMap}
use butido.Package.Dag.Build.Visited.{DependsOn}
use butido.Package.Dag.Build.Nodes.{Distinct}
use butido.Package.Dag.Build.Closure.{
  for_root_package-closed, for_root_package-origin, for_root_package-Distinct,
  for_root_package-edges,
}
use butido.Package.Dag.Build.Ends.{for_root_package-ends}

abbrev pub Edges : Type 0
Edges = List (ℕ × ℕ × DependencyType)

pub record ListGraph : Type 0 where
  pub nodes : List Package
  pub edges : Edges

module _ (es : Edges) (b : ℕ) where
  abbrev scan :
      ((a : ℕ) → Option (PathIn es a b))
      → (a : ℕ) (sub : Edges) → ((e : ℕ × ℕ × DependencyType) → In e sub → In e es)
      → Option (PathIn es a b)
  scan onward a [] emb = none
  scan onward a ((x, y, k) ∷ sub) emb =
      let rest = scan onward a sub (λ e m. emb e (there m)) in
      elim (ℕ_discrete x a) [
        | no _ ↦ rest
        | yes p ↦
            let first : PathIn es a y =
              PathIn.edge {e = k} (emb (a, y, k) (here (ap (λ i. (i, y, k)) p))) in
            elim (ℕ_discrete y b) [
              | yes q ↦ some (subst (PathIn es a) q first)
              | no _ ↦ elim (onward y) [ some more ↦ some (PathIn.join first more) | none ↦ rest ]
            ]
      ]

  abbrev path_from : ℕ → (a : ℕ) → Option (PathIn es a b)
  path_from zero a = none
  path_from (suc n) a = scan (path_from n) a es (λ e m. m)

abbrev extended : ListGraph → ℕ → ℕ → DependencyType → Edges
extended g a b e = g.edges ++ (a, b, e) ∷ []

abbrev unless : {P : Type 0} → Option P → ListGraph → Option ListGraph
unless (some c) g = none
unless none g = some g

unless-eq-some : {P : Type 0} (o : Option P) (g h : ListGraph) → unless o g ≡ some h → g ≡ h
unless-eq-some (some c) g h e = cc
unless-eq-some none g h e = cc

unless-eq-none : {P : Type 0} (o : Option P) (g : ListGraph) → unless o g ≡ none → P
unless-eq-none (some c) g e = c
unless-eq-none none g e = absurd (cc)

-- Adds the edge unless it would close a cycle.
pub try_add : ListGraph → ℕ → ℕ → DependencyType → Option ListGraph
unfolding ℕ_discrete
try_add g a b e =
    unless (path_from (extended g a b e) a (length (extended g a b e)) a)
      (record { nodes = g.nodes; edges = extended g a b e })

pub try_add-eq-some :
    (g h : ListGraph) (a b : ℕ) (e : DependencyType)
    → try_add g a b e ≡ some h
    → record { nodes = g.nodes; edges = extended g a b e } ≡ h
unfolding try_add
try_add-eq-some g h a b e eq = unless-eq-some _ _ h eq

pub try_add-eq-none :
    (g : ListGraph) (a b : ℕ) (e : DependencyType)
    → try_add g a b e ≡ none
    → PathIn (extended g a b e) a a
unfolding try_add
try_add-eq-none g a b e eq = unless-eq-none _ _ eq

abbrev pub list_graph : PackageGraph
list_graph = record {
  Graph = ListGraph;
  nodes = λ g. g.nodes;
  edges = λ g. g.edges;
  empty = record { nodes = []; edges = [] };
  add_node = λ g n. (record { nodes = g.nodes ++ n ∷ []; edges = g.edges }, length g.nodes);
  try_add_edge = try_add;
  nodes-empty = refl;
  edges-empty = refl;
  index-add_node = λ g n. refl;
  nodes-add_node = λ g n. refl;
  edges-add_node = λ g n. refl;
  nodes-try_add_edge =
      λ g h a b e eq. ap (λ (x : ListGraph). x.nodes) (sym (try_add-eq-some g h a b e eq));
  edges-try_add_edge =
      λ g h a b e eq. ap (λ (x : ListGraph). x.edges) (sym (try_add-eq-some g h a b e eq));
  refusal = try_add-eq-none;
}

abbrev pub in_order : HashOrder
in_order = record { iter = λ ms. ms; same = λ ms m. (λ h. h, λ h. h) }

abbrev package_of : String → String → List Dependency → Package
package_of name version runtime = record {
  name = name;
  version = version;
  version_is_semver = false;
  sources = [];
  dependencies = record { build = []; runtime = runtime };
  patches = [];
  environment = none;
  allowed_images = none;
  denied_images = none;
  phases = [];
  meta = none;
}

abbrev lib_b : Package
lib_b = package_of "b" "2" []

abbrev pub tool_a : Package
tool_a = package_of "a" "1" (Dependency.simple "b =2" ∷ [])

abbrev pub two_packages : Repository
two_packages = (key tool_a, tool_a) ∷ (key lib_b, lib_b) ∷ []

abbrev cyclic_b : Package
cyclic_b = package_of "b" "2" (Dependency.simple "a =1" ∷ [])

abbrev two_captures : String → Option (Option String × Option String)
two_captures s =
    if s == "b =2"
    then some (some "b", some "=2")
    else if s == "a =1"
    then some (some "a", some "=1")
    else none

abbrev pub two_syntax : DependencySyntax
two_syntax = record { captures = two_captures; is_constraint = λ s. true }

abbrev pub no_data : ConditionData
no_data = record { image_name = none; env = [] }

for_root : Unit {0}
unfolding for_root_package add_sub_packages visit_dependencies visit_dependency visit_packs
    add_package start add_edges add_edges_for add_edges_to find_with_version
    get_package_dependencies process_dependency
    parse_package_dependency_string_into_name_and_version check_dependency try_add
for_root = tt

abbrev pub built : Dag list_graph
built = record {
  dag = record { nodes = tool_a ∷ lib_b ∷ []; edges = (0, 1, DependencyType.runtime) ∷ [] };
  root_idx = 0;
}

pub for_root_package-two :
    for_root_package list_graph two_packages two_syntax no_data in_order tool_a ≡ ok built
unfolding for_root
for_root_package-two = refl

-- Two packages that need each other are refused.
for_root_package_cyclic :
    for_root_package list_graph
      ((key tool_a, tool_a) ∷ (key cyclic_b, cyclic_b) ∷ [])
      two_syntax
      no_data
      in_order
      tool_a
    ≡ err (DagError.edge (key cyclic_b) (key tool_a))
unfolding for_root
for_root_package_cyclic = refl

pub two_packages-IsKeyed : IsKeyed two_packages
two_packages-IsKeyed e (here h) = ap (λ x. x.0) (sym h) ∙ ap (λ x. key x.1) h
two_packages-IsKeyed e (there (here h)) = ap (λ x. x.0) (sym h) ∙ ap (λ x. key x.1) h
two_packages-IsKeyed e (there (there m)) = absurd (not-In-nil m)

a_ne_b : (k : String) → "a" ≡ k → "b" ≡ k → ⊥
a_ne_b k p q = false≢true ((string_eq.beq_iff "a" "b").1 (p ∙ sym q))

pub two_packages-IsMap : IsMap two_packages
two_packages-IsMap k =
    ground (arith, string_eq.beq_iff "a" k.0, string_eq.beq_iff "b" k.0, a_ne_b k.0)

for_root_package-ends_example :
    for_root_package list_graph two_packages two_syntax no_data in_order tool_a ≢ err out_of_fuel
for_root_package-ends_example =
    for_root_package-ends list_graph two_packages two_syntax no_data in_order two_packages-IsKeyed
      two_packages-IsMap tool_a

for_root_package-Distinct_example :
    Distinct (tool_a ∷ lib_b ∷ []) × (get_elem? (tool_a ∷ lib_b ∷ []) 0 ≡ some tool_a)
for_root_package-Distinct_example =
    for_root_package-Distinct list_graph two_packages two_syntax no_data in_order
      two_packages-IsKeyed two_packages-IsMap tool_a {d = built} for_root_package-two

for_root_package-origin_example :
    (lib_b ≡ tool_a) ⊎ DependsOn list_graph two_packages two_syntax no_data tool_a lib_b
for_root_package-origin_example =
    for_root_package-origin list_graph two_packages two_syntax no_data in_order two_packages-IsKeyed
      two_packages-IsMap tool_a {d = built} for_root_package-two lib_b (there (here refl))

for_root_package-closed_example :
    (r : Package) × In r (tool_a ∷ lib_b ∷ []) × Reads two_syntax "b =2" (key r)
for_root_package-closed_example =
    for_root_package-closed list_graph two_packages two_syntax no_data in_order two_packages-IsKeyed
      two_packages-IsMap tool_a {d = built} for_root_package-two tool_a (here refl) "b =2" none
      DependencyType.runtime (Declares.runtime_simple (here refl)) tt

for_root_package-edges_example :
    In {A = ℕ × ℕ × DependencyType}
      (0, 1, DependencyType.runtime)
      ((0, 1, DependencyType.runtime) ∷ [])
    ↔ ((q : Package) × (r : Package) × (get_elem? (tool_a ∷ lib_b ∷ []) 0 ≡ some q)
        × (get_elem? (tool_a ∷ lib_b ∷ []) 1 ≡ some r)
        × Requires two_syntax no_data q (key r) DependencyType.runtime)
for_root_package-edges_example =
    for_root_package-edges list_graph two_packages two_syntax no_data in_order two_packages-IsKeyed
      two_packages-IsMap tool_a {d = built} for_root_package-two 0 1 DependencyType.runtime
