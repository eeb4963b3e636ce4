-- ===== src/Package/Dag/Build/Ends.antt =====
-- `Dag::for_root_package` always ends (src/package/dag.rs).
use butido.Prelude.{
  ℕ, ◌≢◌, refl, inl, inr, List, [], ◌∷◌, arith, not, In, here, there, ok, err, ◌>>=◌, >>=-eq-err,
  Option-cases, string_eq, pair_eq,
}
use butido.Package.Condition.{ConditionData}
use butido.Package.Types.{Package}
use butido.Package.Dependency.{DependencySyntax}
use butido.Package.Dag.Dependencies.{DependencyType, out_of_fuel, Item, get_package_dependencies}
use butido.Package.Dag.Build.{
  Repository, Mappings, HashOrder, PackageGraph, add_sub_packages, add_edges_to, add_edges_for,
  with_key, add_edges, start, enough_fuel, for_root_package,
}
use butido.Package.Dag.Build.Growth.{has_key, IsKeyed}
use butido.Package.Dag.Build.Keeps.{IsMap}
use butido.Package.Dag.Build.Fuel.{add_sub_packages-Ends, item-ne-out_of_fuel}
use butido.Package.Dag.Build.Passes.{count-le-length}

add_edges_to-ne-out_of_fuel :
    (g : PackageGraph) (p : Package) (idx : ℕ) (kind : DependencyType) (ms : Mappings)
    (dag : g.Graph)
    → add_edges_to g p idx kind ms dag ≢ err out_of_fuel
unfolding add_edges_to
add_edges_to-ne-out_of_fuel g p idx kind [] dag e = absurd (cc)
add_edges_to-ne-out_of_fuel g p idx kind ((q, j) ∷ ms) dag e =
    elim (Option-cases (g.try_add_edge dag idx j kind)) [
      | inl refused ↦ absurd (ground arith)
      | inr (mid, added) ↦ add_edges_to-ne-out_of_fuel g p idx kind ms mid (ground arith)
    ]

module _ (g : PackageGraph) (syntax : DependencySyntax) (data' : ConditionData)
    (all_mappings : Mappings) where
  add_edges_for-ne-out_of_fuel :
      (p : Package) (idx : ℕ) (items : List Item) (dag : g.Graph)
      → ((item : Item) → In item items → item ≢ err out_of_fuel)
      → add_edges_for g syntax data' all_mappings p idx items dag ≢ err out_of_fuel
  unfolding add_edges_for
  add_edges_for-ne-out_of_fuel p idx [] dag good e = absurd (cc)
  add_edges_for-ne-out_of_fuel p idx (err x ∷ items) dag good e = good (err x) (here refl) (cc)
  add_edges_for-ne-out_of_fuel p idx (ok (k, kind) ∷ items) dag good e =
      let matching = with_key g syntax data' all_mappings k in
      elim (>>=-eq-err (add_edges_to g p idx kind matching dag)
        (add_edges_for g syntax data' all_mappings p idx items) e) [
          | inl first ↦ add_edges_to-ne-out_of_fuel g p idx kind matching dag first
          | inr (mid, _, rest) ↦
              add_edges_for-ne-out_of_fuel p idx items mid (λ i m. good i (there m)) rest
        ]

  add_edges-ne-out_of_fuel :
      (ms : Mappings) (dag : g.Graph)
      → add_edges g syntax data' all_mappings ms dag ≢ err out_of_fuel
  unfolding add_edges
  add_edges-ne-out_of_fuel [] dag e = absurd (cc)
  add_edges-ne-out_of_fuel ((p, idx) ∷ ms) dag e =
      let items = get_package_dependencies syntax data' p in
      elim (>>=-eq-err (add_edges_for g syntax data' all_mappings p idx items dag)
        (add_edges g syntax data' all_mappings ms) e) [
          | inl first ↦
              add_edges_for-ne-out_of_fuel p idx items dag
                (λ item m. item-ne-out_of_fuel syntax data' p m) first
          | inr (mid, _, rest) ↦ add_edges-ne-out_of_fuel ms mid rest
        ]

-- The recursion of `add_sub_packages` ends on every repository, cyclic or not: one call more than
-- there are packages in the repository is deep enough, so the model's fuel never runs out.
pub for_root_package-ends :
    (g : PackageGraph) (repo : Repository) (syntax : DependencySyntax) (data' : ConditionData)
    (order : HashOrder)
    → IsKeyed repo
    → IsMap repo
    → (p : Package) → for_root_package g repo syntax data' order p ≢ err out_of_fuel
unfolding for_root_package
for_root_package-ends g repo syntax data' order keyed unique p e =
    let fuel = enough_fuel g repo syntax data' order in
    let bound = count-le-length (λ e. not (has_key (start g p).mappings e.0)) repo in
    elim (>>=-eq-err (add_sub_packages g repo syntax data' fuel p (start g p))
      (λ st.
        add_edges g syntax data' (order.iter st.mappings) (order.iter st.mappings) st.dag
        >>= λ dag'. ok (record { dag = dag'; root_idx = (g.add_node g.empty p).1 }))
      e) [
        | inl first ↦
            add_sub_packages-Ends g repo syntax data' keyed unique fuel p (start g p)
              (omega (arith, bound)) first
        | inr (st, _, rest) ↦
            elim (>>=-eq-err
              (add_edges g syntax data' (order.iter st.mappings) (order.iter st.mappings) st.dag)
              (λ dag'. ok (record { dag = dag'; root_idx = (g.add_node g.empty p).1 })) rest) [
                | inl second ↦
                    add_edges-ne-out_of_fuel g syntax data' (order.iter st.mappings)
                      (order.iter st.mappings) st.dag second
                | inr (dag', _, made) ↦ absurd (cc)
              ]
      ]
