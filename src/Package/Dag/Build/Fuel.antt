-- ===== src/Package/Dag/Build/Fuel.antt =====
-- The recursion of `add_sub_packages` ends: each call that goes deeper has one more package of the
-- repository among its nodes.
use butido.Prelude.{
  ℕ, zero, suc, ◌≤◌, ◌<◌, ◌≡◌, ◌≢◌, refl, subst, inl, inr, true, false, List, [], ◌∷◌, arith, not,
  map, filter, count, count-le, count-lt, length, is_empty, In, here, there, In-map, In-append,
  In-filter, In-unique_by, ok, err, >>=-eq-err, Bool-cases, string_eq, pair_eq, option_eq, ap, ◌∙◌,
}
use butido.Package.Condition.{ConditionData}
use butido.Package.Types.{Key, key, Package, BuildDependency, Dependency}
use butido.Package.Dependency.{DependencySyntax}
use butido.Package.Dag.Dependencies.{
  type_eq, out_of_fuel, Item, is_kept, drop_flag, ok_part, process_build, process_runtime,
  processed, process_dependency, get_package_dependencies,
}
use butido.Package.Dag.Build.{
  Repository, find_with_version, Mappings, insert, PackageGraph, State, Built, add_package,
  visit_packs, any_mapped, visit_dependency, visit_dependencies, add_sub_packages,
}
use butido.Package.Dag.Build.Growth.{
  has_key, has_key-insert_self, has_key-insert_old, IsKeyed, In-find_with_version,
}
use butido.Package.Dag.Build.Keeps.{IsMap, length-find_with_version, has_key-fresh}
use butido.Package.Dag.Build.Visited.{Recurses, visit_dependency-Visited, add_sub_packages-Visited}

-- The packages of the repository that have no node yet
abbrev pub missing : Repository → Mappings → ℕ
missing repo ms = count (λ e. not (has_key ms e.0)) repo

missing-le :
    (repo : Repository) (ms ms' : Mappings)
    → ((k : Key) → has_key ms k ≡ true → has_key ms' k ≡ true)
    → missing repo ms' ≤ missing repo ms
missing-le repo ms ms' grows =
    count-le (λ e. not (has_key ms' e.0)) (λ e. not (has_key ms e.0)) repo (λ e m h. still e.0 h)
  where
    still : (k : Key) → not (has_key ms' k) ≡ true → not (has_key ms k) ≡ true
    still k h = elim (Bool-cases (has_key ms k)) [
      | inl t ↦ absurd (ground (arith, grows k t))
      | inr f ↦ rw f
    ]

-- Adding a package of the repository leaves fewer of them.
missing-insert :
    (repo : Repository) (ms : Mappings) (q : Package) (i : ℕ)
    → In (key q, q) repo
    → has_key ms (key q) ≡ false
    → missing repo (insert q i ms) < missing repo ms
missing-insert repo ms q i at fresh =
    count-lt (λ e. not (has_key (insert q i ms) e.0)) (λ e. not (has_key ms e.0)) at
      (rw (has_key-insert_self q i ms)) (rw fresh) (λ e m h. still e.0 h)
  where
    still : (k : Key) → not (has_key (insert q i ms) k) ≡ true → not (has_key ms k) ≡ true
    still k h = elim (Bool-cases (has_key ms k)) [
      | inl t ↦ absurd (ground (arith, has_key-insert_old q i ms k t))
      | inr f ↦ rw f
    ]

module _ (syntax : DependencySyntax) (data' : ConditionData) where
  process_build-ne-out_of_fuel :
      (d : BuildDependency) → drop_flag (process_build syntax data' d) ≢ err out_of_fuel
  unfolding process_dependency
  process_build-ne-out_of_fuel d = ground arith

  process_runtime-ne-out_of_fuel :
      (d : Dependency) → drop_flag (process_runtime syntax data' d) ≢ err out_of_fuel
  unfolding process_dependency
  process_runtime-ne-out_of_fuel d = ground arith

  -- Reading the dependencies never reports the model's own error.
  pub item-ne-out_of_fuel :
      (p : Package) {item : Item}
      → In item (get_package_dependencies syntax data' p)
      → item ≢ err out_of_fuel
  unfolding get_package_dependencies
  item-ne-out_of_fuel p m h =
      let all_items = processed syntax data' p in
      let (r, at, e) =
        In-map drop_flag (filter is_kept all_items)
          (In-unique_by ok_part (map drop_flag (filter is_kept all_items)) m) in
      elim (In-append (map (process_build syntax data') p.dependencies.build)
        {ys = map (process_runtime syntax data') p.dependencies.runtime}
        (In-filter is_kept all_items at).0) [
          | inl b ↦
              let (d, _, same) = In-map (process_build syntax data') p.dependencies.build b in
              process_build-ne-out_of_fuel d (ap drop_flag same ∙ e ∙ h)
          | inr b ↦
              let (d, _, same) = In-map (process_runtime syntax data') p.dependencies.runtime b in
              process_runtime-ne-out_of_fuel d (ap drop_flag same ∙ e ∙ h)
        ]

module _ (g : PackageGraph) (repo : Repository) (syntax : DependencySyntax) (data' : ConditionData)
    (keyed : IsKeyed repo) (unique : IsMap repo) where
  abbrev Ends : ℕ → (Package → State g → Built g) → Type 0
  Ends bound recurse =
      (q : Package) (st : State g)
      → missing repo st.mappings < bound
      → recurse q st ≢ err out_of_fuel

  module _ (bound : ℕ) (recurse : Package → State g → Built g) (ends : Ends bound recurse) where
    visit_packs-ends :
        (k : Key) (packs : List Package) (st : State g)
        → length packs ≤ 1
        → ((q : Package) → In q packs → In (k, q) repo)
        → any_mapped g st.mappings packs ≡ false
        → missing repo st.mappings ≤ bound
        → visit_packs g recurse packs st ≢ err out_of_fuel
    unfolding visit_packs add_package
    visit_packs-ends k [] st few from_repo fresh h e = absurd (cc)
    visit_packs-ends k (q ∷ []) st few from_repo fresh h e =
        let at = from_repo q (here refl) in
        let at' : In (key q, q) repo = subst (λ n. In (n, q) repo) (keyed (k, q) at) at in
        let less =
          missing-insert repo st.mappings q (g.add_node st.dag q).1 at'
            (has_key-fresh g st.mappings (q ∷ []) q fresh (here refl)) in
        elim (>>=-eq-err (recurse q (add_package g q st)) (visit_packs g recurse []) e) [
          | inl first ↦ ends q (add_package g q st) (omega (arith, less)) first
          | inr (mid, _, rest) ↦ absurd (cc)
        ]
    visit_packs-ends k (q ∷ r ∷ packs) st few from_repo fresh h e = absurd (omega arith)

    visit_dependency-ends :
        (p : Package) (item : Item) (st : State g)
        → item ≢ err out_of_fuel
        → missing repo st.mappings ≤ bound
        → visit_dependency g repo syntax data' recurse p item st ≢ err out_of_fuel
    unfolding visit_dependency
    visit_dependency-ends p (err x) st ne h e = ne (cc)
    visit_dependency-ends p (ok (k, kind)) st ne h e =
        let packs = find_with_version repo k.0 k.1 in
        elim (Bool-cases (is_empty packs)) [
          | inl none_found ↦ absurd (ground arith)
          | inr nonempty ↦ elim (Bool-cases (any_mapped g st.mappings packs)) [
            | inl mapped ↦ absurd (ground arith)
            | inr fresh ↦
                visit_packs-ends k packs st (length-find_with_version repo unique k)
                  (λ q m. In-find_with_version repo k m) fresh h (ground arith)
          ]
        ]

    module _ (ih : Recurses g repo syntax data' recurse) where
      visit_dependencies-ends :
          (p : Package) (items : List Item) (st : State g)
          → ((item : Item) → In item items → In item (get_package_dependencies syntax data' p))
          → missing repo st.mappings ≤ bound
          → visit_dependencies g repo syntax data' recurse p items st ≢ err out_of_fuel
      unfolding visit_dependencies
      visit_dependencies-ends p [] st sub h e = absurd (cc)
      visit_dependencies-ends p (item ∷ items) st sub h e =
          elim (>>=-eq-err (visit_dependency g repo syntax data' recurse p item st)
            (visit_dependencies g repo syntax data' recurse p items) e) [
              | inl first ↦
                  visit_dependency-ends p item st
                    (item-ne-out_of_fuel syntax data' p (sub item (here refl))) h first
              | inr (mid, first, rest) ↦
                  let v =
                    (visit_dependency-Visited g repo syntax data' recurse ih keyed p item st mid
                      (sub item (here refl)) first).0 in
                  let less = missing-le repo st.mappings mid.mappings v.grows in
                  visit_dependencies-ends p items mid (λ i m. sub i (there m)) (omega (arith, less))
                    rest
            ]

  -- With more fuel than missing packages, the recursion does not run out of it.
  pub add_sub_packages-Ends : (fuel : ℕ) → Ends fuel (add_sub_packages g repo syntax data' fuel)
  unfolding add_sub_packages
  add_sub_packages-Ends zero p st h e = absurd (omega arith)
  add_sub_packages-Ends (suc fuel) p st h e =
      visit_dependencies-ends fuel (add_sub_packages g repo syntax data' fuel)
        (add_sub_packages-Ends fuel) (add_sub_packages-Visited g repo syntax data' keyed fuel) p
        (get_package_dependencies syntax data' p) st (λ item m. m) (omega arith) e
