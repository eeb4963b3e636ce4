-- ===== src/Package/Dag/Build/Keeps.antt =====
-- A rule for invariants of `add_sub_packages`: packages are added one by one, each under a name and
-- version that no node has yet.
use butido.Prelude.{
  ℕ, zero, suc, ◌≤◌, ◌≡◌, subst, Bool, false, List, [], ◌∷◌, ◌&&◌, arith, any, map, filter, count,
  length, is_empty, In, here, In-of_any, any_of_In, ok, err, >>=-eq-ok, ◌==◌, string_eq, pair_eq,
  Bool-cases, inl, inr, refl,
}
use butido.Package.Condition.{ConditionData}
use butido.Package.Types.{Key, key, Package}
use butido.Package.Dependency.{DependencySyntax}
use butido.Package.Dag.Dependencies.{Item, get_package_dependencies}
use butido.Package.Dag.Build.{
  Repository, find_with_version, Mappings, PackageGraph, State, Built, add_package, visit_packs,
  any_mapped, visit_dependency, visit_dependencies, add_sub_packages,
}
use butido.Package.Dag.Build.Growth.{has_key}

-- A `BTreeMap` holds a key at most once.
abbrev pub IsMap : Repository → Type 0
IsMap repo = (k : Key) → count (λ e. e.0.0 == k.0 && e.0.1 == k.1) repo ≤ 1

length-map-filter :
    {A B : Type 0} (f : A → B) (p : A → Bool) (xs : List A)
    → length (map f (filter p xs)) ≡ count p xs
length-map-filter f p [] = omega arith
length-map-filter f p (x ∷ xs) = elim (Bool-cases (p x)) [
  | inl t ↦ rw t (omega (arith, length-map-filter f p xs))
  | inr t ↦ rw t (omega (arith, length-map-filter f p xs))
]

pub length-find_with_version :
    (repo : Repository) → IsMap repo → (k : Key) → length (find_with_version repo k.0 k.1) ≤ 1
unfolding find_with_version
length-find_with_version repo unique k =
    rw (length-map-filter (λ e. e.1) (λ e. e.0.0 == k.0 && e.0.1 == k.1) repo) (unique k)

-- A package that is about to be added has no node yet.
pub has_key-fresh :
    (g : PackageGraph) (ms : Mappings) (packs : List Package) (q : Package)
    → any_mapped g ms packs ≡ false
    → In q packs
    → has_key ms (key q) ≡ false
has_key-fresh g ms packs q h m = elim (Bool-cases (has_key ms (key q))) [
  | inr absent ↦ absent
  | inl there_is ↦
      let (e, at, same) = In-of_any (λ e. key q == key e.0) ms there_is in
      let found =
        any_of_In (λ e. any (λ pk. key pk == key e.0) packs) at
          (any_of_In (λ pk. key pk == key e.0) m same) in
      absurd (cc)
]

module _ (g : PackageGraph) (repo : Repository) (syntax : DependencySyntax) (data' : ConditionData)
    (unique : IsMap repo) (P : State g → Type 0)
    (add : (q : Package) (st : State g)
      → has_key st.mappings (key q) ≡ false
      → P st
      → P (add_package g q st)) where
  abbrev Keeping : (Package → State g → Built g) → Type 0
  Keeping recurse = (q : Package) (st st' : State g) → recurse q st ≡ ok st' → P st → P st'

  module _ (recurse : Package → State g → Built g) (ih : Keeping recurse) where
    visit_packs-keeps :
        (packs : List Package) (st st' : State g)
        → length packs ≤ 1
        → any_mapped g st.mappings packs ≡ false
        → visit_packs g recurse packs st ≡ ok st'
        → P st
        → P st'
    unfolding visit_packs
    visit_packs-keeps [] st st' few fresh h p = subst P (cc) p
    visit_packs-keeps (q ∷ []) st st' few fresh h p =
        let (mid, first, rest) =
          >>=-eq-ok (recurse q (add_package g q st)) (visit_packs g recurse []) h in
        let same : mid ≡ st' = cc in
        subst P same (
          ih q (add_package g q st) mid first
            (add q st (has_key-fresh g st.mappings (q ∷ []) q fresh (here refl)) p))
    visit_packs-keeps (q ∷ r ∷ packs) st st' few fresh h p = absurd (omega arith)

    visit_dependency-keeps :
        (parent : Package) (item : Item) (st st' : State g)
        → visit_dependency g repo syntax data' recurse parent item st ≡ ok st'
        → P st
        → P st'
    unfolding visit_dependency
    visit_dependency-keeps parent (err e) st st' h p = absurd (cc)
    visit_dependency-keeps parent (ok (k, kind)) st st' h p =
        let packs = find_with_version repo k.0 k.1 in
        elim (Bool-cases (is_empty packs)) [
          | inl none_found ↦ absurd (ground arith)
          | inr nonempty ↦ elim (Bool-cases (any_mapped g st.mappings packs)) [
            | inl mapped ↦ let same : st ≡ st' = ground arith in subst P same p
            | inr fresh ↦
                visit_packs-keeps packs st st' (length-find_with_version repo unique k) fresh
                  (ground arith) p
          ]
        ]

    visit_dependencies-keeps :
        (parent : Package) (items : List Item) (st st' : State g)
        → visit_dependencies g repo syntax data' recurse parent items st ≡ ok st'
        → P st
        → P st'
    unfolding visit_dependencies
    visit_dependencies-keeps parent [] st st' h p = subst P (cc) p
    visit_dependencies-keeps parent (item ∷ items) st st' h p =
        let (mid, first, rest) =
          >>=-eq-ok (visit_dependency g repo syntax data' recurse parent item st)
            (visit_dependencies g repo syntax data' recurse parent items) h in
        visit_dependencies-keeps parent items mid st' rest
          (visit_dependency-keeps parent item st mid first p)

  pub add_sub_packages-keeps : (fuel : ℕ) → Keeping (add_sub_packages g repo syntax data' fuel)
  unfolding add_sub_packages
  add_sub_packages-keeps zero q st st' h p = absurd (cc)
  add_sub_packages-keeps (suc fuel) q st st' h p =
      visit_dependencies-keeps (add_sub_packages g repo syntax data' fuel)
        (add_sub_packages-keeps fuel) q (get_package_dependencies syntax data' q) st st' h p
