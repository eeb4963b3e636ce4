-- ===== src/Package/Dag/Build/Visited.antt =====
-- What a successful run of `add_sub_packages` leaves behind: the induction over its three loops.
use butido.Prelude.{
  ℕ, zero, suc, ◌≡◌, refl, sym, subst, ◌⊎◌, inl, inr, true, false, List, [], ◌∷◌, arith, any,
  is_empty, In, here, there, any_of_In, In-of_any, not-In-nil, In-singleton, ok, err, >>=-eq-ok,
  ◌==◌, string_eq, pair_eq, Bool-cases,
}
use butido.Package.Condition.{ConditionData}
use butido.Package.Types.{Key, key, Package}
use butido.Package.Dependency.{DependencySyntax}
use butido.Package.Dag.Dependencies.{DependencyType, Item, get_package_dependencies}
use butido.Package.Dag.Build.{
  Repository, find_with_version, PackageGraph, State, Built, add_package, visit_packs, any_mapped,
  visit_dependency, visit_dependencies, add_sub_packages,
}
use butido.Package.Dag.Build.Growth.{
  has_key, Holds, has_key-insert_self, has_key-insert_old, Holds-insert, IsKeyed,
  In-find_with_version,
}

module _ (g : PackageGraph) (repo : Repository) (syntax : DependencySyntax)
    (data' : ConditionData) where
  abbrev pub deps : Package → List Item
  deps p = get_package_dependencies syntax data' p

  -- `q` was found for a dependency of `p`, or for one of a package below it.
  pub data DependsOn : Package → Package → Type 0 where
    direct :
        {p q : Package} {k : Key} {kind : DependencyType}
        → In (ok (k, kind)) (deps p)
        → In q (find_with_version repo k.0 k.1)
        → DependsOn p q
    below : {p q r : Package} → DependsOn p q → DependsOn q r → DependsOn p r

  -- Each of the dependencies could be read, and a package with its name and version is a node.
  abbrev pub Resolved : List Item → State g → Type 0
  Resolved items st =
      (item : Item)
      → In item items
      → (k : Key) × (kind : DependencyType) × (item ≡ ok (k, kind)) × (has_key st.mappings k ≡ true)

  -- What a part of the work for `p` does to the state.
  pub record Visited (p : Package) (st st' : State g) : Type 0 where
    pub grows : (k : Key) → has_key st.mappings k ≡ true → has_key st'.mappings k ≡ true
    pub closed : (q : Package) → Holds st'.mappings q → Holds st.mappings q ⊎ Resolved (deps q) st'
    pub origin : (q : Package) → Holds st'.mappings q → Holds st.mappings q ⊎ DependsOn p q

  Resolved-grows :
      (items : List Item) (st st' : State g)
      → ((k : Key) → has_key st.mappings k ≡ true → has_key st'.mappings k ≡ true)
      → Resolved items st
      → Resolved items st'
  Resolved-grows items st st' grows r item m =
      let (k, kind, e, h) = r item m in (k, kind, e, grows k h)

  Visited-refl : (p : Package) (st : State g) → Visited p st st
  Visited-refl p st = record { grows = λ k h. h; closed = λ q h. inl h; origin = λ q h. inl h }

  Visited-trans : {p : Package} {a b c : State g} → Visited p a b → Visited p b c → Visited p a c
  Visited-trans {p} {a} {b} {c} v w = record {
    grows = λ k h. w.grows k (v.grows k h);
    closed = λ q h. elim (w.closed q h) [
      | inr done ↦ inr done
      | inl old ↦ elim (v.closed q old) [
        | inl older ↦ inl older
        | inr done ↦ inr (Resolved-grows (deps q) b c w.grows done)
      ]
    ];
    origin = λ q h. elim (w.origin q h) [ inr new ↦ inr new | inl old ↦ v.origin q old ];
  }

  In-of_nonempty : (packs : List Package) → is_empty packs ≡ false → (q : Package) × In q packs
  In-of_nonempty [] h = absurd (cc)
  In-of_nonempty (q ∷ packs) h = (q, here refl)

  Resolved-cons :
      (item : Item) (items : List Item) (st : State g)
      → Resolved (item ∷ []) st
      → Resolved items st
      → Resolved (item ∷ items) st
  Resolved-cons item items st r rs i (here e) = r i (here e)
  Resolved-cons item items st r rs i (there m) = rs i m

  single :
      (p : Package) (k : Key) (kind : DependencyType) (st st' : State g)
      → Visited p st st' × (has_key st'.mappings k ≡ true)
      → Visited p st st' × Resolved (ok (k, kind) ∷ []) st'
  single p k kind st st' (v, h) = (v, λ i m. (k, kind, sym (In-singleton m), h))

  -- The induction hypothesis on the recursive call.
  abbrev pub Recurses : (Package → State g → Built g) → Type 0
  Recurses recurse =
      (q : Package) (st st' : State g)
      → recurse q st ≡ ok st'
      → Visited q st st' × Resolved (deps q) st'

  Visited-pack :
      {p q : Package} {st st' : State g}
      → DependsOn p q
      → Visited q (add_package g q st) st'
      → Resolved (deps q) st'
      → Visited p st st' × (has_key st'.mappings (key q) ≡ true)
  unfolding add_package
  Visited-pack {p} {q} {st} {st'} d v r = (
    record {
      grows = λ k h. v.grows k (has_key-insert_old q _ st.mappings k h);
      closed = λ s h. elim (v.closed s h) [
        | inr done ↦ inr done
        | inl old ↦ elim (Holds-insert q _ st.mappings s old) [
          | inl same ↦ inr (subst (λ t. Resolved (deps t) st') (sym same) r)
          | inr older ↦ inl older
        ]
      ];
      origin = λ s h. elim (v.origin s h) [
        | inr new ↦ inr (below d new)
        | inl old ↦ elim (Holds-insert q _ st.mappings s old) [
          | inl same ↦ inr (subst (DependsOn p) (sym same) d)
          | inr older ↦ inl older
        ]
      ];
    },
    v.grows (key q) (has_key-insert_self q _ st.mappings),
  )

  module _ (recurse : Package → State g → Built g) (ih : Recurses recurse) where
    visit_packs-Visited :
        (p : Package) (packs : List Package) (st st' : State g)
        → ((q : Package) → In q packs → DependsOn p q)
        → visit_packs g recurse packs st ≡ ok st'
        → Visited p st st' × ((q : Package) → In q packs → has_key st'.mappings (key q) ≡ true)
    unfolding visit_packs
    visit_packs-Visited p [] st st' d h =
        (subst (Visited p st) (cc) (Visited-refl p st), λ q m. absurd (not-In-nil m))
    visit_packs-Visited p (q ∷ packs) st st' d h =
        let (mid, first, rest) =
          >>=-eq-ok (recurse q (add_package g q st)) (visit_packs g recurse packs) h in
        let (v, r) = ih q (add_package g q st) mid first in
        let (w, has_q) = Visited-pack (d q (here refl)) v r in
        let (u, has_rest) = visit_packs-Visited p packs mid st' (λ s m. d s (there m)) rest in
        (Visited-trans w u, go has_q u has_rest)
      where
        go :
            {mid : State g}
            → has_key mid.mappings (key q) ≡ true
            → Visited p mid st'
            → ((s : Package) → In s packs → has_key st'.mappings (key s) ≡ true)
            → (s : Package) → In s (q ∷ packs)
            → has_key st'.mappings (key s) ≡ true
        go has_q u has_rest s (here e) =
            subst (λ t. has_key st'.mappings (key t) ≡ true) e (u.grows (key q) has_q)
        go has_q u has_rest s (there m) = has_rest s m

    module _ (keyed : IsKeyed repo) where
      key_of_found : (k : Key) {q : Package} → In q (find_with_version repo k.0 k.1) → k ≡ key q
      key_of_found k m = keyed _ (In-find_with_version repo k m)

      some_mapped :
          (k : Key) (st : State g)
          → any_mapped g st.mappings (find_with_version repo k.0 k.1) ≡ true
          → has_key st.mappings k ≡ true
      some_mapped k st h =
          let packs = find_with_version repo k.0 k.1 in
          let (m, at, e) = In-of_any (λ m. any (λ pk. key pk == key m.0) packs) st.mappings h in
          let (pk, found, same) = In-of_any (λ pk. key pk == key m.0) packs e in
          any_of_In (λ m. k == key m.0) at
            (subst (λ n. (n == key m.0) ≡ true) (sym (key_of_found k found)) same)

      visit_found :
          (p : Package) (k : Key) (kind : DependencyType) (st st' : State g)
          → In (ok (k, kind)) (deps p)
          → is_empty (find_with_version repo k.0 k.1) ≡ false
          → visit_packs g recurse (find_with_version repo k.0 k.1) st ≡ ok st'
          → Visited p st st' × (has_key st'.mappings k ≡ true)
      visit_found p k kind st st' m nonempty h =
          let packs = find_with_version repo k.0 k.1 in
          let (v, all_mapped) = visit_packs-Visited p packs st st' (λ q f. direct m f) h in
          let (q, f) = In-of_nonempty packs nonempty in (v, rw (key_of_found k f) (all_mapped q f))

      pub visit_dependency-Visited :
          (p : Package) (item : Item) (st st' : State g)
          → In item (deps p)
          → visit_dependency g repo syntax data' recurse p item st ≡ ok st'
          → Visited p st st' × Resolved (item ∷ []) st'
      unfolding visit_dependency
      visit_dependency-Visited p (err e) st st' m h = absurd (cc)
      visit_dependency-Visited p (ok (k, kind)) st st' m h =
          let packs = find_with_version repo k.0 k.1 in
          elim (Bool-cases (is_empty packs)) [
            | inl none_found ↦ absurd (ground arith)
            | inr nonempty ↦ elim (Bool-cases (any_mapped g st.mappings packs)) [
              | inl mapped ↦
                  let same : st ≡ st' = ground arith in
                  single p k kind st st' (
                    subst (Visited p st) same (Visited-refl p st),
                    subst (λ s. has_key s.mappings k ≡ true) same (some_mapped k st mapped),
                  )
              | inr fresh ↦
                  single p k kind st st' (visit_found p k kind st st' m nonempty (ground arith))
            ]
          ]

      visit_dependencies-Visited :
          (p : Package) (items : List Item) (st st' : State g)
          → ((item : Item) → In item items → In item (deps p))
          → visit_dependencies g repo syntax data' recurse p items st ≡ ok st'
          → Visited p st st' × Resolved items st'
      unfolding visit_dependencies
      visit_dependencies-Visited p [] st st' sub h =
          (subst (Visited p st) (cc) (Visited-refl p st), λ item m. absurd (not-In-nil m))
      visit_dependencies-Visited p (item ∷ items) st st' sub h =
          let (mid, first, rest) =
            >>=-eq-ok (visit_dependency g repo syntax data' recurse p item st)
              (visit_dependencies g repo syntax data' recurse p items) h in
          let (v, r) = visit_dependency-Visited p item st mid (sub item (here refl)) first in
          let (w, rs) = visit_dependencies-Visited p items mid st' (λ i m. sub i (there m)) rest in
          (
            Visited-trans v w,
            Resolved-cons item items st' (Resolved-grows (item ∷ []) mid st' w.grows r) rs,
          )

  -- A run that ends well has visited everything below `p`, and resolved the dependencies of `p`.
  pub add_sub_packages-Visited :
      IsKeyed repo → (fuel : ℕ) → Recurses (add_sub_packages g repo syntax data' fuel)
  unfolding add_sub_packages
  add_sub_packages-Visited keyed zero p st st' h = absurd (cc)
  add_sub_packages-Visited keyed (suc fuel) p st st' h =
      visit_dependencies-Visited (add_sub_packages g repo syntax data' fuel)
        (add_sub_packages-Visited keyed fuel) keyed p (deps p) st st' (λ item m. m) h
