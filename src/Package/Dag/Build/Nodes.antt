-- ===== src/Package/Dag/Build/Nodes.antt =====
-- The map from packages to nodes and the nodes of the graph say the same, while packages are added.
use native.Mathlib.Nat.{add-zero}
use butido.Prelude.{
  ℕ, zero, suc, ◌+◌, ◌≡◌, refl, sym, ◌∙◌, ap, subst, inl, inr, false, some, List, [], ◌∷◌, ◌++◌,
  arith, any, length, get_elem?, In, here, there, not-In-nil, ◌==◌, string_eq, pair_eq, Bool-cases,
}
use butido.Package.Types.{key, package_beq, Package}
use butido.Package.Dag.Build.{Mappings, insert, PackageGraph, State, add_package, start}
use butido.Package.Dag.Build.Growth.{has_key, package_beq_iff}

-- The packages with their positions, counted from `n`.
abbrev pub enumerate : ℕ → List Package → Mappings
enumerate n [] = []
enumerate n (p ∷ ps) = (p, n) ∷ enumerate (suc n) ps

enumerate-snoc :
    (n : ℕ) (ps : List Package) (q : Package)
    → enumerate n (ps ++ q ∷ []) ≡ enumerate n ps ++ (q, n + length ps) ∷ []
enumerate-snoc n [] q = rw add-zero
enumerate-snoc n (p ∷ ps) q =
    let e : n + suc (length ps) ≡ suc n + length ps = omega arith in
    rw (e, enumerate-snoc (suc n) ps q)

insert_fresh :
    (q : Package) (i : ℕ) (ms : Mappings)
    → has_key ms (key q) ≡ false
    → insert q i ms ≡ ms ++ (q, i) ∷ []
insert_fresh q i [] h = refl
insert_fresh q i ((r, j) ∷ ms) h = elim (Bool-cases (package_beq r q)) [
  | inl e ↦
      let same = (pair_eq.beq_iff (key q) (key r)).1 (sym (package_beq_iff r q e)) in
      absurd (ground (arith, same))
  | inr e ↦ rw (e, insert_fresh q i ms (ground arith))
]

pub get_elem?-enumerate :
    (n : ℕ) (ps : List Package) {q : Package} {i : ℕ}
    → In (q, i) (enumerate n ps)
    → (j : ℕ) × (i ≡ n + j) × (get_elem? ps j ≡ some q)
get_elem?-enumerate n [] m = absurd (not-In-nil m)
get_elem?-enumerate n (p ∷ ps) (here e) =
    (0, sym (ap (λ x. x.1) e) ∙ sym (add-zero n), ap (λ x. some x.0) e)
get_elem?-enumerate n (p ∷ ps) (there m) =
    let (j, e, at) = get_elem?-enumerate (suc n) ps m in (suc j, omega arith, at)

pub In-enumerate :
    (n : ℕ) (ps : List Package) (q : Package) (j : ℕ)
    → get_elem? ps j ≡ some q
    → In (q, n + j) (enumerate n ps)
In-enumerate n [] q j h = absurd (cc)
In-enumerate n (p ∷ ps) q zero h = let e : p ≡ q = cc in rw (add-zero n, e) (here refl)
In-enumerate n (p ∷ ps) q (suc j) h =
    let e : n + suc j ≡ suc n + j = omega arith in rw e (there (In-enumerate (suc n) ps q j h))

-- No two of the packages have the same name and version.
abbrev pub Distinct : List Package → Type 0
Distinct [] = Unit
Distinct (p ∷ ps) = (any (λ q. key q == key p) ps ≡ false) × Distinct ps

-- A package of the list is at a place of it.
pub In-get_elem? : (ps : List Package) (j : ℕ) (q : Package) → get_elem? ps j ≡ some q → In q ps
In-get_elem? [] j q h = absurd (cc)
In-get_elem? (p ∷ ps) zero q h = here (cc)
In-get_elem? (p ∷ ps) (suc j) q h = there (In-get_elem? ps j q h)

any-snoc_false :
    (p q : Package) (ps : List Package)
    → any (λ r. key r == key p) ps ≡ false
    → (key q == key p) ≡ false
    → any (λ r. key r == key p) (ps ++ q ∷ []) ≡ false
any-snoc_false p q [] h n = rw n
any-snoc_false p q (r ∷ ps) h n = ground (arith, any-snoc_false p q ps)

Distinct-snoc :
    (n : ℕ) (ps : List Package) (q : Package)
    → Distinct ps
    → has_key (enumerate n ps) (key q) ≡ false
    → Distinct (ps ++ q ∷ [])
Distinct-snoc n [] q d h = (refl, tt)
Distinct-snoc n (p ∷ ps) q d h =
    (any-snoc_false p q ps d.0 (ground arith), Distinct-snoc (suc n) ps q d.1 (ground arith))

module _ (g : PackageGraph) where
  open g use {nodes, add_node, nodes-empty, index-add_node, nodes-add_node}

  -- The entries of the map are the nodes with their indices, and no two nodes are equal.
  pub record Indexed (st : State g) : Type 0 where
    pub entries : st.mappings ≡ enumerate 0 (nodes st.dag)
    pub distinct : Distinct (nodes st.dag)

  pub Indexed-start : (p : Package) → Indexed (start g p)
  unfolding start
  Indexed-start p = record {
    entries = rw (nodes-add_node, index-add_node, nodes-empty);
    distinct = rw (nodes-add_node, nodes-empty) (refl, tt);
  }

  pub Indexed-add_package :
      (q : Package) (st : State g)
      → has_key st.mappings (key q) ≡ false
      → Indexed st
      → Indexed (add_package g q st)
  unfolding add_package
  Indexed-add_package q st fresh inv = record {
    entries =
        let e : 0 + length (nodes st.dag) ≡ length (nodes st.dag) = omega arith in
        insert_fresh q (add_node st.dag q).1 st.mappings fresh
        ∙ ap (λ ms. ms ++ (q, (add_node st.dag q).1) ∷ []) inv.entries
        ∙ rw (nodes-add_node, index-add_node, enumerate-snoc 0 (nodes st.dag) q, e);
    distinct = rw nodes-add_node (
        Distinct-snoc 0 (nodes st.dag) q inv.distinct
          (subst (λ ms. has_key ms (key q) ≡ false) inv.entries fresh));
  }
