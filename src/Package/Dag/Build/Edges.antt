-- ===== src/Package/Dag/Build/Edges.antt =====
-- The edges that `add_edges` adds.
use mathlib.Core.List.{append-nil, append_assoc}
use butido.Prelude.{
  ℕ, ◌≡◌, refl, sym, ◌∙◌, ap, subst, inl, inr, List, [], ◌∷◌, ◌++◌, ◌&&◌, arith, map, In, here,
  there, not-In-nil, In-append, In-append_left, In-append_right, In-map, In-map_intro, In-filter,
  In-filter_intro, Option-cases, ok, err, >>=-eq-ok, ◌==◌, string_eq, pair_eq,
}
use butido.Package.Condition.{ConditionData}
use butido.Package.Types.{Key, key, Package}
use butido.Package.Dependency.{DependencySyntax}
use butido.Package.Dag.Dependencies.{DependencyType, Item, get_package_dependencies}
use butido.Package.Dag.Build.{
  Mappings, PackageGraph, add_edges_to, with_key, add_edges_for, add_edges,
}

abbrev pub Edge : Type 0
Edge = ℕ × ℕ × DependencyType

abbrev pub edges_to : ℕ → DependencyType → Mappings → List Edge
edges_to idx kind ms = map (λ m. (idx, m.1, kind)) ms

module _ (g : PackageGraph) where
  open g use {Graph, nodes, edges, try_add_edge, nodes-try_add_edge, edges-try_add_edge}

  -- The graph `h` is `dag` with the edges `es` added.
  pub record Adds (dag h : Graph) (es : List Edge) : Type 0 where
    pub same_nodes : nodes h ≡ nodes dag
    pub more_edges : edges h ≡ edges dag ++ es

  Adds-nil : (dag : Graph) → Adds dag dag []
  Adds-nil dag = record { same_nodes = refl; more_edges = sym (append-nil (edges dag)) }

  Adds-append :
      {a b c : Graph} (es fs : List Edge) → Adds a b es → Adds b c fs → Adds a c (es ++ fs)
  Adds-append {a} es fs x y = record {
    same_nodes = y.same_nodes ∙ x.same_nodes;
    more_edges = y.more_edges ∙ ap (λ l. l ++ fs) x.more_edges ∙ append_assoc (edges a) es fs;
  }

  add_edges_to-Adds :
      (p : Package) (idx : ℕ) (kind : DependencyType) (ms : Mappings) (dag h : Graph)
      → add_edges_to g p idx kind ms dag ≡ ok h
      → Adds dag h (edges_to idx kind ms)
  unfolding add_edges_to
  add_edges_to-Adds p idx kind [] dag h e = subst (λ d. Adds dag d []) (cc) (Adds-nil dag)
  add_edges_to-Adds p idx kind ((dep, j) ∷ ms) dag h e =
      elim (Option-cases (try_add_edge dag idx j kind)) [
        | inl refused ↦ absurd (ground arith)
        | inr (mid, added) ↦
            Adds-append ((idx, j, kind) ∷ []) (edges_to idx kind ms)
              (record {
                same_nodes = nodes-try_add_edge dag mid idx j kind added;
                more_edges = edges-try_add_edge dag mid idx j kind added;
              })
              (add_edges_to-Adds p idx kind ms mid h (ground arith))
      ]

  module _ (syntax : DependencySyntax) (data' : ConditionData) (all_mappings : Mappings) where
    abbrev pub edges_for : ℕ → List Item → List Edge
    edges_for idx [] = []
    edges_for idx (err e ∷ items) = []
    edges_for idx (ok (k, kind) ∷ items) =
        edges_to idx kind (with_key g syntax data' all_mappings k) ++ edges_for idx items

    abbrev pub all_edges : Mappings → List Edge
    all_edges [] = []
    all_edges ((p, idx) ∷ ms) =
        edges_for idx (get_package_dependencies syntax data' p) ++ all_edges ms

    add_edges_for-Adds :
        (p : Package) (idx : ℕ) (items : List Item) (dag h : Graph)
        → add_edges_for g syntax data' all_mappings p idx items dag ≡ ok h
        → Adds dag h (edges_for idx items)
    unfolding add_edges_for
    add_edges_for-Adds p idx [] dag h e = subst (λ d. Adds dag d []) (cc) (Adds-nil dag)
    add_edges_for-Adds p idx (err x ∷ items) dag h e = absurd (cc)
    add_edges_for-Adds p idx (ok (k, kind) ∷ items) dag h e =
        let matching = with_key g syntax data' all_mappings k in
        let (mid, first, rest) =
          >>=-eq-ok (add_edges_to g p idx kind matching dag)
            (add_edges_for g syntax data' all_mappings p idx items) e in
        Adds-append (edges_to idx kind matching) (edges_for idx items)
          (add_edges_to-Adds p idx kind matching dag mid first)
          (add_edges_for-Adds p idx items mid h rest)

    pub add_edges-Adds :
        (ms : Mappings) (dag h : Graph)
        → add_edges g syntax data' all_mappings ms dag ≡ ok h
        → Adds dag h (all_edges ms)
    unfolding add_edges
    add_edges-Adds [] dag h e = subst (λ d. Adds dag d []) (cc) (Adds-nil dag)
    add_edges-Adds ((p, idx) ∷ ms) dag h e =
        let items = get_package_dependencies syntax data' p in
        let (mid, first, rest) =
          >>=-eq-ok (add_edges_for g syntax data' all_mappings p idx items dag)
            (add_edges g syntax data' all_mappings ms) e in
        Adds-append (edges_for idx items) (all_edges ms)
          (add_edges_for-Adds p idx items dag mid first) (add_edges-Adds ms mid h rest)

    In-with_key :
        (k : Key) {q : Package} {j : ℕ}
        → In (q, j) (with_key g syntax data' all_mappings k)
        → In (q, j) all_mappings × (key q ≡ k)
    In-with_key k {q} m =
        let (at, e) = In-filter (λ m. m.0.name == k.0 && m.0.version == k.1) all_mappings m in
        (at, (pair_eq.beq_iff (key q) k).0 e)

    In-with_key_intro :
        (q : Package) {j : ℕ}
        → In (q, j) all_mappings
        → In (q, j) (with_key g syntax data' all_mappings (key q))
    In-with_key_intro q m =
        In-filter_intro (λ m. m.0.name == q.name && m.0.version == q.version) m
          ((pair_eq.beq_iff (key q) (key q)).1 refl)

    In-edges_for :
        (idx : ℕ) (items : List Item) {i j : ℕ} {kind : DependencyType}
        → In (i, j, kind) (edges_for idx items)
        → (idx ≡ i) × (q : Package) × In (q, j) all_mappings × In (ok (key q, kind)) items
    In-edges_for idx [] m = absurd (not-In-nil m)
    In-edges_for idx (err e ∷ items) m = absurd (not-In-nil m)
    In-edges_for idx (ok (k, kind') ∷ items) {i} {j} {kind} m =
        elim (In-append (edges_to idx kind' (with_key g syntax data' all_mappings k)) m) [
          | inr later ↦ let (e, q, at, n) = In-edges_for idx items later in (e, q, at, there n)
          | inl here_m ↦
              let ((q, l), at, e) =
                In-map (λ m. (idx, m.1, kind')) (with_key g syntax data' all_mappings k) here_m in
              let (held, same) = In-with_key k at in
              let index : l ≡ j = ap (λ x. x.1) e in
              let type : kind' ≡ kind = ap (λ x. x.2) e in
              (
                ap (λ x. x.0) e,
                q,
                subst (λ n. In (q, n) all_mappings) index held,
                here (rw (same, type)),
              )
        ]

    In-edges_for_intro :
        (idx : ℕ) (q : Package) {j : ℕ} {kind : DependencyType} (items : List Item)
        → ((item : Item) → In item items → (n : Key × DependencyType) × (item ≡ ok n))
        → In (q, j) all_mappings
        → In (ok (key q, kind)) items
        → In (idx, j, kind) (edges_for idx items)
    In-edges_for_intro idx q [] good at m = absurd (not-In-nil m)
    In-edges_for_intro idx q (err e ∷ items) good at m =
        let (n, bad) = good (err e) (here refl) in absurd (cc)
    In-edges_for_intro idx q {j} {kind} (ok (k, kind') ∷ items) good at (here e) =
        let same : k ≡ key q = cc in
        let type : kind' ≡ kind = cc in
        In-append_left (edges_for idx items)
          (rw (same, type) (In-map_intro (λ m. (idx, m.1, kind)) (In-with_key_intro q at)))
    In-edges_for_intro idx q (ok (k, kind') ∷ items) good at (there m) =
        In-append_right (edges_to idx kind' (with_key g syntax data' all_mappings k))
          (In-edges_for_intro idx q items (λ i n. good i (there n)) at m)

    -- Every edge goes from a package to one that it names as a dependency of the edge's kind.
    pub In-all_edges :
        (ms : Mappings) {i j : ℕ} {kind : DependencyType}
        → In (i, j, kind) (all_edges ms)
        → (p : Package) × (q : Package) × In (p, i) ms
          × In (q, j) all_mappings
          × In (ok (key q, kind)) (get_package_dependencies syntax data' p)
    In-all_edges [] m = absurd (not-In-nil m)
    In-all_edges ((p, idx) ∷ ms) {i} {j} {kind} m =
        elim (In-append (edges_for idx (get_package_dependencies syntax data' p)) m) [
          | inr later ↦ let (s, q, at, held, n) = In-all_edges ms later in (s, q, there at, held, n)
          | inl first ↦
              let (e, q, held, n) =
                In-edges_for idx (get_package_dependencies syntax data' p) first in
              (p, q, here (ap (λ x. (p, x)) e), held, n)
        ]

    pub In-all_edges_intro :
        {p : Package} (q : Package) {i j : ℕ} {kind : DependencyType} {ms : Mappings}
        → ((s : Package) (l : ℕ)
            → In (s, l) ms
            → (item : Item) → In item (get_package_dependencies syntax data' s)
            → (n : Key × DependencyType) × (item ≡ ok n))
        → In (p, i) ms
        → In (q, j) all_mappings
        → In (ok (key q, kind)) (get_package_dependencies syntax data' p)
        → In (i, j, kind) (all_edges ms)
    In-all_edges_intro {p} q {i} {j} {kind} good (here {x = x} {xs = ms} e) at n =
        let same : x ≡ (p, i) = e in
        rw same (
          In-append_left (all_edges ms) (
            In-edges_for_intro i q (get_package_dependencies syntax data' p) (good p i (here e)) at
              n))
    In-all_edges_intro q good (there {x = x} m) at n =
        In-append_right (edges_for x.1 (get_package_dependencies syntax data' x.0))
          (In-all_edges_intro q (λ s l k. good s l (there k)) m at n)
