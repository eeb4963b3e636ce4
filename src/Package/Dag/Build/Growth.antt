-- ===== src/Package/Dag/Build/Growth.antt =====
-- Which keys a `HashMap<&Package, NodeIndex>` holds, and what the repository returns for a key.
use butido.Prelude.{
  ℕ, ◌≡◌, ap, sym, ◌⊎◌, inl, inr, Bool, true, List, [], ◌∷◌, ◌&&◌, arith, map, filter, any, In,
  here, there, In-filter, not-In-nil, ◌==◌, string_eq, pair_eq, eq_refl, or_right, subst,
  Bool-cases, if◌then◌else◌,
}
use butido.Package.Types.{Key, key, package_beq, Package}
use butido.Package.Dag.Build.{Repository, find_with_version, Mappings, insert}

abbrev pub has_key : Mappings → Key → Bool
has_key ms k = any (λ m. k == key m.0) ms

-- A package stands among the keys.
abbrev pub Holds : Mappings → Package → Type 0
Holds ms p = (i : ℕ) × In (p, i) ms

pub package_beq_iff : (p q : Package) → package_beq p q ≡ true → key p ≡ key q
package_beq_iff p q h = (pair_eq.beq_iff (key p) (key q)).0 h

pub has_key-insert_self :
    (p : Package) (i : ℕ) (ms : Mappings) → has_key (insert p i ms) (key p) ≡ true
has_key-insert_self p i [] = rw (eq_refl (key p))
has_key-insert_self p i ((q, j) ∷ ms) = elim (Bool-cases (package_beq q p)) [
  | inl e ↦ rw (e, (pair_eq.beq_iff (key p) (key q)).1 (sym (package_beq_iff q p e)))
  | inr e ↦ rw e (or_right _ _ (has_key-insert_self p i ms))
]

pub has_key-insert_old :
    (p : Package) (i : ℕ) (ms : Mappings) (k : Key)
    → has_key ms k ≡ true
    → has_key (insert p i ms) k ≡ true
has_key-insert_old p i [] k h = absurd (cc)
has_key-insert_old p i ((q, j) ∷ ms) k h = elim (Bool-cases (package_beq q p)) [
  | inl e ↦ rw e h
  | inr e ↦ rw e (ground (arith, has_key-insert_old p i ms k))
]

Holds-cons :
    (r : Package) (l : ℕ) (ms : Mappings) {q : Package}
    → Holds ((r, l) ∷ ms) q
    → (r ≡ q) ⊎ Holds ms q
Holds-cons r l ms (j, here e) = inl (ap (λ m. m.0) e)
Holds-cons r l ms (j, there m) = inr (j, m)

Holds-other_index :
    (r : Package) (i l : ℕ) (ms : Mappings) {q : Package}
    → Holds ((r, i) ∷ ms) q
    → Holds ((r, l) ∷ ms) q
Holds-other_index r i l ms h = elim (Holds-cons r i ms h) [
  | inl same ↦ (l, here (ap (λ x. (x, l)) same))
  | inr (j, m) ↦ (j, there m)
]

pub Holds-insert :
    (p : Package) (i : ℕ) (ms : Mappings) (q : Package)
    → Holds (insert p i ms) q
    → (q ≡ p) ⊎ Holds ms q
Holds-insert p i [] q (j, here e) = inl (ap (λ m. m.0) (sym e))
Holds-insert p i [] q (j, there m) = absurd (not-In-nil m)
Holds-insert p i ((r, l) ∷ ms) q (j, m) = elim (Bool-cases (package_beq r p)) [
  | inl e ↦ inr (Holds-other_index r i l ms (j, rw (e, if◌then◌else◌) at m))
  | inr e ↦ elim (Holds-cons r l (insert p i ms) (j, rw (e, if◌then◌else◌) at m)) [
    | inl same ↦ inr (l, here (ap (λ x. (x, l)) same))
    | inr later ↦ elim (Holds-insert p i ms q later) [
      | inl new ↦ inl new
      | inr (o, old) ↦ inr (o, there old)
    ]
  ]
]

-- Every entry of the repository stands under the name and version of its package.
abbrev pub IsKeyed : Repository → Type 0
IsKeyed repo = (e : Key × Package) → In e repo → e.0 ≡ key e.1

pub In-map_snd :
    {A B : Type 0} (xs : List (A × B)) {b : B} → In b (map (λ e. e.1) xs) → (a : A) × In (a, b) xs
In-map_snd [] m = absurd (not-In-nil m)
In-map_snd ((a, b) ∷ xs) (here e) = (a, here (ap (λ c. (a, c)) e))
In-map_snd ((a, b) ∷ xs) (there m) = let (a', m') = In-map_snd xs m in (a', there m')

-- A package that is found is in the repository, under the name and version that were asked for.
pub In-find_with_version :
    (repo : Repository) (k : Key) {p : Package}
    → In p (find_with_version repo k.0 k.1)
    → In (k, p) repo
unfolding find_with_version
In-find_with_version repo k {p} m =
    let (k', m') = In-map_snd (filter (λ e. e.0.0 == k.0 && e.0.1 == k.1) repo) m in
    let (at, e) = In-filter (λ e. e.0.0 == k.0 && e.0.1 == k.1) repo m' in
    subst (λ x. In (x, p) repo) ((pair_eq.beq_iff k' k).0 e) at
