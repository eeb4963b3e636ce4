-- ===== src/Images/Collisions.antt =====
-- When names collide (src/util/docker.rs).
use butido.Prelude.{
  ℕ, suc, ◌≡◌, refl, sym, ◌∙◌, subst, ◌↔◌, inl, inr, Bool, false, none, List, [], ◌∷◌, arith, In,
  here, there, not-In-nil, ok, ◌==◌, string_eq, ◌||◌, eq_refl, map_insert, map_get, contains_key,
  contains_key-insert, Bool-cases,
}
use butido.Package.Condition.{ImageName}
use butido.Images.{ContainerImage, ImageNameLookup, AllNames, add_image, create_from, create}
use butido.Images.Names.{names, has_of_get, Step, step, empty_lookup}

abbrev pub AllDifferent : List ImageName → Type 0
AllDifferent [] = Unit
AllDifferent (k ∷ ks) = (¬ In k ks) × AllDifferent ks

New : AllNames → List ContainerImage → Type 0
New all_names images = (k : ImageName) → In k (names images) → contains_key all_names k ≡ false

created-AllDifferent :
    (idx : ℕ) (images : List ContainerImage) (all_names : AllNames) (lookup : ImageNameLookup)
    {l : ImageNameLookup}
    → create_from idx images all_names lookup ≡ ok l
    → AllDifferent (names images) × New all_names images
unfolding New
created-AllDifferent idx [] all_names lookup h = (tt, λ k m. absurd (not-In-nil m))
created-AllDifferent idx (x ∷ images) all_names lookup h =
    let (with_both, s, rest) = step idx x images all_names lookup h in
    let (different, new) =
      created-AllDifferent (suc idx) images with_both (add_image x lookup) rest in
    (
      (
        λ m. name_twice s new m,
        (
          λ m.
              absurd (ground (arith, s.has x.short_name, new x.short_name m, eq_refl x.short_name)),
          different,
        ),
      ),
      λ k m. is_new s new m,
    )
  where
    name_twice :
        {all_names with_both : AllNames}
        → Step x all_names with_both
        → ((k : ImageName) → In k (names images) → contains_key with_both k ≡ false)
        → ¬ In x.name (x.short_name ∷ names images)
    name_twice s new (here e) =
        absurd (ground (arith, s.different, (string_eq.beq_iff x.name x.short_name).1 (sym e)))
    name_twice s new (there m) = absurd (ground (arith, s.has x.name, new x.name m, eq_refl x.name))

    is_new :
        {all_names with_both : AllNames} {k : ImageName}
        → Step x all_names with_both
        → ((k : ImageName) → In k (names images) → contains_key with_both k ≡ false)
        → In k (x.name ∷ x.short_name ∷ names images)
        → contains_key all_names k ≡ false
    is_new {all_names} s new (here e) = subst (λ k. contains_key all_names k ≡ false) e s.new_name
    is_new {all_names} s new (there (here e)) =
        subst (λ k. contains_key all_names k ≡ false) e s.new_short
    is_new {k = k} s new (there (there m)) = ground (arith, s.has k, new k m)

completes :
    (idx : ℕ) (images : List ContainerImage) (all_names : AllNames) (lookup : ImageNameLookup)
    → AllDifferent (names images)
    → New all_names images
    → (l : ImageNameLookup) × (create_from idx images all_names lookup ≡ ok l)
unfolding create_from New
completes idx [] all_names lookup different new = (lookup, refl)
completes idx (x ∷ images) all_names lookup (name_once, (short_once, different)) new =
    let with_name = map_insert x.name idx all_names in
    let with_both = map_insert x.short_name idx with_name in
    let name_free = has_of_get x.name all_names (new x.name (here refl)) in
    let has_name = λ (k : ImageName). contains_key-insert x.name k idx all_names in
    let short_free : map_get x.short_name with_name ≡ none = has_of_get x.short_name with_name (
      has_name x.short_name
      ∙ other x.name x.short_name _ (λ e. name_once (here (sym e)))
          (new x.short_name (there (here refl)))) in
    let (l, rest) = completes (suc idx) images with_both (add_image x lookup) different (λ k m.
      contains_key-insert x.short_name k idx with_name
      ∙ other x.short_name k _ (λ e. short_once (subst (λ i. In i (names images)) (sym e) m))
          (has_name k
            ∙ other x.name k _ (λ e. name_once (there (subst (λ i. In i (names images)) (sym e) m)))
                (new k (there (there m))))) in
    (l, rw (name_free, short_free) rest)
  where
    other : (j k : ImageName) (b : Bool) → ¬ (j ≡ k) → b ≡ false → (j == k || b) ≡ false
    other j k b different f = elim (Bool-cases (j == k)) [
      | inl e ↦ absurd (different ((string_eq.beq_iff j k).0 e))
      | inr e ↦ rw (e, f)
    ]

-- The lookup is created exactly when no two of the long and short names of the images are equal.
pub create-AllDifferent :
    (images : List ContainerImage)
    → ((l : ImageNameLookup) × (create images ≡ ok l)) ↔ AllDifferent (names images)
unfolding create New
create-AllDifferent images = (
  λ (l, h). (created-AllDifferent 0 images [] empty_lookup h).0,
  λ different. completes 0 images [] empty_lookup different (λ k m. refl),
)
