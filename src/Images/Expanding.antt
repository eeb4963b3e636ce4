-- ===== src/Images/Expanding.antt =====
-- What a lookup that was created expands and shortens (src/util/docker.rs).
use butido.Prelude.{
  ℕ, suc, ◌≡◌, refl, ◌∙◌, subst, inl, inr, false, Option, none, some, List, [], ◌∷◌, arith, In,
  here, there, not-In-nil, ok, err, ◌==◌, string_eq, eq_refl, map_get, contains_key, map_get-insert,
  Bool-cases, if◌then◌else◌,
}
use butido.Package.Condition.{ImageName}
use butido.Images.{
  ContainerImage, ImageNameLookup, AllNames, add_image, create_from, create, unknown_name, expand,
  shorten,
}
use butido.Images.Names.{names, has_of_get, get_of_has, Step, step, kept, empty_lookup}

-- The images before `all_names` left no entry for another name.
abbrev Covered : AllNames → ImageNameLookup → Type 0
Covered all_names lookup =
    (k : ImageName)
    → contains_key all_names k ≡ false
    → (map_get k lookup.long2short ≡ none) × (map_get k lookup.short2long ≡ none)

Covered-add_image :
    {all_names with_both : AllNames} (image : ContainerImage) (lookup : ImageNameLookup)
    → Step image all_names with_both
    → Covered all_names lookup
    → Covered with_both (add_image image lookup)
Covered-add_image image lookup s c k unknown =
    let (long, short) = c k (ground (arith, s.has k, unknown)) in
    (
      map_get-insert image.name k image.short_name lookup.long2short
          ∙ ground (arith, s.has k, unknown, long),
      map_get-insert image.short_name k image.name lookup.short2long
          ∙ ground (arith, s.has k, unknown, short),
    )

-- An image with its two names: the short name is not a long name.
pub record IsKnown (l : ImageNameLookup) (image : ContainerImage) : Type 0 where
  pub long : map_get image.name l.long2short ≡ some image.short_name
  pub short : map_get image.short_name l.short2long ≡ some image.name
  pub not_long : map_get image.short_name l.long2short ≡ none

head-IsKnown :
    (idx : ℕ) (image : ContainerImage) (images : List ContainerImage) (all_names : AllNames)
    (lookup : ImageNameLookup) {l : ImageNameLookup}
    → Covered all_names lookup
    → create_from idx (image ∷ images) all_names lookup ≡ ok l
    → IsKnown l image
head-IsKnown idx image images all_names lookup c h =
    let (with_both, s, rest) = step idx image images all_names lookup h in
    let next = add_image image lookup in
    let of_name =
      kept (suc idx) images with_both next image.name rest
        (s.has image.name ∙ ground (arith, eq_refl image.name)) in
    let of_short =
      kept (suc idx) images with_both next image.short_name rest
        (s.has image.short_name ∙ ground (arith, eq_refl image.short_name)) in
    record {
      long =
          of_name.0
          ∙ map_get-insert image.name image.name image.short_name lookup.long2short
          ∙ ground (arith, eq_refl image.name);
      short =
          of_short.1
          ∙ map_get-insert image.short_name image.short_name image.name lookup.short2long
          ∙ ground (arith, eq_refl image.short_name);
      not_long =
          of_short.0
          ∙ map_get-insert image.name image.short_name image.short_name lookup.long2short
          ∙ ground (arith, s.different, (c image.short_name s.new_short).0);
    }

all-IsKnown :
    (idx : ℕ) (images : List ContainerImage) (all_names : AllNames) (lookup : ImageNameLookup)
    {l : ImageNameLookup} {image : ContainerImage}
    → Covered all_names lookup
    → create_from idx images all_names lookup ≡ ok l
    → In image images
    → IsKnown l image
all-IsKnown idx [] all_names lookup c h m = absurd (not-In-nil m)
all-IsKnown idx (x ∷ images) all_names lookup {l} c h (here e) =
    subst (IsKnown l) e (head-IsKnown idx x images all_names lookup c h)
all-IsKnown idx (x ∷ images) all_names lookup c h (there m) =
    let (with_both, s, rest) = step idx x images all_names lookup h in
    all-IsKnown (suc idx) images with_both (add_image x lookup) (Covered-add_image x lookup s c)
      rest m

-- A name that is not among those of the images is not known.
others :
    (idx : ℕ) (images : List ContainerImage) (all_names : AllNames) (lookup : ImageNameLookup)
    {l : ImageNameLookup} (k : ImageName)
    → create_from idx images all_names lookup ≡ ok l
    → ¬ In k (names images)
    → (map_get k lookup.long2short ≡ none) × (map_get k lookup.short2long ≡ none)
    → (map_get k l.long2short ≡ none) × (map_get k l.short2long ≡ none)
unfolding create_from
others idx [] all_names lookup {l} k h absent c =
    let same : lookup ≡ l = cc in
    subst
      (λ (x : ImageNameLookup). (map_get k x.long2short ≡ none) × (map_get k x.short2long ≡ none))
      same c
others idx (x ∷ images) all_names lookup k h absent (long, short) =
    let (with_both, s, rest) = step idx x images all_names lookup h in
    others (suc idx) images with_both (add_image x lookup) k rest (λ m. absent (there (there m)))
      (
        map_get-insert x.name k x.short_name lookup.long2short
            ∙ not_there _ x.name (λ e. absent (here e)) long,
        map_get-insert x.short_name k x.name lookup.short2long
            ∙ not_there _ x.short_name (λ e. absent (there (here e))) short,
      )
  where
    not_there :
        (v : Option ImageName) {o : Option ImageName} (j : ImageName)
        → ¬ (j ≡ k)
        → o ≡ none
        → (if j == k then v else o) ≡ none
    not_there v j other nothing = elim (Bool-cases (j == k)) [
      | inl e ↦ absurd (other ((string_eq.beq_iff j k).0 e))
      | inr e ↦ rw e nothing
    ]

-- If the lookup is created, it expands the short and the long name of each image to the long name,
-- shortens both to the short name, and refuses to expand every other name.
pub expand-create :
    (images : List ContainerImage) {l : ImageNameLookup}
    → create images ≡ ok l
    → ((image : ContainerImage)
        → In image images
        → (expand l image.short_name ≡ ok image.name)
          × (expand l image.name ≡ ok image.name)
          × (shorten l image.name ≡ image.short_name)
          × (shorten l image.short_name ≡ image.short_name))
      × ((k : ImageName) → ¬ In k (names images) → expand l k ≡ err (unknown_name k))
unfolding create expand shorten
expand-create images {l} h = (
  λ image m.
      let known = all-IsKnown 0 images [] empty_lookup (λ k e. (refl, refl)) h m in
      (
        rw (get_of_has image.short_name l.long2short known.not_long, known.short),
        ground (arith, known.long, has_of_get image.name l.long2short),
        rw known.long,
        rw known.not_long,
      ),
  λ k absent.
      let (long, short) = others 0 images [] empty_lookup k h absent (refl, refl) in
      rw (get_of_has k l.long2short long, short),
)
