-- ===== src/Images/Names.antt =====
-- The steps of `ImageNameLookup::create` (src/util/docker.rs).
use butido.Prelude.{
  ℕ, suc, ◌≡◌, refl, sym, ◌∙◌, ap, subst, inl, inr, true, false, none, List, [], ◌∷◌, arith, ok,
  >>=-eq-ok, ◌==◌, string_eq, ◌||◌, map_insert, map_get, contains_key, map_get-insert,
  contains_key-insert, Option-cases,
}
use butido.Package.Condition.{ImageName}
use butido.Images.{
  ContainerImage, ImageNameLookup, LookupError, AllNames, insert_name, add_image, create_from,
}

-- The long and short names of the images, in order
abbrev pub names : List ContainerImage → List ImageName
names [] = []
names (image ∷ images) = image.name ∷ image.short_name ∷ names images

-- Facts on the maps of names
pub has_of_get :
    {V : Type 0} (k : ImageName) (m : List (ImageName × V))
    → contains_key m k ≡ false
    → map_get k m ≡ none
has_of_get k [] h = refl
has_of_get k ((j, v) ∷ m) h = ground (arith, has_of_get k m)

pub get_of_has :
    {V : Type 0} (k : ImageName) (m : List (ImageName × V))
    → map_get k m ≡ none
    → contains_key m k ≡ false
get_of_has k [] h = refl
get_of_has k ((j, v) ∷ m) h = ground (arith, get_of_has k m)

insert_name-eq-ok :
    (error : ℕ → LookupError) (name : ImageName) (idx : ℕ) (all_names : AllNames) {r : AllNames}
    → insert_name error name idx all_names ≡ ok r
    → (contains_key all_names name ≡ false) × (map_insert name idx all_names ≡ r)
insert_name-eq-ok error name idx all_names h = elim (Option-cases (map_get name all_names)) [
  | inl new ↦ (get_of_has name all_names new, ground (arith, new))
  | inr (i, old) ↦ absurd (ground (arith, old))
]

-- A step of the loop that goes on
pub record Step (image : ContainerImage) (all_names with_both : AllNames) : Type 0 where
  pub new_name : contains_key all_names image.name ≡ false
  pub new_short : contains_key all_names image.short_name ≡ false
  pub different : (image.name == image.short_name) ≡ false
  pub has :
      (k : ImageName)
      → contains_key with_both k
        ≡ (image.short_name == k || (image.name == k || contains_key all_names k))

pub step :
    (idx : ℕ) (image : ContainerImage) (images : List ContainerImage) (all_names : AllNames)
    (lookup : ImageNameLookup) {l : ImageNameLookup}
    → create_from idx (image ∷ images) all_names lookup ≡ ok l
    → (with_both : AllNames) × Step image all_names with_both
      × (create_from (suc idx) images with_both (add_image image lookup) ≡ ok l)
unfolding create_from
step idx image images all_names lookup h =
    let (with_name, first, rest) = >>=-eq-ok (insert_name _ image.name idx all_names) _ h in
    let (with_both, second, last) =
      >>=-eq-ok (insert_name _ image.short_name idx with_name) _ rest in
    let (new, e) = insert_name-eq-ok _ image.name idx all_names first in
    let (new', e') = insert_name-eq-ok _ image.short_name idx with_name second in
    let in_first = contains_key-insert image.name image.short_name idx all_names in
    (
      with_both,
      record {
        new_name = new;
        new_short = ground (
          arith,
          subst (λ (m : AllNames). contains_key m image.short_name ≡ false) (sym e) new',
          in_first,
        );
        different = ground (
          arith,
          subst (λ (m : AllNames). contains_key m image.short_name ≡ false) (sym e) new',
          in_first,
        );
        has = λ k.
            ap (λ (m : AllNames). contains_key m k) (sym e')
            ∙ contains_key-insert image.short_name k idx with_name
            ∙ ap (λ b. image.short_name == k || b)
                (ap (λ (m : AllNames). contains_key m k) (sym e)
                  ∙ contains_key-insert image.name k idx all_names);
      },
      last,
    )

-- A name that was there before keeps its entries.
pub kept :
    (idx : ℕ) (images : List ContainerImage) (all_names : AllNames) (lookup : ImageNameLookup)
    {l : ImageNameLookup} (k : ImageName)
    → create_from idx images all_names lookup ≡ ok l
    → contains_key all_names k ≡ true
    → (map_get k l.long2short ≡ map_get k lookup.long2short)
      × (map_get k l.short2long ≡ map_get k lookup.short2long)
unfolding create_from
kept idx [] all_names lookup {l} k h known =
    let same : lookup ≡ l = cc in (rw same refl, rw same refl)
kept idx (image ∷ images) all_names lookup k h known =
    let (with_both, s, rest) = step idx image images all_names lookup h in
    let (long, short) =
      kept (suc idx) images with_both (add_image image lookup) k rest
        (s.has k ∙ ground (arith, known)) in
    (
      long
          ∙ map_get-insert image.name k image.short_name lookup.long2short
          ∙ ground (arith, known, s.new_name, string_eq.beq_iff image.name k),
      short
          ∙ map_get-insert image.short_name k image.name lookup.short2long
          ∙ ground (arith, known, s.new_short, string_eq.beq_iff image.short_name k),
    )

abbrev pub empty_lookup : ImageNameLookup
empty_lookup = record { long2short = []; short2long = [] }
