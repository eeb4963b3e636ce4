-- ===== src/Images/Examples.antt =====
-- Two images with different names.
use butido.Prelude.{◌≡◌, refl, List, [], ◌∷◌, In, ok, err, ◌↔◌, map_insert}
use butido.Package.Condition.{ImageName}
use butido.Images.{
  ContainerImage, ImageNameLookup, duplicate_short_name, unknown_name, create_from, create, expand,
  shorten,
}
use butido.Images.Names.{names}
use butido.Images.Expanding.{expand-create}
use butido.Images.Collisions.{AllDifferent, create-AllDifferent}

abbrev images : List ContainerImage
images =
    record { name = "registry/debian:11"; short_name = "deb11" }
    ∷ record { name = "registry/debian:12"; short_name = "deb12" }
    ∷ []

abbrev lookup : ImageNameLookup
lookup = record {
  long2short = ("registry/debian:11", "deb11") ∷ ("registry/debian:12", "deb12") ∷ [];
  short2long = ("deb11", "registry/debian:11") ∷ ("deb12", "registry/debian:12") ∷ [];
}

create_two : create images ≡ ok lookup
unfolding create create_from map_insert
create_two = refl

create_clash :
    create (record { name = "a"; short_name = "b" } ∷ record { name = "c"; short_name = "a" } ∷ [])
    ≡ err (duplicate_short_name "a" 1 0)
unfolding create create_from map_insert
create_clash = refl

expand-create_example :
    ((image : ContainerImage)
      → In image images
      → (expand lookup image.short_name ≡ ok image.name)
        × (expand lookup image.name ≡ ok image.name)
        × (shorten lookup image.name ≡ image.short_name)
        × (shorten lookup image.short_name ≡ image.short_name))
    × ((k : ImageName) → ¬ In k (names images) → expand lookup k ≡ err (unknown_name k))
expand-create_example = expand-create images create_two

create-AllDifferent_example :
    ((l : ImageNameLookup) × (create images ≡ ok l)) ↔ AllDifferent (names images)
create-AllDifferent_example = create-AllDifferent images
