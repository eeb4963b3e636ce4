-- ===== src/Images.antt =====
-- The long and short names of container images: `ImageNameLookup` (src/util/docker.rs).
pub mod Names
pub mod Expanding
pub mod Collisions
mod Examples
use butido.Prelude.{
  ℕ, suc, Bool, true, false, Option, none, some, List, [], ◌∷◌, Result, ok, err, ◌>>=◌, string_eq,
  map_insert, map_get, contains_key, if◌then◌else◌,
}
use butido.Package.Condition.{ImageName}

pub record ContainerImage : Type 0 where
  pub name : ImageName
  pub short_name : ImageName

pub record ImageNameLookup : Type 0 where
  pub long2short : List (ImageName × ImageName)
  pub short2long : List (ImageName × ImageName)

-- A name that is there twice, with the indices of the two images, and a name that is not known
pub data LookupError : Type 0 where
  duplicate_name : ImageName → ℕ → ℕ → LookupError
  duplicate_short_name : ImageName → ℕ → ℕ → LookupError
  unknown_name : ImageName → LookupError

-- `all_names`
abbrev pub AllNames : Type 0
AllNames = List (ImageName × ℕ)

-- `if let Some(duplicate) = … { return Err(…); }`
abbrev pub refuse_duplicate : (ℕ → LookupError) → Option ℕ → AllNames → Result LookupError AllNames
refuse_duplicate error none all_names = ok all_names
refuse_duplicate error (some duplicate) all_names = err (error duplicate)

-- `all_names.insert(name, idx)`, which returns the old value
abbrev pub insert_name : (ℕ → LookupError) → ImageName → ℕ → AllNames → Result LookupError AllNames
insert_name error name idx all_names =
    refuse_duplicate error (map_get name all_names) (map_insert name idx all_names)

abbrev pub add_image : ContainerImage → ImageNameLookup → ImageNameLookup
add_image image lookup = record {
  long2short = map_insert image.name image.short_name lookup.long2short;
  short2long = map_insert image.short_name image.name lookup.short2long;
}

-- The loop of `create`
unfoldable pub create_from :
    ℕ → List ContainerImage → AllNames → ImageNameLookup → Result LookupError ImageNameLookup
create_from idx [] all_names lookup = ok lookup
create_from idx (image ∷ images) all_names lookup = do
  with_name ← insert_name (duplicate_name image.name idx) image.name idx all_names
  with_both ← insert_name (duplicate_short_name image.short_name idx) image.short_name idx with_name
  create_from (suc idx) images with_both (add_image image lookup)

unfoldable pub create : List ContainerImage → Result LookupError ImageNameLookup
unfolding create_from
create available_images =
    create_from 0 available_images [] (record { long2short = []; short2long = [] })

abbrev pub expand_short : Option ImageName → ImageName → Result LookupError ImageName
expand_short (some long) image_name = ok long
expand_short none image_name = err (unknown_name image_name)

unfoldable pub expand : ImageNameLookup → ImageName → Result LookupError ImageName
expand lookup image_name =
    if contains_key lookup.long2short image_name
    then ok image_name
    else expand_short (map_get image_name lookup.short2long) image_name

abbrev pub unwrap_or : Option ImageName → ImageName → ImageName
unwrap_or none default' = default'
unwrap_or (some name) default' = name

unfoldable pub shorten : ImageNameLookup → ImageName → ImageName
shorten lookup image_name = unwrap_or (map_get image_name lookup.long2short) image_name
