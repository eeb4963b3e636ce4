-- ===== src/Repository/Paths.antt =====
-- `normalize_relative_path` (src/repository/repository.rs), and the components of paths in the
-- tree of `pkg.toml` files (src/repository/fs/path.rs).
pub mod Normal
mod Examples
use butido.Prelude.{
  String, Bool, true, false, Option, none, some, List, [], ◌∷◌, ◌++◌, map, Result, ok, err, ◌>>=◌,
  ok_or, ◌==◌, string_eq, if◌then◌else◌,
}

-- `std::path::Component`; a prefix occurs on Windows only.
pub data Component : Type 0 where
  prefix_drive root_dir cur_dir parent_dir : Component
  normal : String → Component

-- A path is the list of its components.
abbrev pub PathBuf : Type 0
PathBuf = List Component

pub data PathError : Type 0 where
  starts_with_prefix starts_from_root escapes_base : PathError
  unexpected : Component → PathError

-- The names of `normalized_path`, the last one first
abbrev pub Names : Type 0
Names = List String

-- `PathBuf::pop`: `none` is `false`, for a path without a parent.
abbrev pub pop : Names → Option Names
pop [] = none
pop (name ∷ names) = some names

-- The body of the loop
abbrev pub normalize_component : Component → Names → Result PathError Names
normalize_component prefix_drive names = err starts_with_prefix
normalize_component root_dir names = err starts_from_root
normalize_component cur_dir names = ok names
normalize_component parent_dir names = ok_or escapes_base (pop names)
normalize_component (normal name) names = ok (name ∷ names)

unfoldable pub normalize_from : PathBuf → Names → Result PathError Names
normalize_from [] names = ok names
normalize_from (c ∷ path) names = do
  names' ← normalize_component c names
  normalize_from path names'

-- Names that are the last one first, as a path
abbrev pub in_order : Names → PathBuf → PathBuf
in_order [] path = path
in_order (name ∷ names) path = in_order names (normal name ∷ path)

-- `normalized_path` after `if normalized_path.parent().is_none() { … }`
abbrev pub or_current : Names → PathBuf
or_current [] = cur_dir ∷ []
or_current (name ∷ names) = in_order (name ∷ names) []

unfoldable pub normalize_relative_path : PathBuf → Result PathError PathBuf
unfolding normalize_from
normalize_relative_path path = do names ← normalize_from path []; ok (or_current names)

-- A directory, or a `pkg.toml` file
pub data PathComponent : Type 0 where
  pkg_toml : PathComponent
  dir_name : String → PathComponent

-- `PathComponent::try_from`
unfoldable pub try_from : Component → Result PathError PathComponent
try_from prefix_drive = err (unexpected prefix_drive)
try_from root_dir = err (unexpected root_dir)
try_from cur_dir = err (unexpected cur_dir)
try_from parent_dir = err (unexpected parent_dir)
try_from (normal filename) = if filename == "pkg.toml" then ok pkg_toml else ok (dir_name filename)
