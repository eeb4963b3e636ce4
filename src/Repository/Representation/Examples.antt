-- ===== src/Repository/Representation/Examples.antt =====
-- A repository with three files, one of them below another.
use butido.Prelude.{
  ◌≡◌, refl, String, Bool, true, false, List, [], ◌∷◌, ◌++◌, In, here, there, ok, ◌↔◌, ◌==◌,
  string_eq,
}
use butido.Repository.Paths.{root_dir, normal, PathBuf, pkg_toml, dir_name, try_from}
use butido.Repository.Representation.{
  file, dir, no_elements, entry, FileSystemRepresentation, insert_path, add_file, add_files, load,
  leaf_from, is_leaf_file, layers_from, get_files_for,
}
use butido.Repository.Representation.Loading.{toml_path}
use butido.Repository.Representation.Files.{Entry, found, empty, Loadable, Loaded, load-Loaded}
use butido.Repository.Representation.Leaf.{is_leaf_file_iff}
use butido.Repository.Representation.Layering.{get_files_for-layers}

abbrev root : PathBuf
root = root_dir ∷ []

abbrev entries : List Entry
entries = ([], "common") ∷ ("a" ∷ "b" ∷ [], "deep") ∷ ("c" ∷ [], "flat") ∷ []

abbrev loaded : FileSystemRepresentation
loaded = record {
  root = root;
  files =
      (root_dir ∷ normal "pkg.toml" ∷ [])
      ∷ (root_dir ∷ normal "a" ∷ normal "b" ∷ normal "pkg.toml" ∷ [])
      ∷ (root_dir ∷ normal "c" ∷ normal "pkg.toml" ∷ [])
      ∷ [];
  elements = entry pkg_toml (file "common") (
      entry (dir_name "a")
        (dir (entry (dir_name "b") (dir (entry pkg_toml (file "deep") no_elements)) no_elements))
        (entry (dir_name "c") (dir (entry pkg_toml (file "flat") no_elements)) no_elements));
}

computes : Unit {0}
unfolding load add_files add_file insert_path try_from is_leaf_file leaf_from get_files_for
    layers_from
computes = tt

load_entries : load root (found root entries) ≡ ok loaded
unfolding computes
load_entries = refl

leaves :
    (is_leaf_file loaded (root ++ toml_path []) ≡ ok false)
    × (is_leaf_file loaded (root ++ toml_path ("a" ∷ "b" ∷ [])) ≡ ok true)
unfolding computes
leaves = (refl, refl)

other_name : (s : String) → (s == "pkg.toml") ≡ false → ¬ (s ≡ "pkg.toml")
other_name s f h = absurd (cc ((string_eq.beq_iff s "pkg.toml").1 h))

plain : Loadable entries
plain = (tt, ((other_name "a" refl, (other_name "b" refl, tt)), ((other_name "c" refl, tt), tt)))

load-Loaded_example :
    (fsr : FileSystemRepresentation) × (load root (found root entries) ≡ ok fsr)
    × Loaded entries (empty root) fsr
load-Loaded_example = load-Loaded root entries plain

is_leaf_file_iff_example :
    (b : Bool) × (is_leaf_file loaded (root ++ toml_path ("a" ∷ "b" ∷ [])) ≡ ok b)
    × ((b ≡ true) ↔ (
        (d : String) (ds : List String) (c : String)
        → ¬ In (("a" ∷ "b" ∷ []) ++ d ∷ ds, c) entries))
is_leaf_file_iff_example =
    is_leaf_file_iff root entries plain load_entries ("a" ∷ "b" ∷ [], "deep") (there (here refl))

get_files_for-layers_example :
    get_files_for loaded (root ++ toml_path ("a" ∷ "b" ∷ []))
    ≡ ok (
        (root ++ normal "pkg.toml" ∷ [], "common")
        ∷ (root ++ toml_path ("a" ∷ "b" ∷ []), "deep")
        ∷ [])
get_files_for-layers_example =
    get_files_for-layers root entries plain load_entries ("a" ∷ "b" ∷ [], "deep")
      (there (here refl))
