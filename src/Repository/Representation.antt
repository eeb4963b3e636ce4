-- ===== src/Repository/Representation.antt =====
-- The tree of the `pkg.toml` files of a repository: `FileSystemRepresentation`
-- (src/repository/fs/representation.rs) and `Element` (src/repository/fs/element.rs).
pub mod Tree
pub mod Loading
pub mod Files
pub mod Leaf
pub mod Layering
mod Examples
use butido.Prelude.{
  ℕ, zero, suc, ◌≡◌, refl, ◌↔◌, ap, String, Bool, true, false, not, ◌||◌, Option, none, some, List,
  [], ◌∷◌, ◌++◌, arith, Result, ok, err, ◌>>=◌, map_err, Eq, ◌==◌, nat_eq, string_eq, if◌then◌else◌,
}
use butido.Repository.Paths.{
  Component, prefix_drive, root_dir, cur_dir, parent_dir, normal, PathBuf, PathError, PathComponent,
  pkg_toml, dir_name, try_from,
}

-- `HashMap<PathComponent, Element>` is the list of its entries.
mutual
  pub data Element : Type 0 where
    file : String → Element
    dir : Elements → Element

  pub data Elements : Type 0 where
    no_elements : Elements
    entry : PathComponent → Element → Elements → Elements

-- `not_below` is the error of `strip_prefix`, `unwrapped` a panic of `unwrap`.
pub data FsError : Type 0 where
  not_below : PathBuf → FsError
  unexpected_component : PathError → FsError
  unreadable : String → FsError
  not_loaded : PathComponent → FsError
  unwrapped : FsError

pub record FileSystemRepresentation : Type 0 where
  pub root : PathBuf
  pub files : List PathBuf
  pub elements : Elements

abbrev pub component_beq : PathComponent → PathComponent → Bool
component_beq pkg_toml pkg_toml = true
component_beq (dir_name a) (dir_name b) = a == b
component_beq _ _ = false

pub component_beq_iff : (a b : PathComponent) → (component_beq a b ≡ true) ↔ (a ≡ b)
component_beq_iff pkg_toml pkg_toml = ground arith
component_beq_iff pkg_toml (dir_name b) = ground arith
component_beq_iff (dir_name a) pkg_toml = ground arith
component_beq_iff (dir_name a) (dir_name b) = ground (arith, string_eq.beq_iff a b)

instance abbrev pub component_eq : Eq PathComponent
component_eq = record { beq = component_beq; beq_iff = component_beq_iff }

abbrev pub get_element : PathComponent → Elements → Option Element
get_element k no_elements = none
get_element k (entry j e rest) = if j == k then some e else get_element k rest

-- `entry(k).or_insert(e)`
abbrev pub or_insert : PathComponent → Element → Elements → Elements
or_insert k e no_elements = entry k e no_elements
or_insert k e (entry j old rest) =
    if j == k then entry j old rest else entry j old (or_insert k e rest)

-- What the map is after a change behind `get_mut(k)`
abbrev pub replace : PathComponent → Element → Elements → Elements
replace k e no_elements = no_elements
replace k e (entry j old rest) = if j == k then entry j e rest else entry j old (replace k e rest)

-- `values().count()`
abbrev pub count_values : Elements → ℕ
count_values no_elements = zero
count_values (entry k e rest) = suc (count_values rest)

-- `get_map_mut()` and the two calls of `unwrap`
abbrev pub map_mut : Option Element → Result FsError Elements
map_mut none = err unwrapped
map_mut (some (file content)) = err unwrapped
map_mut (some (dir elements)) = ok elements

-- The `match` of the loop; `onward` is the rest of the loop, in the map that is the next `curr_hm`.
abbrev pub insert_component :
    Result FsError String
    → PathComponent
    → Elements
    → (Elements → Result FsError Elements)
    → Result FsError Elements
insert_component content pkg_toml curr onward = do
  text ← content
  onward (or_insert pkg_toml (file text) curr)
insert_component content (dir_name d) curr onward = do
  let with_dir = or_insert (dir_name d) (dir no_elements) curr
  sub ← map_mut (get_element (dir_name d) with_dir)
  sub' ← onward sub
  ok (replace (dir_name d) (dir sub') with_dir)

-- The loop over the components below the root; `curr_hm` is the argument, and what it becomes is
-- the result.
unfoldable pub insert_path : Result FsError String → PathBuf → Elements → Result FsError Elements
insert_path content [] curr = ok curr
insert_path content (c ∷ path) curr = do
  cmp ← map_err unexpected_component (try_from c)
  insert_component content cmp curr (insert_path content path)

abbrev pub component_same : Component → Component → Bool
component_same prefix_drive prefix_drive = true
component_same root_dir root_dir = true
component_same cur_dir cur_dir = true
component_same parent_dir parent_dir = true
component_same (normal a) (normal b) = a == b
component_same _ _ = false

-- `Path::strip_prefix`
abbrev pub strip_prefix : PathBuf → PathBuf → Result FsError PathBuf
strip_prefix path [] = ok path
strip_prefix [] (r ∷ root) = err (not_below [])
strip_prefix (c ∷ path) (r ∷ root) =
    let rest = strip_prefix path root in
    if component_same c r then rest else err (not_below (c ∷ path))

-- The closure of `and_then_ok`: a file that the walk found, with what `load_file` returns for it
unfoldable pub add_file :
    PathBuf × Result FsError String
    → FileSystemRepresentation
    → Result FsError FileSystemRepresentation
add_file (path, content) fsr = do
  root_relative_path ← strip_prefix path fsr.root
  elements ← insert_path content root_relative_path fsr.elements
  ok (record { root = fsr.root; files = fsr.files ++ path ∷ []; elements = elements })

unfoldable pub add_files :
    List (PathBuf × Result FsError String)
    → FileSystemRepresentation
    → Result FsError FileSystemRepresentation
add_files [] fsr = ok fsr
add_files (f ∷ found) fsr = do fsr' ← add_file f fsr; add_files found fsr'

-- `load`, from the `pkg.toml` files that the walk over the directory finds
unfoldable pub load :
    PathBuf → List (PathBuf × Result FsError String) → Result FsError FileSystemRepresentation
load root found = add_files found (record { root = root; files = []; elements = no_elements })

abbrev pub contains_pkg_toml : Elements → Bool
contains_pkg_toml no_elements = false
contains_pkg_toml (entry k e rest) = k == pkg_toml || contains_pkg_toml rest

-- The `match` of `toml_files_in_tree`, and its loop over the values
abbrev mutual
  pub toml_files_in_element : Element → Bool
  toml_files_in_element (file content) = true
  toml_files_in_element (dir hm) = contains_pkg_toml hm || toml_files_in_values hm

  pub toml_files_in_values : Elements → Bool
  toml_files_in_values no_elements = false
  toml_files_in_values (entry k e rest) = toml_files_in_element e || toml_files_in_values rest

abbrev pub toml_files_in_tree : Elements → Bool
toml_files_in_tree hm = contains_pkg_toml hm || toml_files_in_values hm

abbrev pub match_leaf :
    PathComponent
    → Elements
    → Option Element
    → (Elements → Result FsError Bool)
    → Result FsError Bool
match_leaf elem curr none onward = err (not_loaded elem)
match_leaf elem curr (some (file content)) onward =
    ok (count_values curr == 1 || not (toml_files_in_tree curr))
match_leaf elem curr (some (dir hm)) onward = onward hm

-- The loop of `is_leaf_file`
unfoldable pub leaf_from : PathBuf → Elements → Result FsError Bool
leaf_from [] curr = ok false
leaf_from (c ∷ path) curr = do
  elem ← map_err unexpected_component (try_from c)
  match_leaf elem curr (get_element elem curr) (leaf_from path)

unfoldable pub is_leaf_file : FileSystemRepresentation → PathBuf → Result FsError Bool
unfolding leaf_from
is_leaf_file fsr path = do relative ← strip_prefix path fsr.root; leaf_from relative fsr.elements

abbrev pub Layers : Type 0
Layers = List (PathBuf × String)

abbrev pub push_intermediate : Option Element → PathBuf → Layers → Layers
push_intermediate none curr_path rest = rest
push_intermediate (some (dir hm)) curr_path rest = rest
push_intermediate (some (file intermediate)) curr_path rest =
    (curr_path ++ normal "pkg.toml" ∷ [], intermediate) ∷ rest

-- `curr_path.join(elem.dir_name().unwrap())`
abbrev pub join_dir : PathComponent → PathBuf → Result FsError PathBuf
join_dir pkg_toml curr_path = err unwrapped
join_dir (dir_name d) curr_path = ok (curr_path ++ normal d ∷ [])

abbrev pub match_layer :
    PathComponent
    → PathBuf
    → Elements
    → Option Element
    → (PathBuf → Elements → Result FsError Layers)
    → Result FsError Layers
match_layer elem curr_path curr none onward = err (not_loaded elem)
match_layer elem curr_path curr (some (file cont)) onward = do
  rest ← onward curr_path curr
  ok ((curr_path ++ normal "pkg.toml" ∷ [], cont) ∷ rest)
match_layer elem curr_path curr (some (dir hm)) onward = do
  next_path ← join_dir elem curr_path
  rest ← onward next_path hm
  ok (push_intermediate (get_element pkg_toml curr) curr_path rest)

-- The loop of `get_files_for`: what it pushes from here on
unfoldable pub layers_from : PathBuf → PathBuf → Elements → Result FsError Layers
layers_from [] curr_path curr = ok []
layers_from (c ∷ path) curr_path curr = do
  elem ← map_err unexpected_component (try_from c)
  match_layer elem curr_path curr (get_element elem curr) (layers_from path)

unfoldable pub get_files_for : FileSystemRepresentation → PathBuf → Result FsError Layers
unfolding layers_from
get_files_for fsr path = do
  relative ← strip_prefix path fsr.root
  layers_from relative fsr.root fsr.elements
