-- ===== src/Repository/Representation/Layering.antt =====
-- The layers that `get_files_for` collects (src/repository/fs/representation.rs).
use butido.Prelude.{
  ◌≡◌, refl, sym, ◌∙◌, ap, subst, inl, inr, String, Option, none, some, List, [], ◌∷◌, ◌++◌, All-In,
  In, ok, Option-cases,
}
use butido.Repository.Paths.{normal, PathBuf, pkg_toml, dir_name}
use butido.Repository.Representation.{
  Element, file, dir, Elements, FileSystemRepresentation, get_element, Layers, push_intermediate,
  layers_from, get_files_for, load,
}
use butido.Repository.Representation.Tree.{content_of, in_directory, file_at, IsTree, get-Fits}
use butido.Repository.Representation.Loading.{toml_path, Plain, try_from_toml, try_from_dir}
use butido.Repository.Representation.Files.{
  Entry, found, strip_prefix-append, Loadable, Loaded, empty, load-Loaded,
}

-- A layer, if there is a file
abbrev pub layer : Option String → PathBuf → Layers → Layers
layer none path rest = rest
layer (some content) path rest = (path ++ normal "pkg.toml" ∷ [], content) ∷ rest

-- The files on the way from a directory down to the last of the names, where `at` has the content
-- of the file in each directory
abbrev pub layers : (List String → Option String) → PathBuf → List String → Layers
layers at path [] = layer (at []) path []
layers at path (d ∷ ds) =
    layer (at []) path (layers (λ names. at (d ∷ names)) (path ++ normal d ∷ []) ds)

push-layer :
    (o : Option Element) (path : PathBuf) (rest : Layers)
    → push_intermediate o path rest ≡ layer (content_of o) path rest
push-layer none path rest = refl
push-layer (some (file content)) path rest = refl
push-layer (some (dir hm)) path rest = refl

layers_from-layers :
    (dirs : List String) (path : PathBuf) (hm : Elements) {c : String}
    → Plain dirs
    → IsTree hm
    → file_at dirs hm ≡ some c
    → layers_from (toml_path dirs) path hm ≡ ok (layers (λ names. file_at names hm) path dirs)
unfolding layers_from
layers_from-layers [] path hm plain t at = elim (Option-cases (get_element pkg_toml hm)) [
  | inl missing ↦ let no_file = ap content_of missing in absurd (cc)
  | inr (e, here') ↦
      let (content, same) = get-Fits pkg_toml t here' in
      let held : get_element pkg_toml hm ≡ some (file content) =
        here' ∙ ap (λ (x : Element). some x) same in
      rw (try_from_toml, held) refl
]
layers_from-layers (d ∷ dirs) path hm (other, plain) t at =
    elim (Option-cases (get_element (dir_name d) hm)) [
      | inl missing ↦
          let no_file = ap (λ (o : Option Element). in_directory o (file_at dirs)) missing in
          absurd (cc)
      | inr (e, held) ↦
          let (sub, same, s, _) = get-Fits (dir_name d) t held in
          let held' : get_element (dir_name d) hm ≡ some (dir sub) =
            held ∙ ap (λ (x : Element). some x) same in
          let into =
            λ (ds : List String). ap (λ (o : Option Element). in_directory o (file_at ds)) held' in
          let next = path ++ normal d ∷ [] in
          let rest = layers_from-layers dirs next sub plain s (sym (into dirs) ∙ at) in
          rw (try_from_dir d other, held', rest)
            (ap (λ (l : Layers). ok l) (push-layer (get_element pkg_toml hm) path _))
    ]

-- After loading, if no directory is named `pkg.toml`, `get_files_for` of a file that was found returns
-- the files in the directories from the root down to that of the file, in this order, where a
-- directory without a file is left out.
pub get_files_for-layers :
    (root : PathBuf) (es : List Entry) {fsr : FileSystemRepresentation}
    → Loadable es
    → load root (found root es) ≡ ok fsr
    → (e : Entry) → In e es
    → get_files_for fsr (root ++ toml_path e.0)
      ≡ ok (layers (λ names. file_at names fsr.elements) root e.0)
unfolding get_files_for
get_files_for-layers root es {fsr} plain h e m =
    let (fsr', h', l') = load-Loaded root es plain in
    let same : fsr' ≡ fsr = cc in
    let l = subst (λ (f : FileSystemRepresentation). Loaded es (empty root) f) same l' in
    let (c, at) = l.elements.has e m in
    let found' =
      layers_from-layers e.0 root fsr.elements (All-In (λ (x : Entry). Plain x.0) es plain m)
        l.elements.tree at in
    rw (l.root, strip_prefix-append root (toml_path e.0)) found'
