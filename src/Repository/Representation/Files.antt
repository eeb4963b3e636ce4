-- ===== src/Repository/Representation/Files.antt =====
-- The files of a loaded repository (src/repository/fs/representation.rs).
use butido.Prelude.{
  ◌≡◌, refl, sym, ◌∙◌, ap, ◌⊎◌, inl, inr, String, true, Option, some, List, [], ◌∷◌, ◌++◌, map, All,
  In, here, there, not-In-nil, Result, ok, Bool-cases, Option-cases, ◌==◌, string_eq, eq_refl,
}
use butido.Repository.Paths.{
  Component, prefix_drive, root_dir, cur_dir, parent_dir, normal, PathBuf,
}
use butido.Repository.Representation.{
  Elements, no_elements, FsError, FileSystemRepresentation, component_same, strip_prefix, add_file,
  add_files, load,
}
use butido.Repository.Representation.Tree.{file_at, IsTree, nothing}
use butido.Repository.Representation.Loading.{
  toml_path, Plain, or_content, Inserted, insert_path-Inserted,
}

-- The directory of a file, and its content
abbrev pub Entry : Type 0
Entry = List String × String

-- The files as the walk over the repository finds them
abbrev pub found : PathBuf → List Entry → List (PathBuf × Result FsError String)
found root [] = []
found root ((ds, content) ∷ es) = (root ++ toml_path ds, ok content) ∷ found root es

same_component : (c : Component) → component_same c c ≡ true
same_component prefix_drive = refl
same_component root_dir = refl
same_component cur_dir = refl
same_component parent_dir = refl
same_component (normal a) = eq_refl a

pub strip_prefix-append : (root path : PathBuf) → strip_prefix (root ++ path) root ≡ ok path
strip_prefix-append [] path = refl
strip_prefix-append (c ∷ root) path = rw (same_component c, strip_prefix-append root path) refl

same_or_not : (a b : List String) → (a ≡ b) ⊎ ¬ (a ≡ b)
same_or_not [] [] = inl refl
same_or_not [] (y ∷ b) = inr (λ h. absurd (cc))
same_or_not (x ∷ a) [] = inr (λ h. absurd (cc))
same_or_not (x ∷ a) (y ∷ b) = elim (Bool-cases (x == y)) [
  | inr other ↦ inr (λ h. let e : x ≡ y = cc in absurd (cc ((string_eq.beq_iff x y).1 e)))
  | inl same ↦ elim (same_or_not a b) [
    | inr other ↦ inr (λ h. other (cc))
    | inl rest ↦ let e : x ≡ y = (string_eq.beq_iff x y).0 same in inl (cc)
  ]
]

-- A tree with more files: those that were there, and those of the entries.
pub record Extended (es : List Entry) (hm hm' : Elements) : Type 0 where
  pub tree : IsTree hm'
  pub old : (ds : List String) (c : String) → file_at ds hm ≡ some c → file_at ds hm' ≡ some c
  pub has : (e : Entry) → In e es → (c : String) × (file_at e.0 hm' ≡ some c)
  pub only :
      (ds : List String) (c : String)
      → file_at ds hm' ≡ some c
      → (file_at ds hm ≡ some c) ⊎ In (ds, c) es

old_in :
    (dirs : List String) (content : String) {hm hm' : Elements}
    → Inserted dirs content hm hm'
    → (ds : List String) (c : String) → file_at ds hm ≡ some c
    → file_at ds hm' ≡ some c
old_in dirs content {hm} {hm'} ins ds c at = elim (same_or_not ds dirs) [
  | inr other ↦ ins.others ds other ∙ at
  | inl same ↦
      let at' : file_at dirs hm ≡ some c = ap (λ (l : List String). file_at l hm) (sym same) ∙ at in
      ap (λ (l : List String). file_at l hm') same
      ∙ ins.same
      ∙ ap (λ (o : Option String). some (or_content o content)) at'
]

only_in :
    (dirs : List String) (content : String) {hm hm' : Elements}
    → Inserted dirs content hm hm'
    → (ds : List String) (c : String) → file_at ds hm' ≡ some c
    → (file_at ds hm ≡ some c) ⊎ (◌≡◌ {A = Entry} (dirs, content) (ds, c))
only_in dirs content {hm} {hm'} ins ds c at = elim (same_or_not ds dirs) [
  | inr other ↦ inl (sym (ins.others ds other) ∙ at)
  | inl same ↦
      let at' : some (or_content (file_at dirs hm) content) ≡ some c =
        sym ins.same ∙ ap (λ (l : List String). file_at l hm') (sym same) ∙ at in
      elim (Option-cases (file_at dirs hm)) [
        | inl new ↦
            let at'' : some content ≡ some c =
              ap (λ (o : Option String). some (or_content o content)) (sym new) ∙ at' in
            let e : content ≡ c = cc in inr (cc)
        | inr (c', there') ↦
            let at'' : some c' ≡ some c =
              ap (λ (o : Option String). some (or_content o content)) (sym there') ∙ at' in
            inl (ap (λ (l : List String). file_at l hm) same ∙ there' ∙ at'')
      ]
]

abbrev pub Loadable : List Entry → Type 0
Loadable es = All (λ e. Plain e.0) es

abbrev pub paths : PathBuf → List Entry → List PathBuf
paths root es = map (λ e. root ++ toml_path e.0) es

append_one :
    (xs : List PathBuf) (x : PathBuf) (ys : List PathBuf) → (xs ++ x ∷ []) ++ ys ≡ xs ++ x ∷ ys
append_one [] x ys = refl
append_one (y ∷ xs) x ys = ap (λ (l : List PathBuf). y ∷ l) (append_one xs x ys)

append_none : (xs : List PathBuf) → xs ++ [] ≡ xs
append_none [] = refl
append_none (y ∷ xs) = ap (λ (l : List PathBuf). y ∷ l) (append_none xs)

Extended-step :
    (ds : List String) (content : String) (es : List Entry) {hm mid hm' : Elements}
    → Inserted ds content hm mid
    → Extended es mid hm'
    → Extended ((ds, content) ∷ es) hm hm'
Extended-step ds content es {hm} {mid} {hm'} ins ext = record {
  tree = ext.tree;
  old = λ d c at. ext.old d c (old_in ds content ins d c at);
  has = λ e m. has' e m;
  only = λ d c at. elim (ext.only d c at) [
    | inr m ↦ inr (there m)
    | inl at' ↦ elim (only_in ds content ins d c at') [ inl o ↦ inl o | inr n ↦ inr (here n) ]
  ];
}
  where
    has' : (e : Entry) → In e ((ds, content) ∷ es) → (c : String) × (file_at e.0 hm' ≡ some c)
    has' e (here h) = (
      or_content (file_at ds hm) content,
      ap (λ (x : Entry). file_at x.0 hm') (sym h) ∙ ext.old ds _ ins.same,
    )
    has' e (there m) = ext.has e m

-- The representation after some more files
pub record Loaded (es : List Entry) (fsr fsr' : FileSystemRepresentation) : Type 0 where
  pub root : fsr'.root ≡ fsr.root
  pub files : fsr'.files ≡ fsr.files ++ paths fsr.root es
  pub elements : Extended es fsr.elements fsr'.elements

add_files-Loaded :
    (es : List Entry) (fsr : FileSystemRepresentation)
    → Loadable es
    → IsTree fsr.elements
    → (fsr' : FileSystemRepresentation) × (add_files (found fsr.root es) fsr ≡ ok fsr')
      × Loaded es fsr fsr'
unfolding add_files add_file
add_files-Loaded [] fsr plain t = (
  fsr,
  refl,
  record {
    root = refl;
    files = sym (append_none fsr.files);
    elements = record {
      tree = t;
      old = λ ds c at. at;
      has = λ e m. absurd (not-In-nil m);
      only = λ ds c at. inl at;
    };
  },
)
add_files-Loaded ((ds, content) ∷ es) fsr (one, plain) t =
    let (mid, e, ins) = insert_path-Inserted content ds fsr.elements one t in
    let next : FileSystemRepresentation = record {
      root = fsr.root;
      files = fsr.files ++ (fsr.root ++ toml_path ds) ∷ [];
      elements = mid;
    } in
    let (fsr', rest, l) = add_files-Loaded es next plain ins.tree in
    (
      fsr',
      rw (strip_prefix-append fsr.root (toml_path ds), e) rest,
      record {
        root = l.root;
        files = l.files ∙ append_one fsr.files (fsr.root ++ toml_path ds) (paths fsr.root es);
        elements = Extended-step ds content es ins l.elements;
      },
    )

abbrev pub empty : PathBuf → FileSystemRepresentation
empty root = record { root = root; files = []; elements = no_elements }

-- If every file that is found can be read and no directory is named `pkg.toml`, loading succeeds:
-- the file list is the one that the walk found, every file found is in the tree, and the tree has no
-- other file or content.
pub load-Loaded :
    (root : PathBuf) (es : List Entry)
    → Loadable es
    → (fsr : FileSystemRepresentation) × (load root (found root es) ≡ ok fsr)
      × Loaded es (empty root) fsr
unfolding load
load-Loaded root es plain = add_files-Loaded es (empty root) plain nothing
