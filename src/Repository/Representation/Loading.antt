-- ===== src/Repository/Representation/Loading.antt =====
-- What `load` makes of the files that the walk finds (src/repository/fs/representation.rs).
use butido.Prelude.{
  ◌≡◌, refl, ◌∙◌, ap, inl, inr, String, false, Option, none, some, List, [], ◌∷◌, All, ok,
  Bool-cases, Option-cases, ◌==◌, string_eq,
}
use butido.Repository.Paths.{normal, PathBuf, pkg_toml, dir_name, try_from}
use butido.Repository.Representation.{
  Element, file, dir, Elements, no_elements, component_eq, get_element, or_insert, insert_path,
}
use butido.Repository.Representation.Tree.{
  content_of, in_directory, file_at, IsTree, nothing, toml, directory, set, replace-or_insert,
  or_else, get-or_insert, get_other-or_insert, get-set, get_other-set, get-Fits,
}

-- The path of the file in the directory with these names
abbrev pub toml_path : List String → PathBuf
toml_path [] = normal "pkg.toml" ∷ []
toml_path (d ∷ ds) = normal d ∷ toml_path ds

-- No directory has the name of the files.
abbrev pub Plain : List String → Type 0
Plain ds = All (λ d. ¬ (d ≡ "pkg.toml")) ds

pub try_from_toml : try_from (normal "pkg.toml") ≡ ok pkg_toml
unfolding try_from
try_from_toml = refl

pub try_from_dir : (d : String) → ¬ (d ≡ "pkg.toml") → try_from (normal d) ≡ ok (dir_name d)
unfolding try_from
try_from_dir d different = elim (Bool-cases (d == "pkg.toml")) [
  | inl same ↦ absurd (different ((string_eq.beq_iff d "pkg.toml").0 same))
  | inr other ↦ rw other refl
]

dir_ne_toml : (d : String) → ¬ (dir_name d ≡ pkg_toml)
dir_ne_toml d h = absurd (cc)

toml_ne_dir : (d : String) → ¬ (pkg_toml ≡ dir_name d)
toml_ne_dir d h = absurd (cc)

IsTree-set :
    (d : String) {sub hm : Elements} (ds : List String) (content : String)
    → IsTree hm
    → IsTree sub
    → file_at ds sub ≡ some content
    → IsTree (set (dir_name d) (dir sub) hm)
IsTree-set d ds content nothing s at = directory refl s ds content at nothing
IsTree-set d {sub} ds content (toml {rest = rest} once t) s at =
    toml (get_other-set (dir_name d) pkg_toml (dir sub) rest (toml_ne_dir d) ∙ once)
      (IsTree-set d ds content t s at)
IsTree-set d {sub} ds content (directory {d = d'} {rest = rest} once s' ds' content' at' t) s at =
    elim (Bool-cases (d' == d)) [
      | inl same ↦ rw same (directory once s ds content at t)
      | inr other ↦ rw other (
          directory
            (get_other-set (dir_name d) (dir_name d') (dir sub) rest (names_differ other) ∙ once) s'
            ds' content' at' (IsTree-set d ds content t s at))
    ]
  where
    names_differ : {d' : String} → (d' == d) ≡ false → ¬ (dir_name d' ≡ dir_name d)
    names_differ {d'} other h = let e : d' ≡ d = cc in absurd (cc ((string_eq.beq_iff d' d).1 e))

IsTree-or_insert :
    (content : String) {hm : Elements} → IsTree hm → IsTree (or_insert pkg_toml (file content) hm)
IsTree-or_insert content nothing = toml refl nothing
IsTree-or_insert content (toml once t) = toml once t
IsTree-or_insert content (directory {d = d} {rest = rest} once s ds c at t) =
    directory (get_other-or_insert pkg_toml (dir_name d) (file content) rest (dir_ne_toml d) ∙ once)
      s ds c at (IsTree-or_insert content t)

abbrev pub or_content : Option String → String → String
or_content none content = content
or_content (some old) content = old

-- One more file in a tree; a file that was there stays.
pub record Inserted (dirs : List String) (content : String) (hm hm' : Elements) : Type 0 where
  pub tree : IsTree hm'
  pub same : file_at dirs hm' ≡ some (or_content (file_at dirs hm) content)
  pub others : (ds : List String) → ¬ (ds ≡ dirs) → file_at ds hm' ≡ file_at ds hm

-- The subtree into which the loop steps
stepped :
    (d : String) (hm : Elements)
    → IsTree hm
    → (sub : Elements) × (or_else (get_element (dir_name d) hm) (dir no_elements) ≡ dir sub)
      × IsTree sub
      × ((ds : List String) → file_at ds sub ≡ file_at (d ∷ ds) hm)
stepped d hm t = elim (Option-cases (get_element (dir_name d) hm)) [
  | inl new ↦ (no_elements, rw new refl, nothing, λ ds. rw new (none_at ds))
  | inr (e, old) ↦
      let (sub, same, s, _) = get-Fits (dir_name d) t old in
      (sub, rw (old, same) refl, s, λ ds. rw (old, same) refl)
]
  where
    none_at : (ds : List String) → file_at ds no_elements ≡ none
    none_at [] = refl
    none_at (x ∷ ds) = refl

or_content-content_of :
    (content : String) (hm : Elements)
    → IsTree hm
    → content_of (some (or_else (get_element pkg_toml hm) (file content)))
      ≡ some (or_content (content_of (get_element pkg_toml hm)) content)
or_content-content_of content hm t = elim (Option-cases (get_element pkg_toml hm)) [
  | inl new ↦ rw new refl
  | inr (e, old) ↦ let (c, same) = get-Fits pkg_toml t old in rw (old, same) refl
]

pub insert_path-Inserted :
    (content : String) (dirs : List String) (hm : Elements)
    → Plain dirs
    → IsTree hm
    → (hm' : Elements) × (insert_path (ok content) (toml_path dirs) hm ≡ ok hm')
      × Inserted dirs content hm hm'
unfolding insert_path
insert_path-Inserted content [] hm plain t = (
  or_insert pkg_toml (file content) hm,
  rw try_from_toml refl,
  record {
    tree = IsTree-or_insert content t;
    same =
        ap content_of (get-or_insert pkg_toml (file content) hm)
        ∙ or_content-content_of content hm t;
    others = λ ds different. elsewhere ds different;
  },
)
  where
    elsewhere :
        (ds : List String)
        → ¬ (ds ≡ [])
        → file_at ds (or_insert pkg_toml (file content) hm) ≡ file_at ds hm
    elsewhere [] different = absurd (different refl)
    elsewhere (d ∷ ds) different =
        ap (λ (o : Option Element). in_directory o (file_at ds))
          (get_other-or_insert pkg_toml (dir_name d) (file content) hm (dir_ne_toml d))
insert_path-Inserted content (d ∷ dirs) hm (other, plain) t =
    let (sub, e, s, below) = stepped d hm t in
    let (sub', rest, ins) = insert_path-Inserted content dirs sub plain s in
    (
      set (dir_name d) (dir sub') hm,
      rw
          (
            try_from_dir d other,
            get-or_insert (dir_name d) (dir no_elements) hm,
            e,
            rest,
            replace-or_insert (dir_name d) (dir sub') (dir no_elements) hm,
          )
          refl,
      record {
        tree = IsTree-set d dirs _ t ins.tree ins.same;
        same = rw (get-set (dir_name d) (dir sub') hm) (rw (ins.same, below dirs) refl);
        others = λ ds different. elsewhere sub sub' below ins.others ds different;
      },
    )
  where
    elsewhere :
        (sub sub' : Elements)
        → ((ds : List String) → file_at ds sub ≡ file_at (d ∷ ds) hm)
        → ((ds : List String) → ¬ (ds ≡ dirs) → file_at ds sub' ≡ file_at ds sub)
        → (ds : List String) → ¬ (ds ≡ d ∷ dirs)
        → file_at ds (set (dir_name d) (dir sub') hm) ≡ file_at ds hm
    elsewhere sub sub' below others [] different =
        ap content_of (get_other-set (dir_name d) pkg_toml (dir sub') hm (toml_ne_dir d))
    elsewhere sub sub' below others (x ∷ ds) different = elim (Bool-cases (x == d)) [
      | inl same ↦
          let e : x ≡ d = (string_eq.beq_iff x d).0 same in
          rw (e, get-set (dir_name d) (dir sub') hm)
            (others ds (λ q.
                different (ap (λ (l : List String). x ∷ l) q ∙ ap (λ (y : String). y ∷ dirs) e))
              ∙ below ds)
      | inr other ↦
          ap (λ (o : Option Element). in_directory o (file_at ds))
            (get_other-set (dir_name d) (dir_name x) (dir sub') hm
              (λ h. let e : x ≡ d = cc in absurd (cc ((string_eq.beq_iff x d).1 e))))
    ]
