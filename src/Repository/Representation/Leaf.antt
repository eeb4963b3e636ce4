-- ===== src/Repository/Representation/Leaf.antt =====
-- Which files `is_leaf_file` calls leaves (src/repository/fs/representation.rs).
use butido.Prelude.{
  ◌≡◌, refl, sym, ◌∙◌, ap, subst, ◌↔◌, inl, inr, String, Bool, true, false, not, ◌||◌, Option, none,
  some, List, [], ◌∷◌, ◌++◌, arith, All-In, In, ok, Bool-cases, Option-cases, ◌==◌, nat_eq,
  string_eq, eq_refl,
}
use butido.Repository.Paths.{PathBuf, PathComponent, pkg_toml, dir_name}
use butido.Repository.Representation.{
  Element, dir, Elements, no_elements, entry, FileSystemRepresentation, component_eq, get_element,
  count_values, contains_pkg_toml, toml_files_in_tree, leaf_from, is_leaf_file, load,
}
use butido.Repository.Representation.Tree.{
  content_of, in_directory, file_at, IsTree, nothing, toml, directory, get-Fits,
}
use butido.Repository.Representation.Loading.{toml_path, Plain, try_from_toml, try_from_dir}
use butido.Repository.Representation.Files.{
  Entry, found, strip_prefix-append, Loadable, Loaded, empty, load-Loaded,
}

contains_of_get :
    {e : Element} (hm : Elements) → get_element pkg_toml hm ≡ some e → contains_pkg_toml hm ≡ true
contains_of_get no_elements h = absurd (cc)
contains_of_get (entry k e' rest) h = elim (Bool-cases (k == pkg_toml)) [
  | inl same ↦ rw same refl
  | inr other ↦ rw other (contains_of_get rest (rw other at h))
]

-- The directories of a tree without a file of its own, one at least
count_zero :
    {hm : Elements}
    → IsTree hm
    → get_element pkg_toml hm ≡ none
    → (count_values hm == 0) ≡ false
    → (d : String) × (ds : List String) × (c : String) × (file_at (d ∷ ds) hm ≡ some c)
count_zero nothing none_here h = absurd (cc)
count_zero (toml once t) none_here h = absurd (cc)
count_zero (directory {d = d} {sub = sub} once s ds c at t) none_here h =
    (d, ds, c, rw (eq_refl d) at)

-- A tree with a file of its own and something else has a file further below.
count_more :
    {hm : Elements} {e : Element}
    → IsTree hm
    → get_element pkg_toml hm ≡ some e
    → (count_values hm == 1) ≡ false
    → (d : String) × (ds : List String) × (c : String) × (file_at (d ∷ ds) hm ≡ some c)
count_more nothing here' h = absurd (cc)
count_more (toml once t) here' h = count_zero t once (ground (arith, h))
count_more (directory {d = d} {sub = sub} once s ds c at t) here' h = (d, ds, c, rw (eq_refl d) at)

count_zero_none :
    (hm : Elements) → (count_values hm == 0) ≡ true → (k : PathComponent) → get_element k hm ≡ none
count_zero_none no_elements h k = refl
count_zero_none (entry j e rest) h k = absurd (ground (arith, h))

count_one_none :
    {e : Element} (hm : Elements)
    → get_element pkg_toml hm ≡ some e
    → (count_values hm == 1) ≡ true
    → (d : String) → get_element (dir_name d) hm ≡ none
count_one_none no_elements here' h d = absurd (cc)
count_one_none (entry pkg_toml x rest) here' h d =
    count_zero_none rest (ground (arith, h)) (dir_name d)
count_one_none (entry (dir_name d') x rest) here' h d =
    absurd (cc (count_zero_none rest (ground (arith, h)) pkg_toml))

-- No file further below a directory
abbrev pub IsLeaf : List String → Elements → Type 0
IsLeaf dirs hm = (d : String) (ds : List String) → file_at (dirs ++ d ∷ ds) hm ≡ none

IsLeaf-here :
    (hm : Elements) {e : Element}
    → IsTree hm
    → get_element pkg_toml hm ≡ some e
    → ((count_values hm == 1 || not (toml_files_in_tree hm)) ≡ true) ↔ IsLeaf [] hm
IsLeaf-here hm t here' = (
  λ h d ds.
      let one : (count_values hm == 1) ≡ true = ground (arith, contains_of_get hm here', h) in
      ap (λ (o : Option Element). in_directory o (file_at ds)) (count_one_none hm here' one d),
  λ leaf. elim (Bool-cases (count_values hm == 1)) [
    | inl one ↦ rw one refl
    | inr more ↦ let (d, ds, c, at) = count_more t here' more in absurd (cc (leaf d ds))
  ],
)

-- What the loop says of a file that is in the tree
leaf_from-IsLeaf :
    (dirs : List String) (hm : Elements) {c : String}
    → Plain dirs
    → IsTree hm
    → file_at dirs hm ≡ some c
    → (b : Bool) × (leaf_from (toml_path dirs) hm ≡ ok b) × ((b ≡ true) ↔ IsLeaf dirs hm)
unfolding leaf_from
leaf_from-IsLeaf [] hm plain t at = elim (Option-cases (get_element pkg_toml hm)) [
  | inl missing ↦ absurd (cc (ap content_of missing))
  | inr (e, here') ↦
      let (c', same) = get-Fits pkg_toml t here' in
      (
        count_values hm == 1 || not (toml_files_in_tree hm),
        rw (try_from_toml, here', same) refl,
        IsLeaf-here hm t here',
      )
]
leaf_from-IsLeaf (d ∷ dirs) hm (other, plain) t at =
    elim (Option-cases (get_element (dir_name d) hm)) [
      | inl missing ↦
          absurd (cc (ap (λ (o : Option Element). in_directory o (file_at dirs)) missing))
      | inr (e, held) ↦
          let (sub, same, s, _) = get-Fits (dir_name d) t held in
          let held' : get_element (dir_name d) hm ≡ some (dir sub) =
            held ∙ ap (λ (x : Element). some x) same in
          let into =
            λ (ds : List String). ap (λ (o : Option Element). in_directory o (file_at ds)) held' in
          let (b, result, iff) = leaf_from-IsLeaf dirs sub plain s (sym (into dirs) ∙ at) in
          (
            b,
            rw (try_from_dir d other, held') result,
            (
              λ h x ds. into (dirs ++ x ∷ ds) ∙ iff.0 h x ds,
              λ leaf. iff.1 (λ x ds. sym (into (dirs ++ x ∷ ds)) ∙ leaf x ds),
            ),
          )
    ]

-- After loading, if no directory is named `pkg.toml`, `is_leaf_file` answers for every file that was
-- found, and says yes exactly when no file was found in a directory further below.
pub is_leaf_file_iff :
    (root : PathBuf) (es : List Entry) {fsr : FileSystemRepresentation}
    → Loadable es
    → load root (found root es) ≡ ok fsr
    → (e : Entry) → In e es
    → (b : Bool) × (is_leaf_file fsr (root ++ toml_path e.0) ≡ ok b)
      × ((b ≡ true) ↔ ((d : String) (ds : List String) (c : String) → ¬ In (e.0 ++ d ∷ ds, c) es))
unfolding is_leaf_file
is_leaf_file_iff root es {fsr} plain h e m =
    let (fsr', h', l') = load-Loaded root es plain in
    let same : fsr' ≡ fsr = cc in
    let l = subst (λ (f : FileSystemRepresentation). Loaded es (empty root) f) same l' in
    let (c, at) = l.elements.has e m in
    let (b, result, iff) =
      leaf_from-IsLeaf e.0 fsr.elements (All-In (λ (x : Entry). Plain x.0) es plain m)
        l.elements.tree at in
    (
      b,
      rw (l.root, strip_prefix-append root (toml_path e.0)) result,
      (
        λ yes d ds c' m'.
            let (c'', at') = l.elements.has (e.0 ++ d ∷ ds, c') m' in absurd (cc (iff.0 yes d ds)),
        λ alone. iff.1 (λ d ds. elim (Option-cases (file_at (e.0 ++ d ∷ ds) fsr.elements)) [
          | inl missing ↦ missing
          | inr (c', at') ↦ elim (l.elements.only (e.0 ++ d ∷ ds) c' at') [
            | inl old ↦ absurd (empty_has_none (e.0 ++ d ∷ ds) old)
            | inr m' ↦ absurd (alone d ds c' m')
          ]
        ]),
      ),
    )
  where
    empty_has_none : (ds : List String) {c : String} → ¬ (file_at ds no_elements ≡ some c)
    empty_has_none [] h = absurd (cc)
    empty_has_none (d ∷ ds) h = absurd (cc)
