-- ===== src/Repository/Representation/Tree.antt =====
-- The trees that loading makes, and the files in them (src/repository/fs/representation.rs).
use butido.Prelude.{
  ◌≡◌, refl, sym, ◌∙◌, inl, inr, String, Option, none, some, List, [], ◌∷◌, arith, Bool-cases, ◌==◌,
  nat_eq, string_eq, eq_refl, if◌then◌else◌,
}
use butido.Repository.Paths.{PathComponent, pkg_toml, dir_name}
use butido.Repository.Representation.{
  Element, file, dir, Elements, no_elements, entry, component_beq_iff, component_eq, get_element,
  or_insert, replace,
}

-- The content of the `pkg.toml` in the directory with these names
abbrev pub content_of : Option Element → Option String
content_of (some (file content)) = some content
content_of _ = none

abbrev pub in_directory : Option Element → (Elements → Option String) → Option String
in_directory (some (dir sub)) f = f sub
in_directory _ f = none

abbrev pub file_at : List String → Elements → Option String
file_at [] hm = content_of (get_element pkg_toml hm)
file_at (d ∷ ds) hm = in_directory (get_element (dir_name d) hm) (file_at ds)

-- Files stand under `pkg.toml`, directories under their names; no key is there twice, and every
-- directory has a file in it or below it.
pub data IsTree : Elements → Type 0 where
  nothing : IsTree no_elements
  toml :
      {content : String} {rest : Elements}
      → get_element pkg_toml rest ≡ none
      → IsTree rest
      → IsTree (entry pkg_toml (file content) rest)
  directory :
      {d : String} {sub rest : Elements}
      → get_element (dir_name d) rest ≡ none
      → IsTree sub
      → (ds : List String) → (content : String) → file_at ds sub ≡ some content
      → IsTree rest
      → IsTree (entry (dir_name d) (dir sub) rest)

-- `replace` after `or_insert`
abbrev pub set : PathComponent → Element → Elements → Elements
set k e no_elements = entry k e no_elements
set k e (entry j old rest) = if j == k then entry j e rest else entry j old (set k e rest)

pub replace-or_insert :
    (k : PathComponent) (e fresh : Element) (hm : Elements)
    → replace k e (or_insert k fresh hm) ≡ set k e hm
replace-or_insert k e fresh no_elements = rw (eq_refl k) refl
replace-or_insert k e fresh (entry j old rest) = elim (Bool-cases (j == k)) [
  | inl same ↦ rw (same, same) refl
  | inr other ↦ rw (other, other, replace-or_insert k e fresh rest) refl
]

abbrev pub or_else : Option Element → Element → Element
or_else none e = e
or_else (some old) e = old

pub get-or_insert :
    (k : PathComponent) (e : Element) (hm : Elements)
    → get_element k (or_insert k e hm) ≡ some (or_else (get_element k hm) e)
get-or_insert k e no_elements = rw (eq_refl k) refl
get-or_insert k e (entry j old rest) = elim (Bool-cases (j == k)) [
  | inl same ↦ rw (same, same) refl
  | inr other ↦ rw (other, other, get-or_insert k e rest) refl
]

pub get_other-or_insert :
    (k j : PathComponent) (e : Element) (hm : Elements)
    → ¬ (j ≡ k)
    → get_element j (or_insert k e hm) ≡ get_element j hm
get_other-or_insert k j e no_elements different =
    ground (arith, component_beq_iff k j, λ (h : k ≡ j). different (sym h))
get_other-or_insert k j e (entry i old rest) different = elim (Bool-cases (i == k)) [
  | inl same ↦ rw same refl
  | inr other ↦ rw other (ground (arith, get_other-or_insert k j e rest different))
]

pub get-set :
    (k : PathComponent) (e : Element) (hm : Elements) → get_element k (set k e hm) ≡ some e
get-set k e no_elements = rw (eq_refl k) refl
get-set k e (entry j old rest) = elim (Bool-cases (j == k)) [
  | inl same ↦ rw (same, same) refl
  | inr other ↦ rw (other, other, get-set k e rest) refl
]

pub get_other-set :
    (k j : PathComponent) (e : Element) (hm : Elements)
    → ¬ (j ≡ k)
    → get_element j (set k e hm) ≡ get_element j hm
get_other-set k j e no_elements different =
    ground (arith, component_beq_iff k j, λ (h : k ≡ j). different (sym h))
get_other-set k j e (entry i old rest) different = elim (Bool-cases (i == k)) [
  | inl same ↦ rw same (
      ground (
        arith,
        component_beq_iff i k,
        component_beq_iff i j,
        λ (h : i ≡ j) (h' : i ≡ k). different (sym h ∙ h'),
      ))
  | inr other ↦ rw other (ground (arith, get_other-set k j e rest different))
]

-- What a tree has under a key
abbrev pub Fits : PathComponent → Element → Type 0
Fits pkg_toml e = (content : String) × (e ≡ file content)
Fits (dir_name d) e =
    (sub : Elements) × (e ≡ dir sub)
    × IsTree sub
    × ((ds : List String) × (content : String) × (file_at ds sub ≡ some content))

pub get-Fits :
    (k : PathComponent) {e : Element} {hm : Elements}
    → IsTree hm
    → get_element k hm ≡ some e
    → Fits k e
get-Fits k nothing h = absurd (cc)
get-Fits pkg_toml (toml {content = content} once t) h = (content, cc)
get-Fits pkg_toml (directory once s ds content at t) h = get-Fits pkg_toml t h
get-Fits (dir_name d) (toml once t) h = get-Fits (dir_name d) t h
get-Fits (dir_name d) (directory {d = d'} {sub = sub} once s ds content at t) h =
    elim (Bool-cases (d' == d)) [
      | inl same ↦ (sub, ground (arith, same), s, (ds, content, at))
      | inr other ↦ get-Fits (dir_name d) t (rw other at h)
    ]
