-- ===== src/Repository/Paths/Normal.antt =====
-- Where normalized paths lead (src/repository/repository.rs).
use butido.Prelude.{
  ◌≡◌, refl, sym, ◌∙◌, ap, subst, inl, inr, [], ◌∷◌, ◌++◌, ok, err, ◌>>=◌, >>=-eq-ok, >>=-eq-err,
}
use butido.Repository.Paths.{
  Component, prefix_drive, root_dir, cur_dir, parent_dir, normal, PathBuf, PathError,
  starts_with_prefix, starts_from_root, escapes_base, Names, normalize_component, normalize_from,
  in_order, or_current, normalize_relative_path,
}

-- The directory that a path leads to from a directory; directories are the names of their path,
-- the last one first, and the parent of the root is the root.
abbrev pub parent : Names → Names
parent [] = []
parent (name ∷ names) = names

abbrev pub enter : Component → Names → Names
enter prefix_drive dir = dir
enter root_dir dir = []
enter cur_dir dir = dir
enter parent_dir dir = parent dir
enter (normal name) dir = name ∷ dir

abbrev pub walk : PathBuf → Names → Names
walk [] dir = dir
walk (c ∷ path) dir = walk path (enter c dir)

walk-append : (p q : PathBuf) (dir : Names) → walk (p ++ q) dir ≡ walk q (walk p dir)
walk-append [] q dir = refl
walk-append (c ∷ p) q dir = walk-append p q (enter c dir)

-- A step of the loop does on the names below a directory what the component does.
step :
    (c : Component) (names : Names) {names' : Names}
    → normalize_component c names ≡ ok names'
    → (base : Names) → enter c (names ++ base) ≡ names' ++ base
step prefix_drive names h base = absurd (cc)
step root_dir names h base = absurd (cc)
step cur_dir names {names'} h base = let e : names ≡ names' = cc in ap (λ (n : Names). n ++ base) e
step parent_dir [] h base = absurd (cc)
step parent_dir (name ∷ names) {names'} h base =
    let e : names ≡ names' = cc in ap (λ (n : Names). n ++ base) e
step (normal name) names {names'} h base =
    let e : name ∷ names ≡ names' = cc in ap (λ (n : Names). n ++ base) e

from-walk :
    (path : PathBuf) (names : Names) {result : Names}
    → normalize_from path names ≡ ok result
    → (base : Names) → walk path (names ++ base) ≡ result ++ base
unfolding normalize_from
from-walk [] names {result} h base = let e : names ≡ result = cc in ap (λ (n : Names). n ++ base) e
from-walk (c ∷ path) names h base =
    let (names', first, rest) = >>=-eq-ok (normalize_component c names) (normalize_from path) h in
    ap (walk path) (step c names first base) ∙ from-walk path names' rest base

walk-in_order :
    (names : Names) (path : PathBuf) (base : Names)
    → walk (in_order names path) base ≡ walk path (names ++ base)
walk-in_order [] path base = refl
walk-in_order (name ∷ names) path base = walk-in_order names (normal name ∷ path) base

walk-or_current : (names base : Names) → walk (or_current names) base ≡ names ++ base
walk-or_current [] base = refl
walk-or_current (name ∷ names) base = walk-in_order (name ∷ names) [] base

-- If a path is normalized, the result leads from every directory to where the path leads, and that
-- is below the directory.
pub normalize_relative_path-walk :
    (path : PathBuf) {result : PathBuf}
    → normalize_relative_path path ≡ ok result
    → (base : Names)
    → (walk result base ≡ walk path base) × ((below : Names) × (walk path base ≡ below ++ base))
unfolding normalize_relative_path
normalize_relative_path-walk path {result} h base =
    let (names, first, last) = >>=-eq-ok (normalize_from path []) (λ n. ok (or_current n)) h in
    let there' = from-walk path [] first base in
    let e : or_current names ≡ result = cc in
    (
      ap (λ (p : PathBuf). walk p base) (sym e) ∙ walk-or_current names base ∙ sym there',
      (names, there'),
    )

-- Why a path is refused: a part of it leads out of the directory, or it is not relative.
pub data Refused (names : Names) (path : PathBuf) : PathError → Type 0 where
  out :
      (front rest : PathBuf)
      → front ++ parent_dir ∷ rest ≡ path
      → ((base : Names) → walk front (names ++ base) ≡ base)
      → Refused names path escapes_base
  windows :
      (front rest : PathBuf)
      → front ++ prefix_drive ∷ rest ≡ path
      → Refused names path starts_with_prefix
  absolute :
      (front rest : PathBuf) → front ++ root_dir ∷ rest ≡ path → Refused names path starts_from_root

later :
    (c : Component) {names names' : Names} {path : PathBuf} {e : PathError}
    → ((base : Names) → enter c (names ++ base) ≡ names' ++ base)
    → Refused names' path e
    → Refused names (c ∷ path) e
later c s (out front rest whole leads) =
    out (c ∷ front) rest (ap (λ (p : PathBuf). c ∷ p) whole)
      (λ base. ap (walk front) (s base) ∙ leads base)
later c s (windows front rest whole) = windows (c ∷ front) rest (ap (λ (p : PathBuf). c ∷ p) whole)
later c s (absolute front rest whole) =
    absolute (c ∷ front) rest (ap (λ (p : PathBuf). c ∷ p) whole)

at_once :
    (c : Component) (names : Names) (path : PathBuf) {e : PathError}
    → normalize_component c names ≡ err e
    → Refused names (c ∷ path) e
at_once prefix_drive names path h =
    subst (Refused names (prefix_drive ∷ path)) (cc) (windows [] path refl)
at_once root_dir names path h = subst (Refused names (root_dir ∷ path)) (cc) (absolute [] path refl)
at_once cur_dir names path h = absurd (cc)
at_once parent_dir [] path h =
    subst (Refused [] (parent_dir ∷ path)) (cc) (out [] path refl (λ base. refl))
at_once parent_dir (name ∷ names) path h = absurd (cc)
at_once (normal name) names path h = absurd (cc)

from-Refused :
    (path : PathBuf) (names : Names) {e : PathError}
    → normalize_from path names ≡ err e
    → Refused names path e
unfolding normalize_from
from-Refused [] names h = absurd (cc)
from-Refused (c ∷ path) names h =
    elim (>>=-eq-err (normalize_component c names) (normalize_from path) h) [
      | inl first ↦ at_once c names path first
      | inr (names', first, rest) ↦ later c (step c names first) (from-Refused path names' rest)
    ]

-- If a path is refused, it has a prefix or a root component, or a part of it leads back to the
-- directory from which it starts, whichever that is, and goes on to the parent directory.
pub normalize_relative_path-Refused :
    (path : PathBuf) {e : PathError} → normalize_relative_path path ≡ err e → Refused [] path e
unfolding normalize_relative_path
normalize_relative_path-Refused path {e} h =
    elim (>>=-eq-err (normalize_from path []) (λ n. ok (or_current n)) h) [
      | inl first ↦ from-Refused path [] first
      | inr (names, first, last) ↦ absurd (cc)
    ]

from-in_order :
    (names : Names) (path : PathBuf) (front : Names)
    → normalize_from (in_order names path) front ≡ normalize_from path (names ++ front)
unfolding normalize_from
from-in_order [] path front = refl
from-in_order (name ∷ names) path front = from-in_order names (normal name ∷ path) front

append_nil : (names : Names) → names ++ [] ≡ names
append_nil [] = refl
append_nil (name ∷ names) = ap (λ (n : Names). name ∷ n) (append_nil names)

-- A normalized path is its own normal form.
pub normalize_relative_path_twice :
    (path : PathBuf) {result : PathBuf}
    → normalize_relative_path path ≡ ok result
    → normalize_relative_path result ≡ ok result
unfolding normalize_relative_path normalize_from
normalize_relative_path_twice path {result} h =
    let (names, first, last) = >>=-eq-ok (normalize_from path []) (λ n. ok (or_current n)) h in
    let e : or_current names ≡ result = cc in
    subst (λ (p : PathBuf). normalize_relative_path p ≡ ok p) e (again names)
  where
    again :
        (names : Names)
        → (normalize_from (or_current names) [] >>= λ n. ok (or_current n)) ≡ ok (or_current names)
    again [] = refl
    again (name ∷ names) =
        let there' : normalize_from (in_order (name ∷ names) []) [] ≡ ok (name ∷ names) =
          from-in_order (name ∷ names) [] []
          ∙ ap (λ (n : Names). ok n) (append_nil (name ∷ names)) in
        rw there' refl
