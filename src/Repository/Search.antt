-- ===== src/Repository/Search.antt =====
-- The queries of a repository (src/repository/repository.rs).
mod Examples
use butido.Prelude.{
  String, ◌≡◌, refl, ◌∙◌, ap, ◌↔◌, ◌⊎◌, inl, inr, sym, subst, not-In-nil, >>=-eq-ok, Bool, true,
  false, ◌&&◌, Option, none, some, List, [], ◌∷◌, arith, map, filter, In, here, there, In-filter,
  In-filter_intro, In-map, In-map_intro, Result, ok, err, ◌>>=◌, ◌==◌, string_eq, if◌then◌else◌,
}
use butido.Package.Types.{PackageName, PackageVersion, Key, Package}
use butido.Package.Dag.Build.{Repository}

unfoldable pub find_by_name : Repository → PackageName → List Package
find_by_name repo name = map (λ e. e.1) (filter (λ e. name == e.0.0) repo)

-- `inner.values()`
unfoldable pub packages : Repository → List Package
packages repo = map (λ e. e.1) repo

-- `Regex` and `PackageVersionConstraint` with what the search asks of them
pub record Matchers : Type 1 where
  pub Regex : Type 0
  pub Constraint : Type 0
  pub is_match : Regex → String → Bool
  pub matches : Constraint → PackageVersion → Bool

module _ (m : Matchers) where
  open m use {Regex, Constraint, is_match}

  -- `impossible` is the panic of the last arm.
  pub data SearchError : Type 0 where
    name_not_found : PackageName → SearchError
    version_not_found : PackageName → Constraint → SearchError
    regex_not_found : Regex → SearchError
    impossible : SearchError

  -- The closure of `filter`, for the arms that do not panic
  abbrev pub selects :
      Option PackageName → Option Constraint → Option Regex → Package → Result SearchError Bool
  selects none none none p = ok true
  selects (some pname) none none p = ok (p.name == pname)
  selects (some pname) (some vers) none p = ok (p.name == pname && m.matches vers p.version)
  selects none none (some regex) p = ok (is_match regex p.name)
  selects _ _ _ p = err impossible

  abbrev pub keep : Bool → Package → List Package → List Package
  keep true p rest = p ∷ rest
  keep false p rest = rest

  unfoldable pub select :
      (Package → Result SearchError Bool) → List Package → Result SearchError (List Package)
  select test [] = ok []
  select test (p ∷ ps) = do selected ← test p; rest ← select test ps; ok (keep selected p rest)

  -- The `match` when nothing is found
  abbrev pub not_found : Option PackageName → Option Constraint → Option Regex → SearchError
  not_found (some pname) none none = name_not_found pname
  not_found (some pname) (some vers) none = version_not_found pname vers
  not_found none none (some regex) = regex_not_found regex
  not_found _ _ _ = impossible

  abbrev pub if_any : SearchError → List Package → Result SearchError (List Package)
  if_any error [] = err error
  if_any error (p ∷ ps) = ok (p ∷ ps)

  unfoldable pub search_packages :
      Repository
      → Option PackageName
      → Option Constraint
      → Option Regex
      → Result SearchError (List Package)
  unfolding select packages
  search_packages repo pname pvers matching_regexp = do
    found ← select (selects pname pvers matching_regexp) (packages repo)
    if_any (not_found pname pvers matching_regexp) found

  In-keep :
      (b : Bool) (p q : Package) (rest : List Package)
      → In q (keep b p rest) ↔ (((b ≡ true) × (p ≡ q)) ⊎ In q rest)
  In-keep true p q rest = (λ x. first x, λ x. elim x [ inl (_, e) ↦ here e | inr l ↦ there l ])
    where
      first : In q (p ∷ rest) → ((true ≡ true) × (p ≡ q)) ⊎ In q rest
      first (here e) = inl (refl, e)
      first (there l) = inr l
  In-keep false p q rest = (λ x. inr x, λ x. elim x [ inl (t, _) ↦ absurd (cc) | inr l ↦ l ])

  In-select :
      (test : Package → Result SearchError Bool) (ps : List Package) (found : List Package)
      (q : Package)
      → select test ps ≡ ok found
      → In q found ↔ (In q ps × (test q ≡ ok true))
  unfolding select
  In-select test [] found q h =
      let e : [] ≡ found = cc in
      (λ l. absurd (not-In-nil (subst (In q) (sym e) l)), λ (l, _). absurd (not-In-nil l))
  In-select test (p ∷ ps) found q h =
      let (b, tested, h') = >>=-eq-ok (test p) _ h in
      let (rest, selected, last) = >>=-eq-ok (select test ps) _ h' in
      let e : keep b p rest ≡ found = cc in
      let below = In-select test ps rest q selected in
      let kept = In-keep b p q rest in
      (
        λ l. elim (kept.0 (subst (In q) (sym e) l)) [
          | inl (selects_it, same) ↦
              (here same, ap test (sym same) ∙ tested ∙ ap (λ (x : Bool). ok x) selects_it)
          | inr l' ↦ let (at, t) = below.0 l' in (there at, t)
        ],
        λ (l, t). subst (In q) e (kept.1 (split b rest tested below l t)),
      )
    where
      split :
          (b : Bool) (rest : List Package)
          → test p ≡ ok b
          → In q rest ↔ (In q ps × (test q ≡ ok true))
          → In q (p ∷ ps)
          → test q ≡ ok true
          → ((b ≡ true) × (p ≡ q)) ⊎ In q rest
      split b rest tested below (here same) t =
          let tq : test q ≡ ok b = ap test (sym same) ∙ tested in inl (cc, same)
      split b rest tested below (there l) t = inr (below.1 (l, t))

  -- The package has the name, fits the version constraint and matches the regex that are given.
  pub record Fits (pname : Option PackageName) (pvers : Option Constraint) (regex : Option Regex)
      (p : Package) : Type 0 where
    pub same_name : (name : PackageName) → pname ≡ some name → p.name ≡ name
    pub fits_version : (vers : Constraint) → pvers ≡ some vers → m.matches vers p.version ≡ true
    pub fits_regex : (r : Regex) → regex ≡ some r → is_match r p.name ≡ true

  selects-Fits :
      (pname : Option PackageName) (pvers : Option Constraint) (regex : Option Regex) (p : Package)
      {b : Bool}
      → selects pname pvers regex p ≡ ok b
      → (b ≡ true) ↔ Fits pname pvers regex p
  selects-Fits none none none p h = (
    λ t. record {
      same_name = λ n e. absurd (cc);
      fits_version = λ v e. absurd (cc);
      fits_regex = λ r e. absurd (cc);
    },
    λ f. cc,
  )
  selects-Fits (some n) none none p {b} h =
      let e : (p.name == n) ≡ b = cc in
      (
        λ t. record {
          same_name = λ n' e'. (string_eq.beq_iff p.name n).0 (e ∙ t) ∙ (cc);
          fits_version = λ v e'. absurd (cc);
          fits_regex = λ r e'. absurd (cc);
        },
        λ f. sym e ∙ (string_eq.beq_iff p.name n).1 (f.same_name n refl),
      )
  selects-Fits (some n) (some v) none p {b} h =
      let e : (p.name == n && m.matches v p.version) ≡ b = cc in
      (
        λ t.
            let both : (p.name == n ≡ true) × (m.matches v p.version ≡ true) = ground arith in
            record {
              same_name = λ n' e'. (string_eq.beq_iff p.name n).0 both.0 ∙ (cc);
              fits_version =
                  λ v' e'. subst (λ (x : Constraint). m.matches x p.version ≡ true) (cc) both.1;
              fits_regex = λ r e'. absurd (cc);
            },
        λ f.
            sym e
            ∙ rw ((string_eq.beq_iff p.name n).1 (f.same_name n refl), f.fits_version v refl) refl,
      )
  selects-Fits none none (some r) p {b} h =
      let e : is_match r p.name ≡ b = cc in
      (
        λ t. record {
          same_name = λ n e'. absurd (cc);
          fits_version = λ v e'. absurd (cc);
          fits_regex = λ r' e'. subst (λ (x : Regex). is_match x p.name ≡ true) (cc) (e ∙ t);
        },
        λ f. sym e ∙ f.fits_regex r refl,
      )
  selects-Fits none (some v) none p h = absurd (cc)
  selects-Fits none (some v) (some r) p h = absurd (cc)
  selects-Fits (some n) none (some r) p h = absurd (cc)
  selects-Fits (some n) (some v) (some r) p h = absurd (cc)

  -- The test of every package in the list gave an answer.
  select-tested :
      (test : Package → Result SearchError Bool) (q : Package) {ps found : List Package}
      → In q ps
      → select test ps ≡ ok found
      → (b : Bool) × (test q ≡ ok b)
  unfolding select
  select-tested test q (here {x = p} {xs = ps} same) h =
      let (b, tested, _) =
        >>=-eq-ok (test p) (λ selected. select test ps >>= λ rest. ok (keep selected p rest)) h in
      (b, ap test (sym same) ∙ tested)
  select-tested test q (there {x = p} {xs = ps} m) h =
      let (b, tested, h') =
        >>=-eq-ok (test p) (λ selected. select test ps >>= λ rest. ok (keep selected p rest)) h in
      let (rest, selected, _) = >>=-eq-ok (select test ps) (λ rest. ok (keep b p rest)) h' in
      select-tested test q m selected

  -- If a search returns packages, there is one at least, and they are exactly the packages of the
  -- repository that have the name, fit the version constraint and match the regex, of those that
  -- are given.
  pub In-search_packages :
      (repo : Repository) (pname : Option PackageName) (pvers : Option Constraint)
      (matching_regexp : Option Regex) {found : List Package}
      → search_packages repo pname pvers matching_regexp ≡ ok found
      → ¬ (found ≡ [])
        × ((q : Package)
            → In q found ↔ (((k : Key) × In (k, q) repo) × Fits pname pvers matching_regexp q))
  unfolding search_packages packages
  In-search_packages repo pname pvers matching_regexp {found} h =
      let test = selects pname pvers matching_regexp in
      let (selected, first, last) = >>=-eq-ok (select test (packages repo)) _ h in
      let (some_found, same) = if_any-lem selected last in
      let all_found : select test (packages repo) ≡ ok found =
        first ∙ ap (λ (l : List Package). ok l) same in
      (
        some_found,
        λ q. (
          λ l.
              let (at, t) = (In-select test (packages repo) found q all_found).0 l in
              let ((k, p), at', e) = In-map (λ (e : Key × Package). e.1) repo at in
              (
                (k, subst (λ (x : Package). In (k, x) repo) e at'),
                (selects-Fits pname pvers matching_regexp q t).0 refl,
              ),
          λ ((k, at), fits).
              let at' : In q (packages repo) = In-map_intro (λ (e : Key × Package). e.1) at in
              let (b, tested) = select-tested test q at' all_found in
              let yes = (selects-Fits pname pvers matching_regexp q tested).1 fits in
              (In-select test (packages repo) found q all_found).1
                (at', tested ∙ ap (λ (x : Bool). ok x) yes),
        ),
      )
    where
      if_any-lem :
          (l : List Package)
          → if_any (not_found pname pvers matching_regexp) l ≡ ok found
          → ¬ (found ≡ []) × (l ≡ found)
      if_any-lem [] g = absurd (cc)
      if_any-lem (p ∷ ps) g = let e : p ∷ ps ≡ found = cc in (λ n. absurd (cc), e)
