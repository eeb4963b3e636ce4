-- ===== src/Package/Dag/Dependencies/Declared.antt =====
-- What a package declares and requires, and what `process_dependency` makes of it
-- (src/package/dag.rs, src/package/dependency/*.rs).
use butido.Prelude.{
  ◌≡◌, refl, ◌∙◌, ap, subst, inl, inr, ◌↔◌, String, Bool, true, Option, none, some, map, In,
  In-append, In-append_left, In-append_right, In-map, In-map_intro, Result, ok, err, ok_or, map_err,
  map_err-eq-ok, >>=-eq-ok, ◌>>=◌, string_eq, pair_eq, option_eq, Bool-cases, if◌then◌else◌,
}
use butido.Package.Condition.{Condition, ConditionData, ConditionError, matches}
use butido.Package.Condition.Matching.{IsMet, matches_iff}
use butido.Package.Types.{
  Key, Package, BuildDependency, Dependency, check_build_dependency, check_dependency,
}
use butido.Package.Dependency.{
  DependencySyntax, ParseError, version_from, parse_package_dependency_string_into_name_and_version,
}
use butido.Package.Dag.Dependencies.{
  DependencyType, type_eq, DagError, condition, parse, Needed, process_dependency, process_build,
  process_runtime, processed,
}

-- A dependency that stands in the record of the package: its text, its condition and its kind
pub data Declares (p : Package) : String → Option Condition → DependencyType → Type 0 where
  build_simple :
      {s : String}
      → In (BuildDependency.simple s) p.dependencies.build
      → Declares p s none DependencyType.build
  build_conditional :
      {s : String} {c : Condition}
      → In (BuildDependency.conditional s c) p.dependencies.build
      → Declares p s (some c) DependencyType.build
  runtime_simple :
      {s : String}
      → In (Dependency.simple s) p.dependencies.runtime
      → Declares p s none DependencyType.runtime
  runtime_conditional :
      {s : String} {c : Condition}
      → In (Dependency.conditional s c) p.dependencies.runtime
      → Declares p s (some c) DependencyType.runtime

-- The condition holds; a dependency without a condition always applies.
abbrev pub Applies : Option Condition → ConditionData → Type 0
Applies none d = Unit
Applies (some c) d = IsMet c d

-- The text reads as a name and a version constraint, and the version is the text of the constraint
-- without its leading `=`.
pub record Reads (syntax : DependencySyntax) (text : String) (k : Key) : Type 0 where
  pub vers : String
  pub captured : syntax.captures text ≡ some (some k.0, some vers)
  pub constraint : syntax.is_constraint vers ≡ true
  pub version : version_from vers ≡ k.1

-- The package declares a dependency of this kind that applies and reads as this name and version.
abbrev pub Requires : DependencySyntax → ConditionData → Package → Key → DependencyType → Type 0
Requires syntax data' p k kind =
    (text : String) × (c : Option Condition) × Declares p text c kind
    × Applies c data'
    × Reads syntax text k

module _ (syntax : DependencySyntax) where
  abbrev pub parsed : String → Result ParseError Key
  parsed = parse_package_dependency_string_into_name_and_version syntax

  -- The parser once the groups are captured
  abbrev of_groups : String → Option (Option String × Option String) → Result ParseError Key
  of_groups text caps = ok_or (ParseError.no_match text) caps >>= λ caps.
      ok_or (ParseError.no_name text) caps.0 >>= λ name.
      ok_or (ParseError.no_version text) caps.1 >>= λ vers.
      if syntax.is_constraint vers
      then ok (name, version_from vers)
      else err (ParseError.no_constraint text)

  of_groups-Reads :
      (text : String) (k : Key) (caps : Option (Option String × Option String))
      → syntax.captures text ≡ caps
      → of_groups text caps ≡ ok k
      → Reads syntax text k
  of_groups-Reads text k none c h = absurd (cc)
  of_groups-Reads text k (some (none, v)) c h = absurd (cc)
  of_groups-Reads text k (some (some n, none)) c h = absurd (cc)
  of_groups-Reads text k (some (some n, some v)) c h = elim (Bool-cases (syntax.is_constraint v)) [
    | inl valid ↦
        let e : ◌≡◌ {A = Result ParseError Key} (ok (n, version_from v)) (ok k) =
          rw (valid, if◌then◌else◌) at h in
        let same : (n, version_from v) ≡ k = cc in
        record {
          vers = v;
          captured = c ∙ ap (λ (x : Key). some (some x.0, some v)) same;
          constraint = valid;
          version = ap (λ (x : Key). x.1) same;
        }
    | inr invalid ↦
        let e : ◌≡◌ {A = Result ParseError Key} (err (ParseError.no_constraint text)) (ok k) =
          rw (invalid, if◌then◌else◌) at h in
        absurd (cc)
  ]

  pub parsed_iff : (text : String) (k : Key) → (parsed text ≡ ok k) ↔ Reads syntax text k
  unfolding parse_package_dependency_string_into_name_and_version
  parsed_iff text k = (
    λ h. of_groups-Reads text k (syntax.captures text) refl h,
    λ r. rw (r.captured, r.constraint, r.version) refl,
  )

abbrev pub Outcome : Type 0
Outcome = Result DagError (Bool × Needed)

module _ (syntax : DependencySyntax) (data' : ConditionData) where
  abbrev pub check_of : Option Condition → Result ConditionError Bool
  check_of none = ok true
  check_of (some c) = matches c data'

  -- What processing a dependency with this text, condition and kind makes
  abbrev pub outcome : String → Option Condition → DependencyType → Outcome
  outcome text c kind = map_err condition (check_of c) >>= λ take.
      map_err parse (parsed syntax text) >>= λ k. ok (take, (k, kind))

  abbrev pub Comes : Package → Outcome → Type 0
  Comes p r =
      (text : String) × (c : Option Condition) × (kind : DependencyType) × Declares p text c kind
      × (outcome text c kind ≡ r)

  of_build :
      (p : Package) (d : BuildDependency) {r : Outcome}
      → In d p.dependencies.build
      → process_build syntax data' d ≡ r
      → Comes p r
  unfolding process_dependency check_build_dependency
  of_build p (BuildDependency.simple s) m h =
      (s, none, DependencyType.build, Declares.build_simple m, h)
  of_build p (BuildDependency.conditional s c) m h =
      (s, some c, DependencyType.build, Declares.build_conditional m, h)

  of_runtime :
      (p : Package) (d : Dependency) {r : Outcome}
      → In d p.dependencies.runtime
      → process_runtime syntax data' d ≡ r
      → Comes p r
  unfolding process_dependency check_dependency
  of_runtime p (Dependency.simple s) m h =
      (s, none, DependencyType.runtime, Declares.runtime_simple m, h)
  of_runtime p (Dependency.conditional s c) m h =
      (s, some c, DependencyType.runtime, Declares.runtime_conditional m, h)

  pub In-processed : (p : Package) {r : Outcome} → In r (processed syntax data' p) → Comes p r
  In-processed p {r} m =
      elim (In-append (map (process_build syntax data') p.dependencies.build) m) [
        | inl l ↦
            let (d, at, e) = In-map (process_build syntax data') p.dependencies.build l in
            of_build p d at e
        | inr l ↦
            let (d, at, e) = In-map (process_runtime syntax data') p.dependencies.runtime l in
            of_runtime p d at e
      ]

  In-processed_build :
      (p : Package) {d : BuildDependency}
      → In d p.dependencies.build
      → In (process_build syntax data' d) (processed syntax data' p)
  In-processed_build p m = In-append_left _ (In-map_intro (process_build syntax data') m)

  In-processed_runtime :
      (p : Package) {d : Dependency}
      → In d p.dependencies.runtime
      → In (process_runtime syntax data' d) (processed syntax data' p)
  In-processed_runtime p m = In-append_right _ (In-map_intro (process_runtime syntax data') m)

  pub In-processed_intro :
      (p : Package) {text : String} {c : Option Condition} {kind : DependencyType}
      → Declares p text c kind
      → In (outcome text c kind) (processed syntax data' p)
  unfolding process_dependency check_dependency check_build_dependency
  In-processed_intro p (Declares.build_simple m) = In-processed_build p m
  In-processed_intro p (Declares.build_conditional m) = In-processed_build p m
  In-processed_intro p (Declares.runtime_simple m) = In-processed_runtime p m
  In-processed_intro p (Declares.runtime_conditional m) = In-processed_runtime p m

  pub check_of_iff : (c : Option Condition) → (check_of c ≡ ok true) ↔ Applies c data'
  check_of_iff none = (λ h. tt, λ h. refl)
  check_of_iff (some c) = matches_iff c data'

  -- A dependency is taken exactly when its condition holds and its text is read.
  pub outcome_iff :
      (text : String) (c : Option Condition) (kind : DependencyType) (n : Needed)
      → (outcome text c kind ≡ ok (true, n))
        ↔ (Applies c data' × Reads syntax text n.0 × (kind ≡ n.1))
  outcome_iff text c kind n = (
    λ h.
        let (take, checked, h1) =
          >>=-eq-ok (map_err condition (check_of c))
            (λ take. map_err parse (parsed syntax text) >>= λ k. ok (take, (k, kind))) h in
        let (k, read, h2) =
          >>=-eq-ok (map_err parse (parsed syntax text)) (λ k. ok (take, (k, kind))) h1 in
        let same : (take, (k, kind)) ≡ (true, n) = cc in
        (
          (check_of_iff c).0 (
              map_err-eq-ok condition (check_of c) checked
              ∙ ap (λ (x : Bool × Needed). ok (x.0)) same),
          subst (λ (x : Key). Reads syntax text x) (ap (λ (x : Bool × Needed). x.1.0) same)
              ((parsed_iff syntax text k).0 (map_err-eq-ok parse (parsed syntax text) read)),
          ap (λ (x : Bool × Needed). x.1.1) same,
        ),
    λ (applies, reads, same).
        rw ((check_of_iff c).1 applies, (parsed_iff syntax text n.0).1 reads, same) refl,
  )
