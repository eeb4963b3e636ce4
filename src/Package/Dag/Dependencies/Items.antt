-- ===== src/Package/Dag/Dependencies/Items.antt =====
-- The items that `get_package_dependencies` returns, against what the package requires
-- (src/package/dag.rs).
use butido.Prelude.{
  ◌≡◌, refl, subst, ◌↔◌, String, true, Option, none, some, List, map, filter, In, In-map,
  In-map_intro, In-filter, In-filter_intro, In-unique_by, In-unique_by_intro, Result, ok, err,
  string_eq, pair_eq, option_eq,
}
use butido.Package.Condition.{Condition, ConditionData}
use butido.Package.Types.{Key, Package}
use butido.Package.Dependency.{DependencySyntax, ParseError}
use butido.Package.Dag.Dependencies.{
  DependencyType, type_eq, parse, Needed, Item, is_kept, drop_flag, ok_part, processed,
  get_package_dependencies,
}
use butido.Package.Dag.Dependencies.Declared.{
  Declares, Applies, Reads, Requires, parsed, parsed_iff, Outcome, outcome, outcome_iff,
  check_of_iff, In-processed, In-processed_intro,
}

module _ (syntax : DependencySyntax) (data' : ConditionData) where
  abbrev taken : Package → List Outcome
  taken p = filter is_kept (processed syntax data' p)

  In-taken :
      (p : Package) (n : Needed) (r : Outcome)
      → In r (taken p)
      → drop_flag r ≡ ok n
      → Requires syntax data' p n.0 n.1
  In-taken p n (err e) m h = absurd (cc)
  In-taken p n (ok (take, k)) m h =
      let (at, kept) = In-filter is_kept (processed syntax data' p) m in
      let same : k ≡ n = cc in
      let (text, c, kind, declares, e) = In-processed syntax data' p at in
      let (applies, reads, is) = (outcome_iff syntax data' text c kind n).0 (cc) in
      (text, c, subst (λ (x : DependencyType). Declares p text c x) is declares, applies, reads)

  ok_part-some : (b : Item) (n : Needed) → ok_part b ≡ some n → b ≡ ok n
  ok_part-some (ok m) n h = cc
  ok_part-some (err e) n h = absurd (cc)

  ok_part-none : (b : Item) → ok_part b ≡ none → (n : Needed) → ¬ (b ≡ ok n)
  ok_part-none (ok m) h n same = absurd (cc)
  ok_part-none (err e) h n same = absurd (cc)

  -- A dependency that is taken, or fails, is among the items, up to its repetitions.
  In-items :
      (p : Package) {text : String} {c : Option Condition} {kind : DependencyType} {r : Outcome}
      → Declares p text c kind
      → outcome syntax data' text c kind ≡ r
      → is_kept r ≡ true
      → (b : Item) × In b (get_package_dependencies syntax data' p)
        × (ok_part b ≡ ok_part (drop_flag r))
  unfolding get_package_dependencies
  In-items p {r = r} declares e kept = In-unique_by_intro ok_part (
      In-map_intro drop_flag (
        In-filter_intro is_kept
          (subst (λ (x : Outcome). In x (processed syntax data' p)) e
            (In-processed_intro syntax data' p declares))
          kept))

  -- The dependencies that are returned without an error are exactly those that the package
  -- requires.
  pub In-get_package_dependencies :
      (p : Package) (k : Key) (kind : DependencyType)
      → In {A = Item} (ok (k, kind)) (get_package_dependencies syntax data' p)
        ↔ Requires syntax data' p k kind
  unfolding get_package_dependencies
  In-get_package_dependencies p k kind = (
    λ m.
        let (r, at, e) =
          In-map drop_flag (taken p) (In-unique_by ok_part (map drop_flag (taken p)) m) in
        In-taken p (k, kind) r at e,
    λ (text, c, declares, applies, reads).
        let (b, at, same) =
          In-items p declares
            ((outcome_iff syntax data' text c kind (k, kind)).1 (applies, reads, refl)) refl in
        subst (λ (x : Item). In x (get_package_dependencies syntax data' p))
          (ok_part-some b (k, kind) same) at,
  )

  -- If no item is an error, every dependency that is declared and applies is read.
  pub Declares-Reads :
      (p : Package) {text : String} {c : Option Condition} {kind : DependencyType}
      → ((item : Item)
          → In item (get_package_dependencies syntax data' p)
          → (n : Needed) × (item ≡ ok n))
      → Declares p text c kind
      → Applies c data'
      → (k : Key) × Reads syntax text k
  Declares-Reads p {text} {c} {kind} all_ok declares applies = of_parsed (parsed syntax text) refl
    where
      of_parsed :
          (r : Result ParseError Key) → parsed syntax text ≡ r → (k : Key) × Reads syntax text k
      of_parsed (ok k) e = (k, (parsed_iff syntax text k).0 e)
      of_parsed (err x) e =
          let fails : outcome syntax data' text c kind ≡ err (parse x) =
            rw ((check_of_iff syntax data' c).1 applies, e) refl in
          let (b, at, same) = In-items p declares fails refl in
          let (n, is) = all_ok b at in absurd (ok_part-none b same n is)
