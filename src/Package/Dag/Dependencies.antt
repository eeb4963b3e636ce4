-- ===== src/Package/Dag/Dependencies.antt =====
-- The dependencies that the graph follows: `process_dependency` and `get_package_dependencies` of
-- src/package/dag.rs.
pub mod Declared
pub mod Items
use butido.Prelude.{
  Bool, true, false, Option, none, some, List, ◌++◌, string_eq, pair_eq, option_eq, Eq, Result, ok,
  err, map, filter, ◌>>=◌, map_ok, map_err, unique_by, ◌≡◌, ◌↔◌, arith,
}
use butido.Package.Condition.{ConditionData, ConditionError}
use butido.Package.Types.{
  BuildDependency, Dependency, Key, Package, check_build_dependency, check_dependency,
  build_dependency_text, dependency_text,
}
use butido.Package.Dependency.{
  DependencySyntax, ParseError, parse_package_dependency_string_into_name_and_version,
}

pub data DependencyType : Type 0 where
  build runtime : DependencyType

abbrev pub type_beq : DependencyType → DependencyType → Bool
type_beq build build = true
type_beq runtime runtime = true
type_beq _ _ = false

pub type_beq_iff : (a b : DependencyType) → (type_beq a b ≡ true) ↔ (a ≡ b)
type_beq_iff build build = ground arith
type_beq_iff build runtime = ground arith
type_beq_iff runtime build = ground arith
type_beq_iff runtime runtime = ground arith

instance abbrev pub type_eq : Eq DependencyType
type_eq = record { beq = type_beq; beq_iff = type_beq_iff }

-- The errors of the construction. `out_of_fuel` is the model's own.
pub data DagError : Type 0 where
  condition : ConditionError → DagError
  parse : ParseError → DagError
  not_found : (parent dependency : Key) → DagError
  edge : (parent dependency : Key) → DagError
  out_of_fuel : DagError

-- Name, version and kind of a dependency
abbrev pub Needed : Type 0
Needed = Key × DependencyType

abbrev pub Item : Type 0
Item = Result DagError Needed

unfoldable pub process_dependency :
    {D : Type 0}
    → (D → ConditionData → Result ConditionError Bool)
    → (D → Result ParseError Key)
    → D
    → DependencyType
    → ConditionData
    → Result DagError (Bool × Needed)
process_dependency check_condition parse_as_name_and_version dependency type data' = do
  take ← map_err condition (check_condition dependency data')
  name_version ← map_err parse (parse_as_name_and_version dependency)
  ok (take, (name_version, type))

-- The closure of `filter`
abbrev pub is_kept : Result DagError (Bool × Needed) → Bool
is_kept (ok (take, needed)) = take
is_kept (err e) = true

-- `res.map(|(_, name, vers, kind)| (name, vers, kind))`
abbrev pub drop_flag : Result DagError (Bool × Needed) → Item
drop_flag r = map_ok (λ t. t.1) r

-- `res.as_ref().ok().cloned()`
abbrev pub ok_part : Item → Option Needed
ok_part (ok n) = some n
ok_part (err e) = none

module _ (syntax : DependencySyntax) (data' : ConditionData) where
  abbrev pub process_build : BuildDependency → Result DagError (Bool × Needed)
  process_build dependency =
      process_dependency check_build_dependency
        (λ d.
          parse_package_dependency_string_into_name_and_version syntax (build_dependency_text d))
        dependency build data'

  abbrev pub process_runtime : Dependency → Result DagError (Bool × Needed)
  process_runtime dependency =
      process_dependency check_dependency
        (λ d. parse_package_dependency_string_into_name_and_version syntax (dependency_text d))
        dependency runtime data'

  abbrev pub processed : Package → List (Result DagError (Bool × Needed))
  processed p = map process_build p.dependencies.build ++ map process_runtime p.dependencies.runtime

  unfoldable pub get_package_dependencies : Package → List Item
  get_package_dependencies p = unique_by ok_part (map drop_flag (filter is_kept (processed p)))
