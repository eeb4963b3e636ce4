-- ===== src/Package/Types.antt =====
-- The package record, its dependencies and the repository map
-- (src/package/package.rs, src/package/dependency/*.rs, src/repository/repository.rs).
use butido.Prelude.{String, Bool, Option, List, ◌==◌, string_eq, pair_eq, Result, ok}
use butido.Package.Condition.{
  Condition, ConditionData, ConditionError, EnvironmentVariableName, ImageName, matches,
}

-- `PackageName` and `PackageVersion` are newtypes around `String`.
abbrev pub PackageName : Type 0
PackageName = String

abbrev pub PackageVersion : Type 0
PackageVersion = String

-- A URL and a file system path are values of other libraries; only their text is kept.
abbrev pub FilePath : Type 0
FilePath = String

pub data HashType : Type 0 where
  sha1 sha256 sha512 : HashType

pub record SourceHash : Type 0 where
  pub hashtype : HashType
  pub value : String

pub record Source : Type 0 where
  pub url : String
  pub hash : SourceHash
  pub download_manually : Bool

pub data BuildDependency : Type 0 where
  simple : String → BuildDependency
  conditional : String → Condition → BuildDependency

pub data Dependency : Type 0 where
  simple : String → Dependency
  conditional : String → Condition → Dependency

pub record Dependencies : Type 0 where
  pub build : List BuildDependency
  pub runtime : List Dependency

pub data Phase : Type 0 where
  path : FilePath → Phase
  text : String → Phase

-- A `HashMap` field is the list of its entries.
pub record Package : Type 0 where
  pub name : PackageName
  pub version : PackageVersion
  pub version_is_semver : Bool
  pub sources : List (String × Source)
  pub dependencies : Dependencies
  pub patches : List FilePath
  pub environment : Option (List (EnvironmentVariableName × String))
  pub allowed_images : Option (List ImageName)
  pub denied_images : Option (List ImageName)
  pub phases : List (String × Phase)
  pub meta : Option (List (String × String))

abbrev pub Key : Type 0
Key = PackageName × PackageVersion

abbrev pub key : Package → Key
key p = (p.name, p.version)

-- `impl PartialEq for Package`
abbrev pub package_beq : Package → Package → Bool
package_beq p q = key p == key q

-- `AsRef<str>` of the two kinds of dependency
abbrev pub build_dependency_text : BuildDependency → String
build_dependency_text (BuildDependency.simple s) = s
build_dependency_text (BuildDependency.conditional s c) = s

abbrev pub dependency_text : Dependency → String
dependency_text (Dependency.simple s) = s
dependency_text (Dependency.conditional s c) = s

-- `ConditionCheckable` of the two kinds of dependency
unfoldable pub check_build_dependency : BuildDependency → ConditionData → Result ConditionError Bool
check_build_dependency (BuildDependency.simple s) d = ok Bool.true
check_build_dependency (BuildDependency.conditional s c) d = matches c d

unfoldable pub check_dependency : Dependency → ConditionData → Result ConditionError Bool
check_dependency (Dependency.simple s) d = ok Bool.true
check_dependency (Dependency.conditional s c) d = matches c d
