-- ===== src/Package/Dependency.antt =====
-- Parsing a dependency text into a name and a version (src/package/dependency/mod.rs,
-- `PackageVersion::from` of src/package/version.rs).
use Prim.Native.Char.{code}
use Prim.Native.String.{[], ◌∷◌}
use butido.Prelude.{String, Bool, Option, Result, ok, err, ok_or, ◌>>=◌, nat_beq, if◌then◌else◌}
use butido.Package.Types.{PackageVersion, Key}

-- `s.trim_start_matches('=')`
unfoldable pub version_from : String → PackageVersion
version_from [] = []
version_from (c ∷ s) = if nat_beq (code c) b'=' then version_from s else c ∷ s

-- What the parser calls of the regular expression library and of the version parser: the named
-- groups that `DEPENDENCY_PARSING_RE` captures, and whether a version constraint parses.
pub record DependencySyntax : Type 0 where
  pub captures : String → Option (Option String × Option String)
  pub is_constraint : String → Bool

pub data ParseError : Type 0 where
  no_match no_name no_version no_constraint : String → ParseError

unfoldable pub parse_package_dependency_string_into_name_and_version :
    DependencySyntax → String → Result ParseError Key
unfolding version_from
parse_package_dependency_string_into_name_and_version syntax s = do
  caps ← ok_or (no_match s) (syntax.captures s)
  name ← ok_or (no_name s) caps.0
  vers ← ok_or (no_version s) caps.1
  if syntax.is_constraint vers then ok (name, version_from vers) else err (no_constraint s)
