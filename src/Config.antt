-- ===== src/Config.antt =====
-- The validation of the configuration (src/config/not_validated.rs).
pub mod Valid
mod Examples
use butido.Prelude.{
  ℕ, String, Bool, true, false, not, ◌||◌, Option, none, some, List, [], ◌∷◌, any, is_empty, ltb,
  Result, ok, err, ◌>>=◌, ◌==◌, nat_eq, string_eq, if◌then◌else◌,
}

abbrev pub configuration_version : ℕ
configuration_version = 1

-- A path is a string. The fields that `validate_config` does not read are left out.
pub record NotValidatedConfiguration : Type 0 where
  pub compatibility : ℕ
  pub log_dir : String
  pub script_highlight_theme : Option String
  pub releases_directory : String
  pub release_stores : List String
  pub staging_directory : String
  pub source_cache_root : String
  pub available_phases : List String

pub data ConfigError : Type 0 where
  not_compatible : ConfigError
  not_a_directory : String → String → ConfigError
  no_release_store : ConfigError
  no_phases : ConfigError
  theme_not_known : String → ConfigError

abbrev pub allowed_themes : List String
allowed_themes =
    "base16-ocean.dark" ∷ "base16-eighties.dark" ∷ "base16-mocha.dark" ∷ "base16-ocean.light"
    ∷ "InspiredGitHub" ∷ "Solarized (dark)" ∷ "Solarized (light)" ∷ []

abbrev pub allowed_theme_present : String → Bool
allowed_theme_present configured = any (λ t. t == configured) allowed_themes

abbrev pub check_theme : Option String → Result ConfigError (Unit {0})
check_theme none = ok tt
check_theme (some theme) =
    if not (allowed_theme_present theme) then err (theme_not_known theme) else ok tt

-- `return Err(…)` if the condition holds
abbrev pub fail_if : Bool → ConfigError → Result ConfigError (Unit {0})
fail_if true e = err e
fail_if false e = ok tt

-- `is_dir` is the file system.
module _ (is_dir : String → Bool) (skip_filesystem_checks : Bool) where
  abbrev pub check_directory_exists : String → String → Result ConfigError (Unit {0})
  check_directory_exists path key =
      if skip_filesystem_checks || is_dir path then ok tt else err (not_a_directory key path)

  -- `Configuration` wraps the same record.
  unfoldable pub validate_config :
      NotValidatedConfiguration → Result ConfigError NotValidatedConfiguration
  validate_config c = do
    compatible ← fail_if (not (c.compatibility == configuration_version)) not_compatible
    log ← check_directory_exists c.log_dir "log_dir"
    releases ← check_directory_exists c.releases_directory "releases_root"
    staging ← check_directory_exists c.staging_directory "staging"
    sources ← check_directory_exists c.source_cache_root "source_cache"
    stores ← fail_if (is_empty c.release_stores) no_release_store
    phases ← fail_if (is_empty c.available_phases) no_phases
    theme ← check_theme c.script_highlight_theme
    ok c

unfoldable pub validate :
    (String → Bool) → NotValidatedConfiguration → Result ConfigError NotValidatedConfiguration
unfolding validate_config
validate is_dir c = validate_config is_dir false c

pub data CompatibilityError : Type 0 where
  setting_missing not_a_number too_old changelog_error must_be_updated : CompatibilityError

-- What is printed of the changelog for a version
pub data Line : Type 0 where
  entry : ℕ → String → Line
  entry_missing : ℕ → Line

abbrev pub line_of : ℕ → Option String → Line
line_of i none = entry_missing i
line_of i (some text) = entry i text

-- `check_compatibility`, with the setting as text, the parser of a `u16` and the changelog: the lines
-- that are printed, and the result. `too_old` says that the binary is too old. There is only one
-- version below the current one, so the loop over `compatibility + 1 ..= 1` has one round.
unfoldable pub check_compatibility :
    Option String
    → (String → Option ℕ)
    → Option (ℕ → Option String)
    → List Line × Result CompatibilityError (Unit {0})
check_compatibility none parse changelog = ([], err setting_missing)
check_compatibility (some text) parse changelog = elim (parse text) [
  | none ↦ ([], err not_a_number)
  | some compatibility ↦
      if compatibility == configuration_version
      then ([], ok tt)
      else if ltb configuration_version compatibility
      then ([], err too_old)
      else elim changelog [
        | none ↦ ([], err changelog_error)
        | some log ↦
            (line_of configuration_version (log configuration_version) ∷ [], err must_be_updated)
      ]
]
