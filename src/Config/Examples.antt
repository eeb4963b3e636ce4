-- ===== src/Config/Examples.antt =====
-- A configuration that is valid where every directory exists.
use butido.Prelude.{◌≡◌, ◌↔◌, true, some, [], ◌∷◌, ok}
use butido.Config.{NotValidatedConfiguration, validate}
use butido.Config.Valid.{IsValid, validate_iff}

abbrev configured : NotValidatedConfiguration
configured = record {
  compatibility = 1;
  log_dir = "/log";
  script_highlight_theme = some "Solarized (dark)";
  releases_directory = "/releases";
  release_stores = "default" ∷ [];
  staging_directory = "/staging";
  source_cache_root = "/sources";
  available_phases = "unpack" ∷ "build" ∷ [];
}

validate_iff_example :
    (validate (λ p. true) configured ≡ ok configured) ↔ IsValid (λ p. true) configured
validate_iff_example = validate_iff (λ p. true) configured
