-- ===== src/Config/Valid.antt =====
-- Which configurations are valid (src/config/not_validated.rs).
use butido.Prelude.{
  ◌≡◌, refl, subst, ◌↔◌, inl, inr, String, Bool, true, false, not, Option, none, some, List, [],
  ◌∷◌, arith, is_empty, In, In-of_any, any_of_In, ok, err, >>=-eq-ok, ◌==◌, nat_eq, string_eq,
  eq_refl, Bool-cases, if◌then◌else◌,
}
use butido.Config.{
  configuration_version, NotValidatedConfiguration, ConfigError, allowed_themes,
  allowed_theme_present, check_theme, fail_if, check_directory_exists, validate_config, validate,
}

abbrev pub ThemeKnown : Option String → Type 0
ThemeKnown none = Unit
ThemeKnown (some theme) = In theme allowed_themes

-- The version is the current one, all directories exist, there is a release store and a phase, and
-- a theme, if one is set, is known.
pub record IsValid (is_dir : String → Bool) (c : NotValidatedConfiguration) : Type 0 where
  pub compatible : c.compatibility ≡ configuration_version
  pub log_dir : is_dir c.log_dir ≡ true
  pub releases : is_dir c.releases_directory ≡ true
  pub staging : is_dir c.staging_directory ≡ true
  pub sources : is_dir c.source_cache_root ≡ true
  pub stores : ¬ (c.release_stores ≡ [])
  pub phases : ¬ (c.available_phases ≡ [])
  pub theme : ThemeKnown c.script_highlight_theme

not_nil : (l : List String) → is_empty l ≡ false → ¬ (l ≡ [])
not_nil [] h e = absurd (cc)
not_nil (x ∷ l) h e = absurd (cc)

empty_of_not_nil : (l : List String) → ¬ (l ≡ []) → is_empty l ≡ false
empty_of_not_nil [] h = absurd (h refl)
empty_of_not_nil (x ∷ l) h = refl

theme_iff : (o : Option String) → (check_theme o ≡ ok tt) ↔ ThemeKnown o
theme_iff none = (λ h. tt, λ h. refl)
theme_iff (some theme) = (
  λ h. elim (Bool-cases (allowed_theme_present theme)) [
    | inl known ↦
        let (t, at, same) = In-of_any (λ t. t == theme) allowed_themes known in
        subst (λ (x : String). In x allowed_themes) ((string_eq.beq_iff t theme).0 same) at
    | inr unknown ↦ let no_error : err _ ≡ ok tt = rw (unknown, if◌then◌else◌) at h in absurd (cc)
  ],
  λ m. rw (any_of_In (λ t. t == theme) m (eq_refl theme)) refl,
)

fail_if-eq-ok : (b : Bool) (e : ConfigError) → fail_if b e ≡ ok tt → b ≡ false
fail_if-eq-ok true e h = absurd (cc)
fail_if-eq-ok false e h = refl

directory-eq-ok :
    (is_dir : String → Bool) (path key : String)
    → check_directory_exists is_dir false path key ≡ ok tt
    → is_dir path ≡ true
directory-eq-ok is_dir path key h = ground arith

module _ (is_dir : String → Bool) (c : NotValidatedConfiguration) where
  -- A configuration is accepted exactly when it is valid.
  pub validate_iff : (validate is_dir c ≡ ok c) ↔ IsValid is_dir c
  unfolding validate validate_config
  validate_iff = (
    λ h.
        let (u1, compatible, h1) =
          >>=-eq-ok (fail_if (not (c.compatibility == configuration_version)) _) _ h in
        let (u2, log, h2) = >>=-eq-ok (check_directory_exists is_dir false c.log_dir _) _ h1 in
        let (u3, releases, h3) =
          >>=-eq-ok (check_directory_exists is_dir false c.releases_directory _) _ h2 in
        let (u4, staging, h4) =
          >>=-eq-ok (check_directory_exists is_dir false c.staging_directory _) _ h3 in
        let (u5, sources, h5) =
          >>=-eq-ok (check_directory_exists is_dir false c.source_cache_root _) _ h4 in
        let (u6, stores, h6) = >>=-eq-ok (fail_if (is_empty c.release_stores) _) _ h5 in
        let (u7, phases, h7) = >>=-eq-ok (fail_if (is_empty c.available_phases) _) _ h6 in
        let (u8, theme, h8) = >>=-eq-ok (check_theme c.script_highlight_theme) _ h7 in
        record {
          compatible =
              (nat_eq.beq_iff c.compatibility configuration_version).0
                (ground (arith, fail_if-eq-ok _ _ compatible));
          log_dir = directory-eq-ok is_dir _ _ log;
          releases = directory-eq-ok is_dir _ _ releases;
          staging = directory-eq-ok is_dir _ _ staging;
          sources = directory-eq-ok is_dir _ _ sources;
          stores = not_nil c.release_stores (fail_if-eq-ok _ _ stores);
          phases = not_nil c.available_phases (fail_if-eq-ok _ _ phases);
          theme = (theme_iff c.script_highlight_theme).0 theme;
        },
    λ v.
        rw
          (
            v.compatible,
            v.log_dir,
            v.releases,
            v.staging,
            v.sources,
            empty_of_not_nil c.release_stores v.stores,
            empty_of_not_nil c.available_phases v.phases,
            (theme_iff c.script_highlight_theme).1 v.theme,
          )
          refl,
  )
