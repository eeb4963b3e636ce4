-- ===== src/Commands/Build.antt =====
-- The build command (src/commands/build.rs): the choice of the package, the check of the images,
-- and the report of a job that failed.
pub mod Report
pub mod Checks
mod Examples
use butido.Prelude.{
  ℕ, zero, suc, ◌+◌, ◌-◌, String, Bool, true, false, not, Option, none, some, List, [], ◌∷◌, map,
  any, length, ltb, Result, ok, err, ◌>>=◌, collect, ◌==◌, string_eq, if◌then◌else◌,
}
use butido.Package.Condition.{ImageName}
use butido.Package.Types.{Key, key, Package}
use butido.Orchestrator.Task.{Error}
use butido.Log.{LogItem, line, progress, current_phase, state}

pub data BuildError : Type 0 where
  multiple_packages : ℕ → BuildError
  no_package : BuildError
  not_allowed not_allowed_on : Key → BuildError

-- The one package that is built
unfoldable pub choose_package : List Package → Result BuildError Package
choose_package [] = err no_package
choose_package (p ∷ []) = ok p
choose_package (p ∷ q ∷ packages) = err (multiple_packages (suc (suc (length packages))))

abbrev pub check_allowed : Key → ImageName → Option (List ImageName) → Result BuildError (Unit {0})
check_allowed k image none = ok tt
check_allowed k image (some allowlist) =
    if not (any (λ i. i == image) allowlist) then err (not_allowed k) else ok tt

abbrev pub check_denied : Key → ImageName → Option (List ImageName) → Result BuildError (Unit {0})
check_denied k image none = ok tt
check_denied k image (some deniedlist) =
    if any (λ denied. image == denied) deniedlist then err (not_allowed_on k) else ok tt

abbrev pub check_image : ImageName → Package → Result BuildError (Unit {0})
check_image image pkg = do
  allowed ← check_allowed (key pkg) image pkg.allowed_images
  check_denied (key pkg) image pkg.denied_images

-- `dag.all_packages()` and its `collect`
unfoldable pub check_images : ImageName → List Package → Result BuildError (List (Unit {0}))
check_images image packages = collect (map (check_image image) packages)

-- `last_phase` and `error_catched`
pub record Scan : Type 0 where
  pub last_phase : Option String
  pub error_catched : Bool

abbrev pub scan_item : LogItem → Scan → Scan
scan_item (current_phase p) s = if not s.error_catched then record s { last_phase = some p } else s
scan_item (state r) s = record s { error_catched = true }
scan_item (line l) s = s
scan_item (progress n) s = s

abbrev pub scan : List LogItem → Scan → Scan
scan [] s = s
scan (i ∷ items) s = scan items (scan_item i s)

abbrev pub enumerate : ℕ → List String → List (ℕ × String)
enumerate i [] = []
enumerate i (l ∷ lines) = (i, l) ∷ enumerate (suc i) lines

abbrev pub skip : ℕ → List (ℕ × String) → List (ℕ × String)
skip zero lines = lines
skip (suc n) [] = []
skip (suc n) (l ∷ lines) = skip n lines

-- The argument of `skip`
abbrev pub number_skipped : ℕ → ℕ → ℕ
number_skipped number_log_lines len =
    if ltb number_log_lines len then len - number_log_lines else len

-- What is written at the end: the phase, if there is one, or that the error is not the script's
pub data Ending : Type 0 where
  errored_in_phase : Option String → Ending
  not_by_script : Ending

pub record Reported : Type 0 where
  pub lines : List (ℕ × String)
  pub ending : Ending

abbrev pub ending_of : Scan → Ending
ending_of s = if s.error_catched then errored_in_phase s.last_phase else not_by_script

-- The body of the loop over the errors, from the parsed log on
unfoldable pub report : ℕ → (LogItem → Result Error String) → List LogItem → Result Error Reported
report number_log_lines display items = do
  lines ← collect (map display items)
  ok (record {
    lines = skip (number_skipped number_log_lines (length lines)) (enumerate 0 lines);
    ending = ending_of (scan items (record { last_phase = none; error_catched = false }));
  })
