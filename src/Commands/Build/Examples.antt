-- ===== src/Commands/Build/Examples.antt =====
-- The report of a log of two items, of which three are wanted: none is shown.
use butido.Prelude.{
  here, string_eq, ◌≡◌, refl, String, some, List, [], ◌∷◌, map, Result, ok, err, collect,
}
use butido.Orchestrator.Task.{Error}
use butido.Log.{LogItem, current_phase, state}
use butido.Package.Types.{Package}
use butido.Job.Examples.{hello}
use butido.Commands.Build.Checks.{MayBuild, check_images-MayBuild}
use butido.Commands.Build.{
  choose_package, multiple_packages, check_images, Reported, errored_in_phase, report,
}
use butido.Commands.Build.Report.{IsShown, IsEnding, report_lem}

abbrev log : List LogItem
log = current_phase "build" ∷ state (err "make failed") ∷ []

abbrev display : LogItem → Result Error String
display i = ok "-"

abbrev reported : Reported
reported = record { lines = []; ending = errored_in_phase (some "build") }

reports : report 3 display log ≡ ok reported
unfolding report
reports = refl

report_lem_example :
    (lines : List String) × (collect (map display log) ≡ ok lines)
    × IsShown 3 lines reported.lines
    × IsEnding log reported.ending
report_lem_example = report_lem 3 display log reports

-- A package that is built on one image only
abbrev limited : Package
limited = record hello { allowed_images = some ("debian" ∷ []); denied_images = some ("suse" ∷ []) }

checks : check_images "debian" (limited ∷ []) ≡ ok (tt ∷ [])
unfolding check_images
checks = refl

check_images-MayBuild_example : MayBuild "debian" limited
check_images-MayBuild_example =
    check_images-MayBuild "debian" (limited ∷ []) checks limited (here refl)

-- Of two packages none is chosen.
chooses : choose_package (limited ∷ hello ∷ []) ≡ err (multiple_packages 2)
unfolding choose_package
chooses = refl
