-- ===== src/Endpoint/Container/Examples.antt =====
-- A log with a failure and a later success: the run has failed, and the parser calls it successful.
use butido.Prelude.{◌≡◌, refl, List, [], ◌∷◌, ok, err}
use butido.Log.{LogItem, line, state, success, is_successfull}
use butido.Endpoint.Container.{exit_info}
use butido.Endpoint.Container.ExitInfo.{Agrees, exit_info-is_successfull}

abbrev log : List LogItem
log = line (104 ∷ 105 ∷ []) ∷ state (err "make failed") ∷ state (ok tt) ∷ []

exit_info-is_successfull_example : Agrees (exit_info log) (is_successfull log)
exit_info-is_successfull_example = exit_info-is_successfull log

parsed_successful : is_successfull log ≡ success
unfolding is_successfull
parsed_successful = refl
