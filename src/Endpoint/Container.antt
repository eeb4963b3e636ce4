-- ===== src/Endpoint/Container.antt =====
-- The end of a build in its container: `StartedContainer::execute_script` and
-- `ExecutedContainer::finalize` (src/endpoint/configured.rs).
pub mod ExitInfo
mod Examples
use butido.Prelude.{
  String, Bool, true, false, Option, none, some, List, [], ◌∷◌, ◌++◌, map, Result, ok, err, ◌>>=◌,
  collect, map_ok,
}
use butido.Filestore.{ArtifactPath, FileStoreImpl}
use butido.Log.{LogItem, line, progress, current_phase, state}
use butido.Orchestrator.Task.{Error}

abbrev pub ExitInfo : Type 0
ExitInfo = Option (Bool × Option String)

-- The `match` on the item
abbrev pub exit_of : LogItem → ExitInfo
exit_of (state (ok u)) = some (true, none)
exit_of (state (err msg)) = some (false, some msg)
exit_of (line l) = none
exit_of (progress n) = none
exit_of (current_phase p) = none

-- The closure of `fold`
abbrev pub combine : ExitInfo → ExitInfo → ExitInfo
combine none b = b
combine (some (false, msg)) elem = some (false, msg)
combine (some (true, m)) (some (false, msg)) = some (false, msg)
combine (some (true, m)) none = some (true, m)
combine (some (true, m)) (some (true, m')) = some (true, none)

abbrev pub fold_exit : ExitInfo → List ExitInfo → ExitInfo
fold_exit accu [] = accu
fold_exit accu (e ∷ es) = fold_exit (combine accu e) es

unfoldable pub exit_info : List LogItem → ExitInfo
exit_info items = fold_exit none (map exit_of items)

-- What the script's run uses: the lines of the container's output, the parser of a line, and
-- whether the log sink takes an item (`display` may fail on it, or the channel may be closed).
pub record ScriptRun : Type 0 where
  pub lines : List (Result Error String)
  pub parse : String → Result Error LogItem
  pub send : LogItem → Result Error (Unit {0})

module _ (r : ScriptRun) where
  -- `.and_then(…).and_then(…)`: the item of a line, once it is sent
  abbrev pub receive_line : Result Error String → Result Error LogItem
  receive_line l = do text ← l; item ← r.parse text; sent ← r.send item; ok item

  unfoldable pub execute_script : Result Error ExitInfo
  unfolding exit_info
  execute_script = map_ok exit_info (collect (map receive_line r.lines))

-- `FinalizedContainer`
pub record FinalizedContainer : Type 0 where
  pub artifacts : List ArtifactPath
  pub exit_info : Result String (Unit {0})

abbrev pub message : Option String → String
message none = ""
message (some msg) = msg

-- What `finalize` uses of the container and of the staging store
pub record Finishing : Type 0 where
  pub write_files : FileStoreImpl → Result Error (FileStoreImpl × List ArtifactPath)
  pub stop : Result Error (Unit {0})

module _ (f : Finishing) where
  abbrev pub fetch_outputs : FileStoreImpl → Result Error (FileStoreImpl × FinalizedContainer)
  fetch_outputs staging = do
    written ← f.write_files staging
    stopped ← f.stop
    ok (written.0, record { artifacts = written.1; exit_info = ok tt })

  unfoldable pub finalize :
      ExitInfo → FileStoreImpl → Result Error (FileStoreImpl × FinalizedContainer)
  finalize (some (false, msg)) staging =
      ok (staging, record { artifacts = []; exit_info = err (message msg) })
  finalize (some (true, msg)) staging = fetch_outputs staging
  finalize none staging = fetch_outputs staging
