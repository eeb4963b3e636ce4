-- ===== src/Log.antt =====
-- The items of a build log (src/log/item.rs), and the verdict on a whole log (src/log/parser.rs).
pub mod Verdict
mod Examples
use butido.Prelude.{
  ℕ, String, Bool, true, false, Option, none, some, List, [], ◌∷◌, ◌++◌, map, Result, ok, err,
  collect, map_ok,
}

-- `Line` holds bytes.
pub data LogItem : Type 0 where
  line : List ℕ → LogItem
  progress : ℕ → LogItem
  current_phase : String → LogItem
  state : Result String (Unit {0}) → LogItem

pub data JobResult : Type 0 where
  success errored unknown : JobResult

unfoldable pub to_bool : JobResult → Option Bool
to_bool success = some true
to_bool errored = some false
to_bool unknown = none

abbrev pub reverse_onto : List LogItem → List LogItem → List LogItem
reverse_onto [] done = done
reverse_onto (i ∷ items) done = reverse_onto items (i ∷ done)

-- The closure of `filter_map`
abbrev pub verdict_of : LogItem → Option JobResult
verdict_of (state (ok u)) = some success
verdict_of (state (err e)) = some errored
verdict_of (line l) = none
verdict_of (progress n) = none
verdict_of (current_phase p) = none

abbrev pub or_next : Option JobResult → JobResult → JobResult
or_next (some v) rest = v
or_next none rest = rest

-- `filter_map(…).next().unwrap_or(JobResult::Unknown)`
abbrev pub first_verdict : List LogItem → JobResult
first_verdict [] = unknown
first_verdict (i ∷ items) = or_next (verdict_of i) (first_verdict items)

unfoldable pub is_successfull : List LogItem → JobResult
is_successfull items = first_verdict (reverse_onto items [])

-- `ParsedLog::from_str`, over the lines of the text; `parse` is pom's `parse` of `parser()`.
module _ {Error : Type 0} (parse : String → Result Error LogItem) where
  unfoldable pub from_str : List String → Result Error (List LogItem)
  from_str lines = collect (map parse lines)
