-- ===== src/Log/Examples.antt =====
-- A log with a failure and a later success, and a line that does not parse.
use butido.Prelude.{String, ◌≡◌, refl, [], ◌∷◌, Result, ok, err, ◌==◌, string_eq, if◌then◌else◌}
use butido.Log.{LogItem, progress, state, success, is_successfull, from_str}

last_decides :
    is_successfull (state (err "make failed") ∷ state (ok tt) ∷ progress 100 ∷ []) ≡ success
unfolding is_successfull
last_decides = refl

abbrev parse : String → Result String LogItem
parse s = if s == "100" then ok (progress 100) else err s

parses : from_str parse ("100" ∷ []) ≡ ok (progress 100 ∷ [])
unfolding from_str
parses = refl

refuses : from_str parse ("100" ∷ "x" ∷ []) ≡ err "x"
unfolding from_str
refuses = refl
