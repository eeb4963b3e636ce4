-- ===== src/Log/Verdict.antt =====
-- What `ParsedLog::is_successfull` answers (src/log/parser.rs).
use butido.Prelude.{◌≡◌, refl, ◌∙◌, ap, String, Option, none, some, List, [], ◌∷◌, ◌++◌, Result}
use butido.Log.{
  LogItem, state, JobResult, unknown, reverse_onto, verdict_of, or_next, first_verdict,
  is_successfull,
}

-- No item of the log is a state.
pub data Stateless : List LogItem → Type 0 where
  nothing : Stateless []
  more :
      {i : LogItem} {items : List LogItem}
      → verdict_of i ≡ none
      → Stateless items
      → Stateless (i ∷ items)

first_verdict-reverse_onto :
    (items done : List LogItem)
    → Stateless items
    → first_verdict (reverse_onto items done) ≡ first_verdict done
first_verdict-reverse_onto [] done n = refl
first_verdict-reverse_onto (i ∷ items) done (more silent n) =
    first_verdict-reverse_onto items (i ∷ done) n
    ∙ ap (λ (v : Option JobResult). or_next v (first_verdict done)) silent

reverse_onto-append :
    (front rest done : List LogItem)
    → reverse_onto (front ++ rest) done ≡ reverse_onto rest (reverse_onto front done)
reverse_onto-append [] rest done = refl
reverse_onto-append (i ∷ front) rest done = reverse_onto-append front rest (i ∷ done)

pub is_successfull-Stateless :
    (items : List LogItem) → Stateless items → is_successfull items ≡ unknown
unfolding is_successfull
is_successfull-Stateless items n = first_verdict-reverse_onto items [] n

-- The last state of a log decides, whatever came before it.
pub is_successfull-last :
    (front rest : List LogItem) (r : Result String (Unit {0})) {v : JobResult}
    → Stateless rest
    → verdict_of (state r) ≡ some v
    → is_successfull (front ++ state r ∷ rest) ≡ v
unfolding is_successfull
is_successfull-last front rest r n decided =
    ap first_verdict (reverse_onto-append front (state r ∷ rest) [])
    ∙ first_verdict-reverse_onto rest (state r ∷ reverse_onto front []) n
    ∙ ap (λ (o : Option JobResult). or_next o (first_verdict (reverse_onto front []))) decided
