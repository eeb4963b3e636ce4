-- ===== src/Endpoint/Container/ExitInfo.antt =====
-- The exit info of a log (src/endpoint/configured.rs), against what the parsed log says of it
-- (src/log/parser.rs).
use butido.Prelude.{
  ◌≡◌, refl, sym, ◌∙◌, ap, subst, inl, inr, ◌⊎◌, String, Bool, true, false, Option, none, some,
  List, [], ◌∷◌, ◌++◌, map, Result, ok, err, Option-cases,
}
use butido.Log.{
  LogItem, line, progress, current_phase, state, JobResult, success, errored, unknown,
  is_successfull,
}
use butido.Log.Verdict.{Stateless, nothing, more, is_successfull-Stateless, is_successfull-last}
use butido.Endpoint.Container.{ExitInfo, exit_of, fold_exit, exit_info}

-- The message of the first error in a log, and whether a success is in it
abbrev pub first_error : List LogItem → Option String
first_error [] = none
first_error (state (err msg) ∷ items) = some msg
first_error (state (ok u) ∷ items) = first_error items
first_error (line l ∷ items) = first_error items
first_error (progress n ∷ items) = first_error items
first_error (current_phase p ∷ items) = first_error items

abbrev pub has_success : List LogItem → Bool
has_success [] = false
has_success (state (ok u) ∷ items) = true
has_success (state (err msg) ∷ items) = has_success items
has_success (line l ∷ items) = has_success items
has_success (progress n ∷ items) = has_success items
has_success (current_phase p ∷ items) = has_success items

-- An error wins over every success.
abbrev pub verdict : Option String → Bool → ExitInfo
verdict (some msg) b = some (false, some msg)
verdict none true = some (true, none)
verdict none false = none

after_error :
    (msg : Option String) (items : List LogItem)
    → fold_exit (some (false, msg)) (map exit_of items) ≡ some (false, msg)
after_error msg [] = refl
after_error msg (i ∷ items) = after_error msg items

after_success :
    (items : List LogItem)
    → fold_exit (some (true, none)) (map exit_of items) ≡ verdict (first_error items) true
after_success [] = refl
after_success (state (ok u) ∷ items) = after_success items
after_success (state (err msg) ∷ items) = after_error (some msg) items
after_success (line l ∷ items) = after_success items
after_success (progress n ∷ items) = after_success items
after_success (current_phase p ∷ items) = after_success items

-- The exit info of a script is the first error in its log; without an error it is a success if the
-- log has one, and nothing otherwise.
pub exit_info_lem :
    (items : List LogItem) → exit_info items ≡ verdict (first_error items) (has_success items)
unfolding exit_info
exit_info_lem [] = refl
exit_info_lem (state (ok u) ∷ items) = after_success items
exit_info_lem (state (err msg) ∷ items) = after_error (some msg) items
exit_info_lem (line l ∷ items) = exit_info_lem items
exit_info_lem (progress n ∷ items) = exit_info_lem items
exit_info_lem (current_phase p ∷ items) = exit_info_lem items

-- The last state in a log, if there is one
pub record LastState (items : List LogItem) : Type 0 where
  pub front : List LogItem
  pub rest : List LogItem
  pub result : Result String (Unit {0})
  pub split : front ++ state result ∷ rest ≡ items
  pub last : Stateless rest

last_state : (items : List LogItem) → LastState items ⊎ Stateless items
last_state [] = inr nothing
last_state (i ∷ items) = elim (last_state items) [
  | inl l ↦ inl (record {
    front = i ∷ l.front;
    rest = l.rest;
    result = l.result;
    split = ap (λ (x : List LogItem). i ∷ x) l.split;
    last = l.last;
  })
  | inr n ↦ here' i n
]
  where
    here' : (i : LogItem) → Stateless items → LastState (i ∷ items) ⊎ Stateless (i ∷ items)
    here' (state r) n =
        inl (record { front = []; rest = items; result = r; split = refl; last = n })
    here' (line l) n = inr (more refl n)
    here' (progress u) n = inr (more refl n)
    here' (current_phase p) n = inr (more refl n)

error_inside :
    (front rest : List LogItem) (msg : String)
    → (m : String) × (first_error (front ++ state (err msg) ∷ rest) ≡ some m)
error_inside [] rest msg = (msg, refl)
error_inside (state (err m) ∷ front) rest msg = (m, refl)
error_inside (state (ok u) ∷ front) rest msg = error_inside front rest msg
error_inside (line l ∷ front) rest msg = error_inside front rest msg
error_inside (progress n ∷ front) rest msg = error_inside front rest msg
error_inside (current_phase p ∷ front) rest msg = error_inside front rest msg

success_inside :
    (front rest : List LogItem) (u : Unit {0}) → has_success (front ++ state (ok u) ∷ rest) ≡ true
success_inside [] rest u = refl
success_inside (state (err m) ∷ front) rest u = success_inside front rest u
success_inside (state (ok v) ∷ front) rest u = refl
success_inside (line l ∷ front) rest u = success_inside front rest u
success_inside (progress n ∷ front) rest u = success_inside front rest u
success_inside (current_phase p ∷ front) rest u = success_inside front rest u

nothing_inside :
    (items : List LogItem)
    → Stateless items
    → (first_error items ≡ none) × (has_success items ≡ false)
nothing_inside [] n = (refl, refl)
nothing_inside (state (err m) ∷ items) (more silent n) = absurd (cc)
nothing_inside (state (ok u) ∷ items) (more silent n) = absurd (cc)
nothing_inside (line l ∷ items) (more silent n) = nothing_inside items n
nothing_inside (progress u ∷ items) (more silent n) = nothing_inside items n
nothing_inside (current_phase p ∷ items) (more silent n) = nothing_inside items n

-- The two views of a log agree on a success and on a log without a state; a failure may be a log
-- that the parser calls successful.
abbrev pub Agrees : ExitInfo → JobResult → Type 0
Agrees none v = v ≡ unknown
Agrees (some (true, m)) v = v ≡ success
Agrees (some (false, m)) v = ¬ (v ≡ unknown)

-- A script's run counts as a success only if the parsed log is successful, and has no exit info
-- exactly when the parsed log is unknown; if it counts as a failure, the parsed log has a verdict,
-- which may be either.
pub exit_info-is_successfull :
    (items : List LogItem) → Agrees (exit_info items) (is_successfull items)
exit_info-is_successfull items = elim (last_state items) [
  | inr n ↦
      let (clean, without) = nothing_inside items n in
      agrees none false unknown clean without (is_successfull-Stateless items n) refl
  | inl l ↦ of_last l.front l.rest l.result l.split l.last
]
  where
    agrees :
        (o : Option String) (b : Bool) (v : JobResult)
        → first_error items ≡ o
        → has_success items ≡ b
        → is_successfull items ≡ v
        → Agrees (verdict o b) v
        → Agrees (exit_info items) (is_successfull items)
    agrees o b v e s w a =
        let whole =
          exit_info_lem items
          ∙ ap (λ (x : Option String). verdict x (has_success items)) e
          ∙ ap (verdict o) s in
        subst (λ (x : ExitInfo). Agrees x (is_successfull items)) (sym whole)
          (subst (Agrees (verdict o b)) (sym w) a)

    of_last :
        (front rest : List LogItem) (r : Result String (Unit {0}))
        → front ++ state r ∷ rest ≡ items
        → Stateless rest
        → Agrees (exit_info items) (is_successfull items)
    of_last front rest (err msg) e n =
        let (m, at) = error_inside front rest msg in
        agrees (some m) (has_success items) errored (ap first_error (sym e) ∙ at) refl
          (ap is_successfull (sym e) ∙ is_successfull-last front rest (err msg) n refl)
          (λ h. absurd (cc))
    of_last front rest (ok u) e n =
        let is_success = ap is_successfull (sym e) ∙ is_successfull-last front rest (ok u) n refl in
        let has = ap has_success (sym e) ∙ success_inside front rest u in
        elim (Option-cases (first_error items)) [
          | inl clean ↦ agrees none true success clean has is_success refl
          | inr (m, at) ↦ agrees (some m) true success at has is_success (λ h. absurd (cc))
        ]
