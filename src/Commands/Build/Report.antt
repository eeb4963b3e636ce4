-- ===== src/Commands/Build/Report.antt =====
-- What is reported of a job that failed (src/commands/build.rs).
use butido.Prelude.{
  ℕ, zero, suc, ◌+◌, ◌-◌, ◌<◌, ◌≤◌, ◌≡◌, refl, sym, ◌∙◌, ap, subst, inl, inr, String, true, false,
  Option, none, some, List, [], ◌∷◌, ◌++◌, arith, map, length, ltb, Result, ok, >>=-eq-ok, collect,
  Bool-cases,
}
use butido.Orchestrator.Task.{Error}
use butido.Log.{LogItem, line, progress, current_phase, state}
use butido.Log.Verdict.{Stateless, nothing, more}
use butido.Commands.Build.{
  Scan, scan, enumerate, skip, number_skipped, Ending, errored_in_phase, not_by_script, Reported,
  ending_of, report,
}

-- The last phase of a log
abbrev pub last_phase_of : List LogItem → Option String → Option String
last_phase_of [] o = o
last_phase_of (current_phase p ∷ items) o = last_phase_of items (some p)
last_phase_of (line l ∷ items) o = last_phase_of items o
last_phase_of (progress n ∷ items) o = last_phase_of items o
last_phase_of (state r ∷ items) o = last_phase_of items o

-- What is shown of the numbered lines: the last `n` of them if there are more, and none otherwise.
pub data IsShown (n : ℕ) (lines : List String) (shown : List (ℕ × String)) : Type 0 where
  last_lines :
      n < length lines
      → (front : List (ℕ × String)) → front ++ shown ≡ enumerate 0 lines
      → length shown ≡ n
      → IsShown n lines shown
  no_lines : length lines ≤ n → shown ≡ [] → IsShown n lines shown

-- The phase before the first state of the log, or no state at all
pub data IsEnding (items : List LogItem) (e : Ending) : Type 0 where
  in_phase :
      (before after : List LogItem) (r : Result String (Unit {0}))
      → before ++ state r ∷ after ≡ items
      → Stateless before
      → errored_in_phase (last_phase_of before none) ≡ e
      → IsEnding items e
  without_state : Stateless items → not_by_script ≡ e → IsEnding items e

length-enumerate : (lines : List String) (i : ℕ) → length (enumerate i lines) ≡ length lines
length-enumerate [] i = refl
length-enumerate (l ∷ lines) i = let rest = length-enumerate lines (suc i) in omega (arith, rest)

skip-all : (n : ℕ) (lines : List (ℕ × String)) → length lines ≤ n → skip n lines ≡ []
skip-all zero [] h = refl
skip-all zero (l ∷ lines) h = absurd (omega (arith, h))
skip-all (suc n) [] h = refl
skip-all (suc n) (l ∷ lines) h = skip-all n lines (omega (arith, h))

skip-parts :
    (n : ℕ) (lines : List (ℕ × String))
    → n ≤ length lines
    → (front : List (ℕ × String)) × (front ++ skip n lines ≡ lines)
      × (n + length (skip n lines) ≡ length lines)
skip-parts zero lines h = ([], refl, omega arith)
skip-parts (suc n) [] h = absurd (omega (arith, h))
skip-parts (suc n) (l ∷ lines) h =
    let (front, whole, count) = skip-parts n lines (omega (arith, h)) in
    (l ∷ front, ap (λ (x : List (ℕ × String)). l ∷ x) whole, omega (arith, count))

skip-IsShown :
    (n : ℕ) (lines : List String)
    → IsShown n lines (skip (number_skipped n (length lines)) (enumerate 0 lines))
skip-IsShown n lines = elim (Bool-cases (ltb n (length lines))) [
  | inr few ↦
      let at_most : length lines ≤ n = ground arith in
      let all_of = length-enumerate lines 0 in
      rw few
        (no_lines at_most (skip-all (length lines) (enumerate 0 lines) (omega (arith, all_of))))
  | inl many ↦
      let longer : n < length lines = ground arith in
      let all_of = length-enumerate lines 0 in
      let (front, whole, count) =
        skip-parts (length lines - n) (enumerate 0 lines) (omega (arith, all_of, longer)) in
      rw many (last_lines longer front whole (omega (arith, count, all_of, longer)))
]

after_state :
    (items : List LogItem) (o : Option String)
    → scan items (record { last_phase = o; error_catched = true })
      ≡ record { last_phase = o; error_catched = true }
after_state [] o = refl
after_state (current_phase p ∷ items) o = after_state items o
after_state (line l ∷ items) o = after_state items o
after_state (progress n ∷ items) o = after_state items o
after_state (state r ∷ items) o = after_state items o

-- The ending of a scan that goes on from a phase
data EndsFrom (items : List LogItem) (o : Option String) (s : Scan) : Type 0 where
  stopped :
      (before after : List LogItem) (r : Result String (Unit {0}))
      → before ++ state r ∷ after ≡ items
      → Stateless before
      → record { last_phase = last_phase_of before o; error_catched = true } ≡ s
      → EndsFrom items o s
  through :
      Stateless items
      → record { last_phase = last_phase_of items o; error_catched = false } ≡ s
      → EndsFrom items o s

prepend :
    (i : LogItem) (items : List LogItem) (o o' : Option String) (s : Scan)
    → ((l : List LogItem) → last_phase_of (i ∷ l) o ≡ last_phase_of l o')
    → ((l : List LogItem) → Stateless l → Stateless (i ∷ l))
    → EndsFrom items o' s
    → EndsFrom (i ∷ items) o s
prepend i items o o' s phase quiet (stopped before after r whole n e) =
    stopped (i ∷ before) after r (ap (λ (l : List LogItem). i ∷ l) whole) (quiet before n) (
      ap (λ (x : Option String). record { last_phase = x; error_catched = true }) (phase before)
      ∙ e)
prepend i items o o' s phase quiet (through n e) =
    through (quiet items n) (
      ap (λ (x : Option String). record { last_phase = x; error_catched = false }) (phase items)
      ∙ e)

scan-EndsFrom :
    (items : List LogItem) (o : Option String)
    → EndsFrom items o (scan items (record { last_phase = o; error_catched = false }))
scan-EndsFrom [] o = through nothing refl
scan-EndsFrom (state r ∷ items) o = stopped [] items r refl nothing (sym (after_state items o))
scan-EndsFrom (current_phase p ∷ items) o =
    prepend (current_phase p) items o (some p) _ (λ l. refl) (λ l n. more refl n)
      (scan-EndsFrom items (some p))
scan-EndsFrom (line x ∷ items) o =
    prepend (line x) items o o _ (λ l. refl) (λ l n. more refl n) (scan-EndsFrom items o)
scan-EndsFrom (progress x ∷ items) o =
    prepend (progress x) items o o _ (λ l. refl) (λ l n. more refl n) (scan-EndsFrom items o)

ending_of-IsEnding :
    (items : List LogItem) (s : Scan) → EndsFrom items none s → IsEnding items (ending_of s)
ending_of-IsEnding items s (stopped before after r whole n e) =
    in_phase before after r whole n (ap ending_of e)
ending_of-IsEnding items s (through n e) = without_state n (ap ending_of e)

-- A report of a failed job shows the last `n` lines of the log if the log has more than `n`, and no
-- line at all otherwise; it names the last phase before the first state of the log, or says that
-- the error is not the script's if the log has no state.
pub report_lem :
    (n : ℕ) (display : LogItem → Result Error String) (items : List LogItem) {r : Reported}
    → report n display items ≡ ok r
    → (lines : List String) × (collect (map display items) ≡ ok lines)
      × IsShown n lines r.lines
      × IsEnding items r.ending
unfolding report
report_lem n display items {r} h =
    let (lines, displayed, last) =
      >>=-eq-ok (collect (map display items))
        (λ lines. ok (record {
          lines = skip (number_skipped n (length lines)) (enumerate 0 lines);
          ending = ending_of (scan items (record { last_phase = none; error_catched = false }));
        }))
        h in
    let shown : skip (number_skipped n (length lines)) (enumerate 0 lines) ≡ r.lines = cc in
    let ending : ending_of (scan items (record { last_phase = none; error_catched = false }))
        ≡ r.ending =
      cc in
    (
      lines,
      displayed,
      subst (IsShown n lines) shown (skip-IsShown n lines),
      subst (IsEnding items) ending (ending_of-IsEnding items _ (scan-EndsFrom items none)),
    )
