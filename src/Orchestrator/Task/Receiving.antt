-- ===== src/Orchestrator/Task/Receiving.antt =====
-- How the loop that waits for the dependencies ends (src/orchestrator/orchestrator.rs).
use butido.Prelude.{
  ◌≡◌, refl, subst, inl, inr, true, false, not, List, [], ◌∷◌, ◌++◌, arith, In, here, there, map,
  filter, is_empty, In-of_all, all_of_In, ok, err, nat_eq, contains_key, extend,
  contains_key-extend, Bool-cases, if◌then◌else◌,
}
use butido.Orchestrator.Task.{
  Uuid, Artifacts, Errors, JobResult, dependencies_missing, Received, all_dependencies_are_in,
  perform_receive, failed, errored, ready, receive_dependencies,
}

abbrev pub no_errors : Artifacts → Received
no_errors a = record { dependencies = a; errors = [] }

-- The maps of several messages, one after the other
abbrev pub extend_all : Artifacts → List Artifacts → Artifacts
extend_all a [] = a
extend_all a (v ∷ vs) = extend_all (extend a v) vs

nil_of_is_empty : {A : Type 0} (xs : List A) → is_empty xs ≡ true → xs ≡ []
nil_of_is_empty [] h = refl
nil_of_is_empty (x ∷ xs) h = absurd (cc)

missing_none :
    (deps : List Uuid) (a : Artifacts)
    → is_empty (filter (λ d. not (contains_key a d)) deps) ≡ true
    → all_dependencies_are_in deps a ≡ true
missing_none [] a h = refl
missing_none (d ∷ deps) a h = elim (Bool-cases (contains_key a d)) [
  | inl t ↦ rw t (missing_none deps a (rw (t, if◌then◌else◌) at h))
  | inr f ↦ absurd (ground arith)
]

closed_same :
    (deps : List Uuid) (r : Received) (a : Artifacts)
    → receive_dependencies deps [] r ≡ ready a
    → r.dependencies ≡ a
unfolding receive_dependencies perform_receive
closed_same deps r a h = elim (Bool-cases (all_dependencies_are_in deps r.dependencies)) [
  | inl all_in ↦ ground arith
  | inr waits ↦ elim (Bool-cases (is_empty r.errors)) [
    | inl nothing ↦
        elim (Bool-cases (is_empty (filter (λ d. not (contains_key r.dependencies d)) deps))) [
          | inl complete ↦ ground arith
          | inr incomplete ↦ absurd (ground arith)
        ]
    | inr some_error ↦ absurd (ground arith)
  ]
]

closed_ready :
    (deps : List Uuid) (r : Received) (a : Artifacts)
    → r.errors ≡ []
    → receive_dependencies deps [] r ≡ ready a
    → all_dependencies_are_in deps a ≡ true
unfolding receive_dependencies perform_receive
closed_ready deps r a e h = elim (Bool-cases (all_dependencies_are_in deps r.dependencies)) [
  | inl all_in ↦
      let same : r.dependencies ≡ a = ground arith in
      subst (λ x. all_dependencies_are_in deps x ≡ true) same all_in
  | inr waits ↦
      elim (Bool-cases (is_empty (filter (λ d. not (contains_key r.dependencies d)) deps))) [
        | inl complete ↦
            let same : r.dependencies ≡ a = ground arith in
            subst (λ x. all_dependencies_are_in deps x ≡ true) same
              (missing_none deps r.dependencies complete)
        | inr incomplete ↦ absurd (ground arith)
      ]
]

module _ (deps : List Uuid) where
  -- The loop hands on the collected results only when the result of every dependency is there.
  pub ready_complete :
      (messages : List JobResult) (r : Received) {a : Artifacts}
      → r.errors ≡ []
      → receive_dependencies deps messages r ≡ ready a
      → all_dependencies_are_in deps a ≡ true
  unfolding receive_dependencies perform_receive
  ready_complete [] r {a} e h = closed_ready deps r a e h
  ready_complete (ok v ∷ messages) r {a} e h =
      elim (Bool-cases (all_dependencies_are_in deps r.dependencies)) [
        | inl all_in ↦
            let same : r.dependencies ≡ a = ground arith in
            subst (λ x. all_dependencies_are_in deps x ≡ true) same all_in
        | inr waits ↦
            ready_complete messages (record r { dependencies = extend r.dependencies v }) e
              (ground arith)
      ]
  ready_complete (err x ∷ messages) r {a} e h =
      elim (Bool-cases (all_dependencies_are_in deps r.dependencies)) [
        | inl all_in ↦
            let same : r.dependencies ≡ a = ground arith in
            subst (λ x. all_dependencies_are_in deps x ≡ true) same all_in
        | inr waits ↦ elim (Bool-cases (is_empty (extend r.errors x))) [
          | inl nothing ↦
              ready_complete messages (record r { errors = extend r.errors x })
                (nil_of_is_empty (extend r.errors x) nothing) (ground arith)
          | inr some_error ↦ absurd (ground arith)
        ]
      ]

  -- What holds of every result that comes in, and of two results together, holds of what the loop
  -- hands on.
  pub ready_invariant :
      (P : Artifacts → Type 0)
      → ((a b : Artifacts) → P a → P b → P (extend a b))
      → (messages : List JobResult) (r : Received) {a : Artifacts} → P r.dependencies
      → ((v : Artifacts) → In {A = JobResult} (ok v) messages → P v)
      → receive_dependencies deps messages r ≡ ready a
      → P a
  unfolding receive_dependencies perform_receive
  ready_invariant P both [] r {a} first each h = subst P (closed_same deps r a h) first
  ready_invariant P both (ok v ∷ messages) r {a} first each h =
      elim (Bool-cases (all_dependencies_are_in deps r.dependencies)) [
        | inl all_in ↦ let same : r.dependencies ≡ a = ground arith in subst P same first
        | inr waits ↦ elim (Bool-cases (is_empty r.errors)) [
          | inl nothing ↦
              ready_invariant P both messages (record r { dependencies = extend r.dependencies v })
                (both r.dependencies v first (each v (here refl))) (λ w m. each w (there m))
                (ground arith)
          | inr some_error ↦ absurd (ground arith)
        ]
      ]
  ready_invariant P both (err x ∷ messages) r {a} first each h =
      elim (Bool-cases (all_dependencies_are_in deps r.dependencies)) [
        | inl all_in ↦ let same : r.dependencies ≡ a = ground arith in subst P same first
        | inr waits ↦ elim (Bool-cases (is_empty (extend r.errors x))) [
          | inl nothing ↦
              ready_invariant P both messages (record r { errors = extend r.errors x }) first
                (λ w m. each w (there m)) (ground arith)
          | inr some_error ↦ absurd (ground arith)
        ]
      ]

  -- When messages without an error bring the results of all dependencies, the loop ends with
  -- results, whatever comes after.
  pub ready_of_all :
      (vs : List Artifacts) (rest : List JobResult) (a : Artifacts)
      → all_dependencies_are_in deps (extend_all a vs) ≡ true
      → (b : Artifacts) × (receive_dependencies deps (map ok vs ++ rest) (no_errors a) ≡ ready b)
  unfolding receive_dependencies perform_receive
  ready_of_all [] [] a h = (a, rw h)
  ready_of_all [] (m ∷ rest) a h = (a, rw h)
  ready_of_all (v ∷ vs) rest a h = elim (Bool-cases (all_dependencies_are_in deps a)) [
    | inl all_in ↦ (a, rw all_in)
    | inr waits ↦ let (b, e) = ready_of_all vs rest (extend a v) h in (b, rw waits e)
  ]

  still_waits :
      (vs : List Artifacts) (a : Artifacts)
      → all_dependencies_are_in deps (extend_all a vs) ≡ false
      → all_dependencies_are_in deps a ≡ false
  still_waits [] a h = h
  still_waits (v ∷ vs) a h =
      let next = still_waits vs (extend a v) h in
      elim (Bool-cases (all_dependencies_are_in deps a)) [
        | inr waits ↦ waits
        | inl all_in ↦
            let grown : all_dependencies_are_in deps (extend a v) ≡ true =
              all_of_In (contains_key (extend a v)) deps
                (λ d m. rw (contains_key-extend d v a, In-of_all (contains_key a) all_in m)) in
            absurd (cc)
      ]

  -- An error of a dependency that comes in while a result is still missing ends the loop with it.
  pub errored_first :
      (vs : List Artifacts) (e : Errors) (rest : List JobResult) (a : Artifacts)
      → all_dependencies_are_in deps (extend_all a vs) ≡ false
      → is_empty (extend [] e) ≡ false
      → receive_dependencies deps (map ok vs ++ err e ∷ rest) (no_errors a) ≡ errored (extend [] e)
  unfolding receive_dependencies perform_receive
  errored_first [] e rest a h n = rw (h, n)
  errored_first (v ∷ vs) e rest a h n =
      rw (still_waits (v ∷ vs) a h) (errored_first vs e rest (extend a v) h n)

  -- If the channel is closed while a result is still missing, the loop fails and names the missing
  -- dependencies.
  pub closed_early :
      (vs : List Artifacts) (a : Artifacts)
      → all_dependencies_are_in deps (extend_all a vs) ≡ false
      → receive_dependencies deps (map ok vs) (no_errors a)
        ≡ failed (dependencies_missing (filter (λ d. not (contains_key (extend_all a vs) d)) deps))
  unfolding receive_dependencies perform_receive
  closed_early [] a h = elim (Bool-cases (is_empty (filter (λ d. not (contains_key a d)) deps))) [
    | inl nothing ↦ absurd (cc (missing_none deps a nothing))
    | inr missing ↦ rw (h, missing)
  ]
  closed_early (v ∷ vs) a h = rw (still_waits (v ∷ vs) a h) (closed_early vs (extend a v) h)
