-- ===== src/Endpoint/Scheduler/Selection.antt =====
-- Which endpoint is selected (src/endpoint/scheduler.rs).
use butido.Prelude.{
  ℕ, ◌≡◌, refl, subst, inl, inr, true, false, Option, none, some, List, [], ◌∷◌, In, here, there,
  Bool-cases, if◌then◌else◌,
}
use butido.Endpoint.Scheduler.{Heap, Floats, not_above, is_free, insert_sorted, sorted, next}

module _ (floats : Floats) (heap : Heap) where
  -- The endpoints compare as numbers do; a NaN would come from an endpoint without jobs only, and
  -- such an endpoint is never free.
  pub record IsOrdered (ps : List ℕ) : Type 0 where
    pub total :
        (p q : ℕ)
        → In p ps
        → In q ps
        → not_above floats heap p q ≡ false
        → not_above floats heap q p ≡ true
    pub trans :
        (p q r : ℕ)
        → In p ps
        → In q ps
        → In r ps
        → not_above floats heap p q ≡ true
        → not_above floats heap q r ≡ true
        → not_above floats heap p r ≡ true
    pub same : (p : ℕ) → In p ps → not_above floats heap p p ≡ true

  -- The first of a list when `p` is inserted
  abbrev chosen : ℕ → Option ℕ → ℕ
  chosen p none = p
  chosen p (some q) = if not_above floats heap p q then p else q

  next-insert_sorted :
      (p : ℕ) (ps : List ℕ)
      → next floats (insert_sorted floats heap p ps) ≡ some (chosen p (next floats ps))
  next-insert_sorted p [] = refl
  next-insert_sorted p (q ∷ ps) = elim (Bool-cases (not_above floats heap p q)) [
    | inl below ↦ rw below refl
    | inr above ↦ rw above refl
  ]

  -- What is selected is in the list, however the endpoints compare.
  pub In-next-sorted :
      (ps : List ℕ) {m : ℕ} → next floats (sorted floats heap ps) ≡ some m → In m ps
  In-next-sorted [] h = absurd (cc)
  In-next-sorted (p ∷ ps) {m} h =
      let first = next-insert_sorted p (sorted floats heap ps) in
      let same : chosen p (next floats (sorted floats heap ps)) ≡ m = cc in
      of_rest (next floats (sorted floats heap ps)) (λ q e. In-next-sorted ps e) same
    where
      of_rest : (o : Option ℕ) → ((q : ℕ) → o ≡ some q → In q ps) → chosen p o ≡ m → In m (p ∷ ps)
      of_rest none inside e = here e
      of_rest (some q) inside e = elim (Bool-cases (not_above floats heap p q)) [
        | inl below ↦ here (rw (below, if◌then◌else◌) at e)
        | inr above ↦
            there (subst (λ (x : ℕ). In x ps) (rw (above, if◌then◌else◌) at e) (inside q refl))
      ]

  -- One of the list that is not above any other of it
  pub record IsLeast (ps : List ℕ) (m : ℕ) : Type 0 where
    pub held : In m ps
    pub least : (q : ℕ) → In q ps → not_above floats heap m q ≡ true

  abbrev pub IsSelected : List ℕ → Option ℕ → Type 0
  IsSelected endpoints none = (q : ℕ) → In q endpoints → is_free floats heap q ≡ false
  IsSelected endpoints (some p) =
      In p endpoints
      × (is_free floats heap p ≡ true)
      × ((q : ℕ) → In q endpoints → is_free floats heap q ≡ true → not_above floats heap p q ≡ true)
