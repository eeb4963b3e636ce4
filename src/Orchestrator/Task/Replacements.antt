-- ===== src/Orchestrator/Task/Replacements.antt =====
-- What replaces the artifacts of a job (src/orchestrator/orchestrator.rs, `JobTask::run`).
use butido.Prelude.{
  ◌≡◌, refl, sym, ◌∙◌, ap, subst, ◌↔◌, inl, inr, Bool, not, Option, none, some, List, [], ◌∷◌, ◌++◌,
  filter, unique_by, In, here, there, not-In-nil, In-append, In-append_left, In-append_right,
  In-filter, In-filter_intro, In-unique_by, In-unique_by_intro, nat_eq, string_eq, Bool-cases,
  Option-cases,
}
use butido.Filestore.{ArtifactPath, FullArtifactPath, is_in_staging_store}
use butido.Orchestrator.Task.{
  ProducedArtifact, reused, Services, JobTask, fetch, fetch_all, prepend_reused, replacements,
}
use butido.Orchestrator.Task.Sources.{IsHeld, fetch-IsHeld, fetch_held}

module _ (services : Services) (task : JobTask) where
  open services use {RunnableJob, find_artifacts, staging_store, build_from_job, run_job, is_open}

  -- What the search found and a store holds
  abbrev pub Replaces : List FullArtifactPath → ProducedArtifact → Type 0
  Replaces found a =
      (p : FullArtifactPath) × In p found
      × IsHeld services task p.artifact_path
      × (reused p.artifact_path ≡ a)

  In-fetch_all :
      (ps : List FullArtifactPath) {a : ProducedArtifact}
      → In a (fetch_all services task ps)
      → Replaces ps a
  In-fetch_all [] m = absurd (not-In-nil m)
  In-fetch_all (p ∷ ps) {a} m = of_fetch (fetch services task p) refl m (λ l. In-fetch_all ps l)
    where
      of_fetch :
          (o : Option ArtifactPath)
          → fetch services task p ≡ o
          → In a (prepend_reused services task o (fetch_all services task ps))
          → (In a (fetch_all services task ps) → Replaces ps a)
          → Replaces (p ∷ ps) a
      of_fetch (some b) e (here same) below =
          let (is, held) = fetch-IsHeld services task p e in
          (p, here refl, held, ap (λ (x : ArtifactPath). reused x) (sym is) ∙ same)
      of_fetch (some b) e (there l) below =
          let (q, at, held, is) = below l in (q, there at, held, is)
      of_fetch none e l below = let (q, at, held, is) = below l in (q, there at, held, is)

  In-fetch_all_intro :
      {p : FullArtifactPath} {ps : List FullArtifactPath}
      → In p ps
      → IsHeld services task p.artifact_path
      → In (reused p.artifact_path) (fetch_all services task ps)
  In-fetch_all_intro {p} (here {x = q} {xs = ps} same) held =
      let held' : IsHeld services task q.artifact_path =
        subst (λ (x : FullArtifactPath). IsHeld services task x.artifact_path) (sym same) held in
      let (b, e) = fetch_held services task q held' in
      let is = (fetch-IsHeld services task q e).0 in
      let path : b ≡ p.artifact_path = is ∙ ap (λ (x : FullArtifactPath). x.artifact_path) same in
      subst
        (λ (o : Option ArtifactPath).
          In (reused p.artifact_path) (prepend_reused services task o (fetch_all services task ps)))
        (sym e) (here (ap (λ (x : ArtifactPath). reused x) path))
  In-fetch_all_intro {p} (there {x = q} {xs = ps} at) held =
      let below = In-fetch_all_intro at held in
      elim (Option-cases (fetch services task q)) [
        | inl nothing ↦
            subst
              (λ (o : Option ArtifactPath).
                In (reused p.artifact_path)
                  (prepend_reused services task o (fetch_all services task ps)))
              (sym nothing) below
        | inr (b, e) ↦
            subst
              (λ (o : Option ArtifactPath).
                In (reused p.artifact_path)
                  (prepend_reused services task o (fetch_all services task ps)))
              (sym e) (there below)
      ]

  abbrev is_staged : FullArtifactPath → Bool
  is_staged p = is_in_staging_store p staging_store

  abbrev by_store : List FullArtifactPath → List FullArtifactPath
  by_store found = filter (λ p. not (is_staged p)) found ++ filter is_staged found

  In-by_store :
      (found : List FullArtifactPath) {p : FullArtifactPath} → In p (by_store found) → In p found
  In-by_store found m = elim (In-append (filter (λ p. not (is_staged p)) found) m) [
    | inl l ↦ (In-filter (λ p. not (is_staged p)) found l).0
    | inr l ↦ (In-filter is_staged found l).0
  ]

  In-by_store_intro :
      {found : List FullArtifactPath} {p : FullArtifactPath} → In p found → In p (by_store found)
  In-by_store_intro {found} {p} m = elim (Bool-cases (is_staged p)) [
    | inl staged ↦
        In-append_right (filter (λ p. not (is_staged p)) found) (In-filter_intro is_staged m staged)
    | inr other ↦
        In-append_left (filter is_staged found)
          (In-filter_intro (λ p. not (is_staged p)) m (rw other refl))
  ]

  -- The replacements are exactly what the search found and a store holds.
  pub In-replacements :
      (found : List FullArtifactPath) {a : ProducedArtifact}
      → In a (replacements services task found) ↔ Replaces found a
  unfolding replacements
  In-replacements found {a} = (
    λ m.
        let (p, at, held, is) =
          In-fetch_all (unique_by (λ p. p.artifact_path) (by_store found)) m in
        (p, In-by_store found (In-unique_by (λ p. p.artifact_path) (by_store found) at), held, is),
    λ (p, at, held, is).
        let (q, kept, same) =
          In-unique_by_intro (λ (p : FullArtifactPath). p.artifact_path) (In-by_store_intro at) in
        let held' = subst (λ (x : ArtifactPath). IsHeld services task x) (sym same) held in
        subst
          (λ (x : ProducedArtifact).
            In x (fetch_all services task (unique_by (λ p. p.artifact_path) (by_store found))))
          (ap (λ (x : ArtifactPath). reused x) same ∙ is) (In-fetch_all_intro kept held'),
  )
