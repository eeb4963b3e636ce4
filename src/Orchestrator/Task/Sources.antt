-- ===== src/Orchestrator/Task/Sources.antt =====
-- Where the artifacts of a task come from (src/orchestrator/orchestrator.rs, `JobTask::run`).
use butido.Prelude.{
  ◌≡◌, refl, sym, ◌∙◌, ap, subst, ◌↔◌, ◌⊎◌, inl, inr, String, true, some, List, [], ◌∷◌, map, any,
  In, here, there, not-In-nil, In-append, In-append_left, In-append_right, In-map, In-map_intro,
  In-of_any, any_of_In, string_eq, Option-cases,
}
use butido.Filestore.{ArtifactPath, FileStoreImpl, get, get_same, FullArtifactPath}
use butido.Orchestrator.Task.{
  Uuid, ProducedArtifact, built, reused, was_build, unpack, Artifacts, any_built, artifacts_of,
  Services, JobTask, first_in, fetch,
}

-- An artifact that some dependency has produced
abbrev pub Produced : Artifacts → ProducedArtifact → Type 0
Produced received a = (u : Uuid) × (own : List ProducedArtifact) × In (u, own) received × In a own

was_build-built : (a : ProducedArtifact) → was_build a ≡ true → (p : ArtifactPath) × (built p ≡ a)
was_build-built (built p) h = (p, refl)
was_build-built (reused p) h = absurd (cc)

pub any_built_iff :
    (received : Artifacts)
    → (any_built received ≡ true) ↔ ((p : ArtifactPath) × Produced received (built p))
any_built_iff received = (
  λ h.
      let ((u, own), at, t) = In-of_any (λ e. any was_build e.1) received h in
      let (a, m, b) = In-of_any was_build own t in
      let (p, e) = was_build-built a b in
      (p, (u, own, at, subst (λ (x : ProducedArtifact). In x own) (sym e) m)),
  λ (p, (u, own, at, m)). any_of_In (λ e. any was_build e.1) at (any_of_In was_build m refl),
)

-- The artifacts that are handed to the build are exactly those that the dependencies produced.
pub In-artifacts_of :
    (received : Artifacts) {p : ArtifactPath}
    → In p (artifacts_of received)
    → (a : ProducedArtifact) × Produced received a × (unpack a ≡ p)
In-artifacts_of [] m = absurd (not-In-nil m)
In-artifacts_of ((u, own) ∷ more) m = elim (In-append (map unpack own) m) [
  | inl l ↦ let (a, at, e) = In-map unpack own l in (a, (u, own, here refl, at), e)
  | inr l ↦
      let (a, (v, other, at, n), e) = In-artifacts_of more l in (a, (v, other, there at, n), e)
]

pub In-artifacts_of_intro :
    {u : Uuid} {own : List ProducedArtifact} {a : ProducedArtifact} {received : Artifacts}
    → In (u, own) received
    → In a own
    → In (unpack a) (artifacts_of received)
In-artifacts_of_intro {a = a} (here {x = (v, other)} {xs = more} same) m =
    In-append_left (artifacts_of more)
      (In-map_intro unpack (subst (λ (e : Uuid × List ProducedArtifact). In a e.1) (sym same) m))
In-artifacts_of_intro (there {x = (v, other)} {xs = more} at) m =
    In-append_right (map unpack other) (In-artifacts_of_intro at m)

module _ (path : ArtifactPath) where
  In-first_in :
      (stores : List FileStoreImpl) {a : ArtifactPath}
      → first_in stores path ≡ some a
      → (s : FileStoreImpl) × In s stores × (get s path ≡ some a)
  In-first_in [] h = absurd (cc)
  In-first_in (s ∷ stores) h = elim (Option-cases (get s path)) [
    | inl missing ↦
        let (t, at, held) = In-first_in stores (rw (first_in, missing) at h) in (t, there at, held)
    | inr (q, held) ↦ (s, here refl, held ∙ (rw (first_in, held) at h))
  ]

  first_in-some :
      {s : FileStoreImpl} {stores : List FileStoreImpl} {a : ArtifactPath}
      → In s stores
      → get s path ≡ some a
      → (b : ArtifactPath) × (first_in stores path ≡ some b)
  first_in-some {a = a} (here {x = t} same) h =
      let held : get t path ≡ some a = ap (λ (x : FileStoreImpl). get x path) same ∙ h in
      (a, rw (first_in, held) refl)
  first_in-some (there {x = t} {xs = stores} at) h =
      let (b, found) = first_in-some at h in
      elim (Option-cases (get t path)) [
        | inl missing ↦ (b, rw (first_in, missing) found)
        | inr (q, held) ↦ (q, rw (first_in, held) refl)
      ]

module _ (services : Services) (task : JobTask) where
  open services use {staging_store, release_stores}

  -- The staging store or a release store has the artifact.
  abbrev pub IsHeld : ArtifactPath → Type 0
  IsHeld path =
      (get staging_store path ≡ some path)
      ⊎ ((s : FileStoreImpl) × In s release_stores × (get s path ≡ some path))

  at_path :
      (s : FileStoreImpl) (path : ArtifactPath) {a : ArtifactPath}
      → get s path ≡ some a
      → get s path ≡ some path
  at_path s path h = h ∙ ap (λ (x : String). some x) (get_same s path h)

  pub fetch-IsHeld :
      (p : FullArtifactPath) {a : ArtifactPath}
      → fetch services task p ≡ some a
      → (a ≡ p.artifact_path) × IsHeld p.artifact_path
  fetch-IsHeld p {a} h = elim (Option-cases (get staging_store p.artifact_path)) [
    | inr (q, held) ↦
        let same : some q ≡ some a = rw (fetch, held) at h in
        let is = get_same staging_store p.artifact_path held in
        (cc, inl (at_path staging_store p.artifact_path held))
    | inl missing ↦
        let (s, at, held) = In-first_in p.artifact_path release_stores (rw (fetch, missing) at h) in
        (get_same s p.artifact_path held, inr (s, at, at_path s p.artifact_path held))
  ]

  pub fetch_held :
      (p : FullArtifactPath)
      → IsHeld p.artifact_path
      → (a : ArtifactPath) × (fetch services task p ≡ some a)
  fetch_held p (inl held) = (p.artifact_path, rw (fetch, held) refl)
  fetch_held p (inr (s, at, held)) =
      let (b, found) = first_in-some p.artifact_path at held in
      elim (Option-cases (get staging_store p.artifact_path)) [
        | inl missing ↦ (b, rw (fetch, missing) found)
        | inr (q, there') ↦ (q, rw (fetch, there') refl)
      ]
