-- ===== src/Db/FindArtifacts/Complete.antt =====
-- Rows whose artifacts are found (src/db/find_artifacts.rs).
use butido.Prelude.{
  not-In-nil, ◌≡◌, sym, subst, inl, inr, true, Option, none, some, List, [], ◌∷◌, map, filter, In,
  here, there, In-filter_intro, In-map_intro, Result, ok, ◌>>=◌, >>=-eq-ok, collect, collect-In,
  string_eq, Bool-cases,
}
use butido.Filestore.{FileStoreImpl, get}
use butido.Orchestrator.Task.{Error}
use butido.Job.{Environment}
use butido.Db.Environments.{environments_equal}
use butido.Db.FindArtifacts.{
  Date, Row, is_file, FindArtifacts, Found, somes, join, script, is_selected, locate, find_row,
  find_artifacts,
}
use butido.Db.FindArtifacts.Wanted.{IsWanted, is_selected_intro}

In-somes_intro : {p : Found} {os : List (Option Found)} → In (some p) os → In p (somes os)
In-somes_intro {os = some q ∷ os} (here same) = here (cc)
In-somes_intro {os = none ∷ os} (here same) = absurd (cc)
In-somes_intro {os = some q ∷ os} (there m) = there (In-somes_intro m)
In-somes_intro {os = none ∷ os} (there m) = In-somes_intro m
In-somes_intro {os = []} m = absurd (not-In-nil m)

module _ (f : FindArtifacts) where
  -- The file of a row in the staging store
  abbrev pub staged_at : FileStoreImpl → Row → Option Date → Found
  staged_at staging row ndt = (record { root = staging.root_path; artifact_path = row.path }, ndt)

  -- The staging store has the artifact of the row.
  pub record IsStaged (row : Row) (staging : FileStoreImpl) (ndt : Option Date) : Type 0 where
    pub given : f.staging_store ≡ some staging
    pub held : get staging row.path ≡ some row.path
    pub file : f.kind staging.root_path row.path ≡ is_file
    pub release : row.release ≡ ok ndt

  find_row_staged :
      (row : Row) (staging : FileStoreImpl) (ndt : Option Date) (job_env : Environment)
      {o : Option Found}
      → row.env ≡ ok job_env
      → environments_equal job_env f.package'.environment f.env_filter ≡ true
      → IsStaged row staging ndt
      → find_row f row ≡ ok o
      → some (staged_at staging row ndt) ≡ o
  unfolding find_row locate join
  find_row_staged row staging ndt job_env {o} env equal s h =
      elim (Bool-cases (f.is_relative row.path)) [
        | inl relative ↦
            let e : ◌≡◌ {A = Result Error (Option Found)} (ok (some (staged_at staging row ndt)))
                (ok o) =
              rw (env, equal, s.release, relative, s.given, s.held, s.file) at h in
            cc
        | inr absolute ↦ absurd (cc (rw (env, equal, s.release, absolute) at h))
      ]

  -- If the search succeeds, it finds the artifact of every row that is wanted, whose job had an equal
  -- environment, if the staging store has the artifact.
  pub find_artifacts_staged :
      {found : List Found} {rows : List Row} {row : Row} {staging : FileStoreImpl}
      {ndt : Option Date} {job_env : Environment}
      → find_artifacts f ≡ ok found
      → f.rows ≡ ok rows
      → In row rows
      → IsWanted f row
      → row.env ≡ ok job_env
      → environments_equal job_env f.package'.environment f.env_filter ≡ true
      → IsStaged row staging ndt
      → In (staged_at staging row ndt) found
  unfolding find_artifacts
  find_artifacts_staged {found} {rows} {row} {staging} {ndt} {job_env} h loaded m w env equal
        staged =
      let (s, scripted, h1) =
        >>=-eq-ok (script f)
          (λ s. f.rows >>= λ rows.
            collect (map (find_row f) (filter (is_selected f s) rows)) >>= λ l. ok (somes l))
          h in
      let (rows', loaded', h2) =
        >>=-eq-ok f.rows
          (λ rows. collect (map (find_row f) (filter (is_selected f s) rows)) >>= λ l. ok (somes l))
          h1 in
      let (l, collected, last) =
        >>=-eq-ok (collect (map (find_row f) (filter (is_selected f s) rows'))) (λ l. ok (somes l))
          h2 in
      let e : somes l ≡ found = cc in
      let same : rows ≡ rows' = cc in
      let selected = is_selected_intro f s row scripted w in
      let at =
        In-map_intro (find_row f)
          (In-filter_intro (is_selected f s) (subst (In row) same m) selected) in
      let (o, made, kept) = collect-In collected at in
      let is = find_row_staged row staging ndt job_env env equal staged made in
      subst (In (staged_at staging row ndt)) e
        (In-somes_intro (subst (λ (x : Option Found). In x l) (sym is) kept))
