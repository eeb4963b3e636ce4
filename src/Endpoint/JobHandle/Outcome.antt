-- ===== src/Endpoint/JobHandle/Outcome.antt =====
-- How the run of a job ends (src/endpoint/scheduler.rs).
use butido.Prelude.{
  ◌≡◌, refl, sym, ◌∙◌, ap, subst, String, Bool, true, false, Option, none, some, List, [], ◌∷◌, map,
  In, here, there, not-In-nil, Result, ok, err, ◌>>=◌, >>=-eq-ok, map_ok, map_ok-eq-ok, collect,
}
use butido.Filestore.{ArtifactPath, FileStoreImpl, get, get_same}
use butido.Orchestrator.Task.{Error}
use butido.Log.{LogItem}
use butido.Job.{Environment, RunnableJob}
use butido.Endpoint.Container.{
  ExitInfo, exit_info, receive_line, execute_script, FinalizedContainer, fetch_outputs, finalize,
}
use butido.Endpoint.Container.ExitInfo.{first_error, has_success, verdict, exit_info_lem}
use butido.Endpoint.JobHandle.{
  Backend, create_env, create_env_in_db, create_job_envs, or_not_in_store, create_artifacts,
  of_exit, record_result, run_on,
}

module _ (b : Backend) where
  -- The variables that are recorded are those of the package and of the resources.
  pub collect-create_env :
      (es : Environment) {es' : Environment} → collect (map (create_env b) es) ≡ ok es' → es ≡ es'
  collect-create_env [] h = cc
  collect-create_env (e ∷ es) {es'} h =
      of_first (b.env_create_or_fetch e) (λ rest c. collect-create_env es c) h
    where
      of_first :
          (r : Result Error (Unit {0}))
          → ((rest : Environment) → collect (map (create_env b) es) ≡ ok rest → es ≡ rest)
          → collect (map_ok (λ u. e) r ∷ map (create_env b) es) ≡ ok es'
          → e ∷ es ≡ es'
      of_first (err x) below g = absurd (cc)
      of_first (ok u) below g =
          let (rest, collected, same) =
            map_ok-eq-ok (λ l. e ∷ l) (collect (map (create_env b) es)) g in
          ap (λ (l : Environment). e ∷ l) (below rest collected) ∙ same

  held_of : (o : Option ArtifactPath) {a : ArtifactPath} → or_not_in_store b o ≡ ok a → o ≡ some a
  held_of none h = absurd (cc)
  held_of (some a) h = cc

  -- An artifact that is in the store and recorded in the database
  pub record IsStored (staging : FileStoreImpl) (p : ArtifactPath) : Type 0 where
    pub held : get staging p ≡ some p
    pub recorded : b.artifact_create p ≡ ok tt

  create_artifacts-IsStored :
      (staging : FileStoreImpl) (paths : List ArtifactPath) {arts : List ArtifactPath}
      → create_artifacts b staging paths ≡ ok arts
      → (paths ≡ arts) × ((p : ArtifactPath) → In p paths → IsStored staging p)
  unfolding create_artifacts
  create_artifacts-IsStored staging [] h = (cc, λ p m. absurd (not-In-nil m))
  create_artifacts-IsStored staging (p ∷ paths) {arts} h =
      let (u, recorded, h1) =
        >>=-eq-ok (b.artifact_create p)
          (λ u. or_not_in_store b (get staging p) >>= λ a.
            create_artifacts b staging paths >>= λ l. ok (a ∷ l))
          h in
      let (a, found, h2) =
        >>=-eq-ok (or_not_in_store b (get staging p))
          (λ a. create_artifacts b staging paths >>= λ l. ok (a ∷ l)) h1 in
      let (rest, created, last) =
        >>=-eq-ok (create_artifacts b staging paths) (λ l. ok (a ∷ l)) h2 in
      let (same_rest, stored) = create_artifacts-IsStored staging paths created in
      let held = held_of (get staging p) found in
      let same = get_same staging p held in
      let whole : a ∷ rest ≡ arts = cc in
      let one : IsStored staging p = record {
        held = held ∙ ap (λ (x : String). some x) same;
        recorded = recorded;
      } in
      (
        ap (λ (x : String). x ∷ paths) (sym same)
            ∙ ap (λ (l : List String). a ∷ l) same_rest
            ∙ whole,
        λ q m. split one stored q m,
      )
    where
      split :
          IsStored staging p
          → ((q : ArtifactPath) → In q paths → IsStored staging q)
          → (q : ArtifactPath) → In q (p ∷ paths)
          → IsStored staging q
      split one stored q (here e) = subst (IsStored staging) e one
      split one stored q (there m) = stored q m

  -- What a run that came to a result says of the script's log
  pub record IsSuccess (staging st : FileStoreImpl) (arts : List ArtifactPath) : Type 0 where
    pub items : List LogItem
    pub logged : collect (map (receive_line b.script_run) b.script_run.lines) ≡ ok items
    pub no_error : first_error items ≡ none
    pub written : b.finishing.write_files staging ≡ ok (st, arts)
    pub stored : (p : ArtifactPath) → In p arts → IsStored st p

  pub record IsFailure (staging st : FileStoreImpl) (msg : String) : Type 0 where
    pub items : List LogItem
    pub logged : collect (map (receive_line b.script_run) b.script_run.lines) ≡ ok items
    pub error : first_error items ≡ some msg
    pub unchanged : staging ≡ st

  abbrev pub Ends : FileStoreImpl → FileStoreImpl → Result String (List ArtifactPath) → Type 0
  Ends staging st (ok arts) = IsSuccess staging st arts
  Ends staging st (err msg) = IsFailure staging st msg

  module _ (staging : FileStoreImpl) (items : List LogItem)
      (logged : collect (map (receive_line b.script_run) b.script_run.lines) ≡ ok items) where
    finish : ExitInfo → Result Error (FileStoreImpl × Result String (List ArtifactPath))
    finish exit =
        finalize b.finishing exit staging >>= λ x. of_exit b x.0 x.1.artifacts x.1.exit_info

    outputs-Ends :
        (st : FileStoreImpl) (r : Result String (List ArtifactPath))
        → first_error items ≡ none
        → (fetch_outputs b.finishing staging >>= λ x. of_exit b x.0 x.1.artifacts x.1.exit_info)
          ≡ ok (st, r)
        → Ends staging st r
    outputs-Ends st r clean h =
        let (x, fetched, h1) =
          >>=-eq-ok (fetch_outputs b.finishing staging)
            (λ x. of_exit b x.0 x.1.artifacts x.1.exit_info) h in
        let ((st1, paths), written, h2) =
          >>=-eq-ok (b.finishing.write_files staging)
            (λ w. b.finishing.stop >>= λ s. ok (w.0, record { artifacts = w.1; exit_info = ok tt }))
            fetched in
        let (u, stopped, last) =
          >>=-eq-ok b.finishing.stop
            (λ s. ok (st1, record { artifacts = paths; exit_info = ok tt })) h2 in
        let e : ◌≡◌ {A = FileStoreImpl × FinalizedContainer}
            (st1, record { artifacts = paths; exit_info = ok tt }) x =
          cc in
        let h3 : map_ok (λ l. (st1, ok l)) (create_artifacts b st1 paths) ≡ ok (st, r) =
          ap (λ (y : FileStoreImpl × FinalizedContainer). of_exit b y.0 y.1.artifacts y.1.exit_info)
            e
          ∙ h1 in
        let (arts, created, whole) =
          map_ok-eq-ok (λ l. (st1, ok l)) (create_artifacts b st1 paths) h3 in
        let (same, stored) = create_artifacts-IsStored st1 paths created in
        subst (λ (y : FileStoreImpl × Result String (List ArtifactPath)). Ends staging y.0 y.1)
          whole
          (record {
            items = items;
            logged = logged;
            no_error = clean;
            written = written ∙ ap (λ (l : List String). ok (st1, l)) same;
            stored =
                subst (λ (l : List String). (p : ArtifactPath) → In p l → IsStored st1 p) same
                  stored;
          })

    verdict-Ends :
        (o : Option String) (s : Bool) (st : FileStoreImpl) (r : Result String (List ArtifactPath))
        → first_error items ≡ o
        → (finalize b.finishing (verdict o s) staging >>= λ x.
            of_exit b x.0 x.1.artifacts x.1.exit_info)
          ≡ ok (st, r)
        → Ends staging st r
    unfolding finalize
    verdict-Ends none true st r e h = outputs-Ends st r e h
    verdict-Ends none false st r e h = outputs-Ends st r e h
    verdict-Ends (some msg) s st r e h =
        let whole : ◌≡◌ {A = FileStoreImpl × Result String (List ArtifactPath)} (staging, err msg)
            (st, r) =
          cc in
        subst (λ (y : FileStoreImpl × Result String (List ArtifactPath)). Ends staging y.0 y.1)
          whole (record { items = items; logged = logged; error = e; unchanged = refl })

  -- If the run of a job comes to artifacts, the script's log has no error, the artifacts are those
  -- that the container wrote, and each of them is in the staging store and in the database. If it
  -- comes to a failure, this is the first error in the log, and the staging store is unchanged.
  pub run_on-Ends :
      (job : RunnableJob) (staging st : FileStoreImpl) (r : Result String (List ArtifactPath))
      → run_on b job staging ≡ ok (st, r)
      → Ends staging st r
  unfolding run_on record_result execute_script
  run_on-Ends job staging st r h =
      let (items, logged, h') = last_steps r h in ends items logged r h'
    where
      ends :
          (items : List LogItem)
          → (logged : collect (map (receive_line b.script_run) b.script_run.lines) ≡ ok items)
          → (r : Result String (List ArtifactPath))
          → (finalize b.finishing (exit_info items) staging >>= λ x.
              of_exit b x.0 x.1.artifacts x.1.exit_info)
            ≡ ok (st, r)
          → Ends staging st r
      ends items logged r h =
          verdict-Ends staging items logged (first_error items) (has_success items) st r refl (
            ap
              (λ (x : ExitInfo).
                finalize b.finishing x staging >>= λ y. of_exit b y.0 y.1.artifacts y.1.exit_info)
              (sym (exit_info_lem items))
            ∙ h)

      last_steps :
          (r : Result String (List ArtifactPath))
          → run_on b job staging ≡ ok (st, r)
          → (items : List LogItem) × (collect (map (receive_line b.script_run) b.script_run.lines)
              ≡ ok items)
            × ((finalize b.finishing (exit_info items) staging >>= λ x.
                  of_exit b x.0 x.1.artifacts x.1.exit_info)
                ≡ ok (st, r))
      last_steps r h =
          let (u1, _, h1) = >>=-eq-ok b.create_or_fetch (λ _. from_env) h in
          let (es, _, h2) = >>=-eq-ok (create_env_in_db b job) from_prepare h1 in
          let (u3, _, h3) = >>=-eq-ok b.prepare_container (λ _. from_start es) h2 in
          let (u4, _, h4) = >>=-eq-ok b.start (λ _. from_log es) h3 in
          let (log, _, h5) = >>=-eq-ok b.log (from_script es) h4 in
          let (exit, ran, h6) =
            >>=-eq-ok (execute_script b.script_run) (λ exit. record_result b es exit log staging)
              h5 in
          let (items, logged, is) =
            map_ok-eq-ok exit_info (collect (map (receive_line b.script_run) b.script_run.lines))
              ran in
          let (u7, _, h7) = >>=-eq-ok (b.job_create log) (λ _. from_envs es exit) h6 in
          let (u8, _, h8) = >>=-eq-ok (create_job_envs b es) (λ _. from_exit exit) h7 in
          (items, logged, ap from_exit is ∙ h8)
        where
          from_exit : ExitInfo → Result Error (FileStoreImpl × Result String (List ArtifactPath))
          from_exit exit =
              finalize b.finishing exit staging >>= λ x. of_exit b x.0 x.1.artifacts x.1.exit_info

          from_envs :
              Environment
              → ExitInfo
              → Result Error (FileStoreImpl × Result String (List ArtifactPath))
          from_envs es exit = create_job_envs b es >>= λ _. from_exit exit

          from_script :
              Environment
              → String
              → Result Error (FileStoreImpl × Result String (List ArtifactPath))
          from_script es log =
              execute_script b.script_run >>= λ exit. record_result b es exit log staging

          from_log : Environment → Result Error (FileStoreImpl × Result String (List ArtifactPath))
          from_log es = b.log >>= from_script es

          from_start :
              Environment → Result Error (FileStoreImpl × Result String (List ArtifactPath))
          from_start es = b.start >>= λ _. from_log es

          from_prepare :
              Environment → Result Error (FileStoreImpl × Result String (List ArtifactPath))
          from_prepare es = b.prepare_container >>= λ _. from_start es

          from_env : Result Error (FileStoreImpl × Result String (List ArtifactPath))
          from_env = create_env_in_db b job >>= from_prepare
