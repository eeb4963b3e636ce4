-- ===== src/Db/FindArtifacts/Located.antt =====
-- What the artifacts that are found have to do with the job (src/db/find_artifacts.rs).
use butido.Prelude.{
  ◌⊎◌, ◌≡◌, refl, sym, ◌∙◌, ap, subst, inl, inr, String, true, Option, none, some, List, [], ◌∷◌,
  map, filter, arith, In, here, there, not-In-nil, In-filter, In-map, ok, ◌>>=◌, >>=-eq-ok, map_ok,
  collect, In-collect, string_eq, Bool-cases, Option-cases, if◌then◌else◌,
}
use butido.Filestore.{ArtifactPath, StoreRoot, FileStoreImpl, get, get_same}
use butido.Job.{Environment}
use butido.Db.Environments.{environments_equal}
use butido.Db.FindArtifacts.{
  Date, Row, FileKind, is_file, is_dir, is_missing, FindArtifacts, Found, join_kind, with_date,
  somes, join, script, is_selected, join_in, in_releases, in_staging, locate, new_path, released,
  find_row, find_artifacts,
}
use butido.Db.FindArtifacts.Wanted.{IsWanted, is_selected-IsWanted}

In-somes : (os : List (Option Found)) {p : Found} → In p (somes os) → In (some p) os
In-somes [] m = absurd (not-In-nil m)
In-somes (none ∷ os) m = there (In-somes os m)
In-somes (some q ∷ os) (here same) = here (ap (λ (x : Found). some x) same)
In-somes (some q ∷ os) (there m) = there (In-somes os m)

module _ (f : FindArtifacts) where
  -- The file with the path of a row in a store that has it
  pub record IsIn (artpath : ArtifactPath) (ndt : Option Date) (store : FileStoreImpl) (p : Found)
      : Type 0 where
    pub held : get store artpath ≡ some artpath
    pub at_root : p.0.root ≡ store.root_path
    pub same_path : p.0.artifact_path ≡ artpath
    pub dated : p.1 ≡ ndt
    pub file : f.kind store.root_path artpath ≡ is_file

  -- The staging store or one of the release stores has the artifact.
  pub record IsLocated (artpath : ArtifactPath) (ndt : Option Date) (p : Found) : Type 0 where
    pub store : FileStoreImpl
    pub known : (f.staging_store ≡ some store) ⊎ In store f.release_stores
    pub holds : IsIn artpath ndt store p

  of_kind :
      (k : FileKind) (root : StoreRoot) (art : ArtifactPath) (ndt : Option Date) {p : Found}
      → map_ok (with_date ndt) (join_kind k root art) ≡ ok (some p)
      → (k ≡ is_file) × (◌≡◌ {A = Found} (record { root = root; artifact_path = art }, ndt) p)
  of_kind is_file root art ndt h = (refl, cc)
  of_kind is_dir root art ndt h = absurd (cc)
  of_kind is_missing root art ndt h = absurd (cc)

  joined :
      (store : FileStoreImpl) (artpath art : ArtifactPath) (ndt : Option Date) {p : Found}
      → get store artpath ≡ some art
      → map_ok (with_date ndt) (join f store.root_path art) ≡ ok (some p)
      → IsIn artpath ndt store p
  unfolding join
  joined store artpath art ndt held h =
      let (kind, e) = of_kind (f.kind store.root_path art) store.root_path art ndt h in
      let same = get_same store artpath held in
      record {
        held = held ∙ ap (λ (x : String). some x) same;
        at_root = ap (λ (x : Found). x.0.root) (sym e);
        same_path = ap (λ (x : Found). x.0.artifact_path) (sym e) ∙ same;
        dated = ap (λ (x : Found). x.1) (sym e);
        file = ap (f.kind store.root_path) (sym same) ∙ kind;
      }

  In-one :
      (stores : List FileStoreImpl) (artpath : ArtifactPath) (ndt : Option Date) {p : Found}
      → in_releases f stores artpath ndt ≡ ok (some p)
      → (s : FileStoreImpl) × In s stores × IsIn artpath ndt s p
  unfolding in_releases
  In-one [] artpath ndt h = absurd (cc)
  In-one (s ∷ stores) artpath ndt {p} h = elim (Option-cases (get s artpath)) [
    | inl missing ↦
        let rest : in_releases f stores artpath ndt ≡ ok (some p) =
          ap (λ (o : Option String). join_in f s o ndt (in_releases f stores artpath ndt))
            (sym missing)
          ∙ h in
        let (t, m, i) = In-one stores artpath ndt rest in (t, there m, i)
    | inr (art, held) ↦ (
      s,
      here refl,
      joined s artpath art ndt held (
          ap (λ (o : Option String). join_in f s o ndt (in_releases f stores artpath ndt))
            (sym held)
          ∙ h),
    )
  ]

  of_releases :
      (artpath : ArtifactPath) (ndt : Option Date) {p : Found}
      → in_releases f f.release_stores artpath ndt ≡ ok (some p)
      → IsLocated artpath ndt p
  of_releases artpath ndt h =
      let (s, m, i) = In-one f.release_stores artpath ndt h in
      record { store = s; known = inr m; holds = i }

  of_staging :
      (o : Option FileStoreImpl) (artpath : ArtifactPath) (ndt : Option Date) {p : Found}
      → f.staging_store ≡ o
      → in_staging f o artpath ndt (in_releases f f.release_stores artpath ndt) ≡ ok (some p)
      → IsLocated artpath ndt p
  of_staging none artpath ndt e h = of_releases artpath ndt h
  of_staging (some staging) artpath ndt {p} e h = elim (Option-cases (get staging artpath)) [
    | inl missing ↦ of_releases artpath ndt (taken none missing)
    | inr (art, held) ↦ record {
      store = staging;
      known = inl e;
      holds = joined staging artpath art ndt held (taken (some art) held);
    }
  ]
    where
      taken :
          (o : Option ArtifactPath)
          → get staging artpath ≡ o
          → join_in f staging o ndt (in_releases f f.release_stores artpath ndt) ≡ ok (some p)
      taken o is =
          ap
            (λ (o : Option String).
              join_in f staging o ndt (in_releases f f.release_stores artpath ndt))
            (sym is)
          ∙ h

  -- An artifact that was found for a row: the job of the row had an equal environment, and the
  -- artifact is located in one of the stores.
  pub record IsFound (row : Row) (p : Found) : Type 0 where
    pub job_env : Environment
    pub env : row.env ≡ ok job_env
    pub equal : environments_equal job_env f.package'.environment f.env_filter ≡ true
    pub ndt : Option Date
    pub release : row.release ≡ ok ndt
    pub located : IsLocated row.path ndt p

  find_row-IsFound : (row : Row) {p : Found} → find_row f row ≡ ok (some p) → IsFound row p
  unfolding find_row locate
  find_row-IsFound row {p} h =
      let (job_env, env, rest) =
        >>=-eq-ok row.env
          (λ e.
            if environments_equal e f.package'.environment f.env_filter
            then released f row
            else ok none)
          h in
      elim (Bool-cases (environments_equal job_env f.package'.environment f.env_filter)) [
        | inr differ ↦
            let no_artifact : ok none ≡ ok (some p) = rw (differ, if◌then◌else◌) at rest in
            absurd (cc)
        | inl equal ↦
            let rest' : released f row ≡ ok (some p) = rw (equal, if◌then◌else◌) at rest in
            let (ndt, release, more) =
              >>=-eq-ok row.release (λ n. new_path f row.path >>= λ a. locate f a n) rest' in
            let (artpath, made, last) =
              >>=-eq-ok (new_path f row.path) (λ a. locate f a ndt) more in
            record {
              job_env = job_env;
              env = env;
              equal = equal;
              ndt = ndt;
              release = release;
              located =
                  subst (λ (a : String). IsLocated a ndt p) (path_same made)
                    (of_staging f.staging_store artpath ndt refl last);
            }
      ]
    where
      path_same : {a : ArtifactPath} → new_path f row.path ≡ ok a → a ≡ row.path
      path_same made = elim (Bool-cases (f.is_relative row.path)) [
        | inl relative ↦ ground arith
        | inr absolute ↦ absurd (ground arith)
      ]

  -- Every artifact that is found belongs to a row of the wanted package, whose job ran in an allowed
  -- image that is not denied, in the given image if one is given, with the script of the package if
  -- scripts are compared, and had an environment equal to that of the package with the additional
  -- variables; it is a file of the staging store or of a release store, at the path of the row.
  pub find_artifacts-IsFound :
      {found : List Found} {p : Found}
      → find_artifacts f ≡ ok found
      → In p found
      → (rows : List Row) × (row : Row) × (f.rows ≡ ok rows)
        × In row rows
        × IsWanted f row
        × IsFound row p
  unfolding find_artifacts
  find_artifacts-IsFound {found} {p} h m =
      let (s, scripted, h1) =
        >>=-eq-ok (script f)
          (λ s. f.rows >>= λ rows.
            collect (map (find_row f) (filter (is_selected f s) rows)) >>= λ l. ok (somes l))
          h in
      let (rows, loaded, h2) =
        >>=-eq-ok f.rows
          (λ rows. collect (map (find_row f) (filter (is_selected f s) rows)) >>= λ l. ok (somes l))
          h1 in
      let (l, collected, last) =
        >>=-eq-ok (collect (map (find_row f) (filter (is_selected f s) rows))) (λ l. ok (somes l))
          h2 in
      let e : somes l ≡ found = cc in
      let at =
        In-collect (map (find_row f) (filter (is_selected f s) rows)) collected
          (In-somes l (subst (In p) (sym e) m)) in
      let (row, kept, made) = In-map (find_row f) (filter (is_selected f s) rows) at in
      let (held, selected) = In-filter (is_selected f s) rows kept in
      (
        rows,
        row,
        loaded,
        held,
        is_selected-IsWanted f s row scripted selected,
        find_row-IsFound row made,
      )
