-- ===== src/Filestore/Staging.antt =====
-- The outputs of a container in the staging store: `StoreRoot::unpack_archive_here`
-- (src/filestore/path.rs) and `StagingStore::write_files_from_tar_stream`
-- (src/filestore/staging.rs).
use butido.Prelude.{
  String, ◌≡◌, refl, sym, ◌∙◌, ap, subst, inl, inr, Bool, true, not, some, List, [], ◌∷◌, arith,
  filter, any, Result, ok, err, ◌>>=◌, map_ok, map_ok-eq-ok, ◌==◌, string_eq, Bool-cases,
  if◌then◌else◌,
}
use butido.Repository.Paths.{Component, prefix_drive, root_dir, cur_dir, parent_dir, normal}
use butido.Filestore.{ArtifactPath, FileStoreImpl, get, load_from_path, get-load_from_path}

abbrev pub Error : Type 0
Error = String

-- `crate::consts::OUTPUTS_DIR_NAME`
abbrev pub outputs_dir_name : String
outputs_dir_name = "outputs"

-- An entry of an archive: whether it is a regular file, the components of its path, and what the
-- unpacking of it into the store returns
pub record Entry : Type 0 where
  pub is_regular : Bool
  pub path : Result Error (List Component)
  pub unpack : Result Error (Unit {0})

abbrev pub is_kept : Component → Bool
is_kept (normal s) = not (s == outputs_dir_name)
is_kept prefix_drive = true
is_kept root_dir = true
is_kept cur_dir = true
is_kept parent_dir = true

-- `collect::<PathBuf>()` is `join`; `is_dir` is the store's directory after the unpacking.
module _ (join : List Component → ArtifactPath) (is_dir is_relative : ArtifactPath → Bool) where
  abbrev pub unpack_entry : Entry → Result Error ArtifactPath
  unpack_entry entry = do
    components ← entry.path
    unpacked ← entry.unpack
    ok (join (filter is_kept components))

  unfoldable pub unpack_archive_here : List Entry → Result Error (List ArtifactPath)
  unpack_archive_here [] = ok []
  unpack_archive_here (entry ∷ entries) =
      let rest = unpack_archive_here entries in
      if entry.is_regular
      then (unpack_entry entry >>= λ path. map_ok (λ paths. path ∷ paths) rest)
      else rest

  abbrev pub Loaded : Type 0
  Loaded = FileStoreImpl × Result Error (List ArtifactPath)

  abbrev pub prepend_loaded : ArtifactPath → Loaded → Loaded
  prepend_loaded p (store, result) = (store, map_ok (λ ps. p ∷ ps) result)

  -- The closure of `filter_map`, and what follows it
  abbrev pub load_one : ArtifactPath → FileStoreImpl → (FileStoreImpl → Loaded) → Loaded
  load_one p store more =
      if is_dir p
      then more store
      else if is_relative p
      then prepend_loaded p (more (load_from_path store p).0)
      else (store, err "Loading from path")

  unfoldable pub load_paths : List ArtifactPath → FileStoreImpl → Loaded
  load_paths [] store = (store, ok [])
  load_paths (p ∷ ps) store = load_one p store (load_paths ps)

  -- What is loaded before an error stays in the store. The chunks of the stream are concatenated to
  -- the archive, of which `entries` are the entries.
  unfoldable pub write_files_from_tar_stream : Result Error (List Entry) → FileStoreImpl → Loaded
  unfolding load_paths unpack_archive_here
  write_files_from_tar_stream stream store = elim (stream >>= unpack_archive_here) [
    | err e ↦ (store, err e)
    | ok paths ↦ load_paths paths store
  ]

  -- The store after some paths were loaded
  pub record IsLoaded (paths : List ArtifactPath) (before after : FileStoreImpl)
      (artifacts : List ArtifactPath) : Type 0 where
    pub listed : filter (λ p. not (is_dir p)) paths ≡ artifacts
    pub same_root : before.root_path ≡ after.root_path
    pub holds :
        (q : ArtifactPath)
        → get after q ≡ (if any (λ p. p == q) artifacts then some q else get before q)

  load_paths-IsLoaded :
      (paths : List ArtifactPath) (before after : FileStoreImpl) {artifacts : List ArtifactPath}
      → load_paths paths before ≡ (after, ok artifacts)
      → IsLoaded paths before after artifacts
  unfolding load_paths
  load_paths-IsLoaded [] before after {artifacts} h =
      let same : before ≡ after = ap (λ (l : Loaded). l.0) h in
      let result = ap (λ (l : Loaded). l.1) h in
      let empty : [] ≡ artifacts = cc in
      subst (λ (l : List ArtifactPath). IsLoaded [] before after l) empty
        (record {
          listed = refl;
          same_root = ap (λ (s : FileStoreImpl). s.root_path) same;
          holds = λ q. ap (λ (s : FileStoreImpl). get s q) (sym same);
        })
  load_paths-IsLoaded (p ∷ ps) before after {artifacts} h = elim (Bool-cases (is_dir p)) [
    | inl directory ↦
        let l = load_paths-IsLoaded ps before after (rw (directory, if◌then◌else◌) at h) in
        record { listed = rw directory l.listed; same_root = l.same_root; holds = l.holds }
    | inr file ↦ elim (Bool-cases (is_relative p)) [
      | inr absolute ↦
          let failed = ap (λ (l : Loaded). l.1) (rw (file, absolute, if◌then◌else◌) at h) in
          absurd (cc)
      | inl relative ↦
          let h' = rw (file, relative, if◌then◌else◌) at h in
          let store = ap (λ (l : Loaded). l.0) h' in
          let (rest, is_rest, whole) =
            map_ok-eq-ok (λ (l : List ArtifactPath). p ∷ l)
              (load_paths ps (load_from_path before p).0).1 (ap (λ (l : Loaded). l.1) h') in
          let l = load_paths-IsLoaded ps (load_from_path before p).0 after (
            ap
              (λ (r : Result Error (List ArtifactPath)).
                ((load_paths ps (load_from_path before p).0).0, r))
              is_rest
            ∙ ap (λ (s : FileStoreImpl). (s, Result.ok rest)) store) in
          subst (IsLoaded (p ∷ ps) before after) whole (record {
            listed = rw file (ap (λ (x : List ArtifactPath). p ∷ x) l.listed);
            same_root = sym (get-load_from_path before p p).1 ∙ l.same_root;
            holds = λ q.
                let first = (get-load_from_path before p q).0 in
                let then_rest = l.holds q in
                ground (arith, string_eq.beq_iff p q, first, then_rest);
          })
    ]
  ]

  -- If the outputs are written, the returned artifacts are the unpacked files that are no
  -- directories; the store then has them, and every other path as before, and keeps its root.
  pub write_files_from_tar_stream-IsLoaded :
      (entries : List Entry) (before after : FileStoreImpl) {artifacts : List ArtifactPath}
      → write_files_from_tar_stream (ok entries) before ≡ (after, ok artifacts)
      → (paths : List ArtifactPath) × (unpack_archive_here entries ≡ ok paths)
        × IsLoaded paths before after artifacts
  unfolding write_files_from_tar_stream
  write_files_from_tar_stream-IsLoaded entries before after {artifacts} h =
      of_result (unpack_archive_here entries) refl h
    where
      of_result :
          (r : Result Error (List ArtifactPath))
          → unpack_archive_here entries ≡ r
          → (elim r [ err e ↦ (before, err e) | ok paths ↦ load_paths paths before ])
            ≡ (after, ok artifacts)
          → (paths : List ArtifactPath) × (unpack_archive_here entries ≡ ok paths)
            × IsLoaded paths before after artifacts
      of_result (err e) is g = let failed = ap (λ (l : Loaded). l.1) g in absurd (cc)
      of_result (ok paths) is g = (paths, is, load_paths-IsLoaded paths before after g)
