-- ===== src/Db/FindArtifacts.antt =====
-- Finding the artifacts of an equal job (src/db/find_artifacts.rs, `FindArtifacts::run`).
pub mod Wanted
pub mod Located
pub mod Complete
use butido.Prelude.{
  String, Bool, true, false, not, ◌&&◌, Option, none, some, List, [], ◌∷◌, map, filter, any, Result,
  ok, err, ◌>>=◌, map_ok, collect, ◌==◌, string_eq, if◌then◌else◌,
}
use butido.Package.Condition.{ImageName}
use butido.Package.Types.{Package}
use butido.Filestore.{ArtifactPath, StoreRoot, FileStoreImpl, get, FullArtifactPath}
use butido.Orchestrator.Task.{Error}
use butido.Job.{Environment, Script}
use butido.Db.Environments.{environments_equal}

-- A release date
abbrev pub Date : Type 0
Date = String

-- A row of the joined tables: the artifact with its job, the submit's image, and what the queries
-- for the environment and the release of the row return.
pub record Row : Type 0 where
  pub name : String
  pub version : String
  pub image : ImageName
  pub script_text : Script
  pub path : String
  pub env : Result Error Environment
  pub release : Result Error (Option Date)

-- What is at a path of the file system
pub data FileKind : Type 0 where
  is_file is_dir is_missing : FileKind

-- The fields of `FindArtifacts`, with the database and the file system
pub record FindArtifacts : Type 0 where
  pub rows : Result Error (List Row)
  pub kind : StoreRoot → ArtifactPath → FileKind
  pub is_relative : String → Bool
  pub build_script : Result Error Script
  pub release_stores : List FileStoreImpl
  pub staging_store : Option FileStoreImpl
  pub script_filter : Bool
  pub env_filter : Environment
  pub image_name : Option ImageName
  pub package' : Package

abbrev pub Found : Type 0
Found = FullArtifactPath × Option Date

-- `StoreRoot::join` (src/filestore/path.rs)
abbrev pub join_kind : FileKind → StoreRoot → ArtifactPath → Result Error (Option FullArtifactPath)
join_kind is_file root ap = ok (some (record { root = root; artifact_path = ap }))
join_kind is_dir root ap = err "Cannot load non-file path"
join_kind is_missing root ap = ok none

abbrev pub with_date : Option Date → Option FullArtifactPath → Option Found
with_date ndt none = none
with_date ndt (some p) = some (p, ndt)

-- `schema::images::name.eq_any(imgs)` and `ne_all(imgs)`
abbrev pub is_allowed : Option (List ImageName) → ImageName → Bool
is_allowed none image = true
is_allowed (some imgs) image = any (λ i. i == image) imgs

abbrev pub is_not_denied : Option (List ImageName) → ImageName → Bool
is_not_denied none image = true
is_not_denied (some imgs) image = not (any (λ i. i == image) imgs)

abbrev pub is_or_any : Option String → String → Bool
is_or_any none s = true
is_or_any (some t) s = s == t

abbrev pub somes : List (Option Found) → List Found
somes [] = []
somes (none ∷ os) = somes os
somes (some f ∷ os) = f ∷ somes os

module _ (f : FindArtifacts) where
  -- `StoreRoot::join`
  unfoldable pub join : StoreRoot → ArtifactPath → Result Error (Option FullArtifactPath)
  join root ap = join_kind (f.kind root ap) root ap

  abbrev pub script : Result Error (Option Script)
  script = if f.script_filter then map_ok (λ s. some s) f.build_script else ok none

  -- The filters of the query
  abbrev pub is_selected : Option Script → Row → Bool
  is_selected script row =
      row.name == f.package'.name
      && row.version == f.package'.version
      && is_allowed f.package'.allowed_images row.image
      && is_not_denied f.package'.denied_images row.image
      && is_or_any script row.script_text
      && is_or_any f.image_name row.image

  abbrev pub join_in :
      FileStoreImpl
      → Option ArtifactPath
      → Option Date
      → Result Error (Option Found)
      → Result Error (Option Found)
  join_in store none ndt otherwise = otherwise
  join_in store (some art) ndt otherwise = map_ok (with_date ndt) (join store.root_path art)

  -- The loop over the release stores
  unfoldable pub in_releases :
      List FileStoreImpl → ArtifactPath → Option Date → Result Error (Option Found)
  in_releases [] artpath ndt = ok none
  in_releases (s ∷ stores) artpath ndt =
      let rest = in_releases stores artpath ndt in join_in s (get s artpath) ndt rest

  abbrev pub in_staging :
      Option FileStoreImpl
      → ArtifactPath
      → Option Date
      → Result Error (Option Found)
      → Result Error (Option Found)
  in_staging none artpath ndt otherwise = otherwise
  in_staging (some staging) artpath ndt otherwise =
      join_in staging (get staging artpath) ndt otherwise

  unfoldable pub locate : ArtifactPath → Option Date → Result Error (Option Found)
  locate artpath ndt =
      in_staging f.staging_store artpath ndt (in_releases f.release_stores artpath ndt)

  -- `ArtifactPath::new`
  abbrev pub new_path : String → Result Error ArtifactPath
  new_path p = if f.is_relative p then ok p else err "Path is not relative"

  -- What the closures make of a row of the query's result; `none` is a row that is left out.
  abbrev pub released : Row → Result Error (Option Found)
  released row = do ndt ← row.release; artpath ← new_path row.path; locate artpath ndt

  unfoldable pub find_row : Row → Result Error (Option Found)
  unfolding locate
  find_row row = do
    job_env ← row.env
    if environments_equal job_env f.package'.environment f.env_filter then released row else ok none

  unfoldable pub find_artifacts : Result Error (List Found)
  unfolding find_row
  find_artifacts = do
    s ← script
    rows ← f.rows
    found ← collect (map find_row (filter (is_selected s) rows))
    ok (somes found)
