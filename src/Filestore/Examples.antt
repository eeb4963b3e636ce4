-- ===== src/Filestore/Examples.antt =====
-- An archive with a directory and a file, written to a store of one artifact.
use butido.Prelude.{◌≡◌, refl, Bool, true, false, String, List, [], ◌∷◌, ok, string_eq}
use butido.Repository.Paths.{Component, normal}
use butido.Filestore.{ArtifactPath, FileStoreImpl, load_from_path}
use butido.Filestore.Staging.{
  Entry, unpack_archive_here, load_paths, write_files_from_tar_stream, IsLoaded,
  write_files_from_tar_stream-IsLoaded,
}

abbrev staging : FileStoreImpl
staging = record { root_path = "staging"; store = "a-1.pkg" ∷ [] }

abbrev entry : Bool → String → Entry
entry is_regular name = record {
  is_regular = is_regular;
  path = ok (normal "outputs" ∷ normal name ∷ []);
  unpack = ok tt;
}

abbrev archive : List Entry
archive = entry false "" ∷ entry true "b-2.pkg" ∷ []

abbrev join : List Component → ArtifactPath
join [] = ""
join (normal s ∷ more) = s
join (_ ∷ more) = ""

abbrev after : FileStoreImpl
after = record { root_path = "staging"; store = "b-2.pkg" ∷ "a-1.pkg" ∷ [] }

writes :
    write_files_from_tar_stream join (λ p. false) (λ p. true) (ok archive) staging
    ≡ (after, ok ("b-2.pkg" ∷ []))
unfolding write_files_from_tar_stream unpack_archive_here load_paths load_from_path
writes = refl

write_files_from_tar_stream-IsLoaded_example :
    (paths : List ArtifactPath) × (unpack_archive_here join (λ p. false) (λ p. true) archive
      ≡ ok paths)
    × IsLoaded join (λ p. false) (λ p. true) paths staging after ("b-2.pkg" ∷ [])
write_files_from_tar_stream-IsLoaded_example =
    write_files_from_tar_stream-IsLoaded join (λ p. false) (λ p. true) archive staging after writes
