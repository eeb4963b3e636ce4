-- ===== src/Db/Examples.antt =====
-- A job of the database with the same variables in another order, and its artifact in a release store.
use butido.Prelude.{
  String, ◌≡◌, refl, ◌↔◌, ◌⊎◌, true, some, none, List, [], ◌∷◌, subst, In, here, there, not-In-nil,
  ok, map_get, string_eq, pair_eq,
}
use butido.Filestore.{FileStoreImpl, get}
use butido.Job.{Environment, entries}
use butido.Job.Examples.{hello}
use butido.Db.Environments.{environments_equal, IsMapping, environments_equal_iff}
use butido.Db.FindArtifacts.{
  Row, is_file, FindArtifacts, Found, join, in_releases, locate, find_row, find_artifacts,
}
use butido.Db.FindArtifacts.Wanted.{IsWanted}
use butido.Db.FindArtifacts.Located.{IsFound, find_artifacts-IsFound}

abbrev wanted : Environment
wanted = ("LANG", "C") ∷ []

abbrev row : Row
row = record {
  name = "hello";
  version = "1";
  image = "debian";
  script_text = "make";
  path = "hello-1.pkg";
  env = ok (("LANG", "C") ∷ ("CFLAGS", "-O2") ∷ []);
  release = ok (some "2021-05-01");
}

abbrev release : FileStoreImpl
release = record { root_path = "release"; store = "hello-1.pkg" ∷ [] }

abbrev search : FindArtifacts
search = record {
  rows = ok (record row { version = "0" } ∷ row ∷ []);
  kind = λ root path. is_file;
  is_relative = λ p. true;
  build_script = ok "make";
  release_stores = release ∷ [];
  staging_store = some (record { root_path = "staging"; store = [] });
  script_filter = true;
  env_filter = wanted;
  image_name = none;
  package' = hello;
}

abbrev located : Found
located = (record { root = "release"; artifact_path = "hello-1.pkg" }, some "2021-05-01")

finds : find_artifacts search ≡ ok (located ∷ [])
unfolding find_artifacts find_row locate in_releases join environments_equal get
finds = refl

find_artifacts-IsFound_example :
    (rows : List Row) × (r : Row) × (search.rows ≡ ok rows)
    × In r rows
    × IsWanted search r
    × IsFound search r located
find_artifacts-IsFound_example = find_artifacts-IsFound search finds (here refl)

pub hello-IsMapping : IsMapping (entries hello.environment)
hello-IsMapping k v (here same) =
    subst (λ (e : String × String). map_get e.0 (("CFLAGS", "-O2") ∷ []) ≡ some e.1) same refl
hello-IsMapping k v (there m) = absurd (not-In-nil m)

environments_equal_iff_example :
    (environments_equal (("LANG", "C") ∷ ("CFLAGS", "-O2") ∷ []) hello.environment wanted ≡ true)
    ↔ ((e : String × String)
        → In e (("LANG", "C") ∷ ("CFLAGS", "-O2") ∷ [])
          ↔ (In e (entries hello.environment) ⊎ In e wanted))
environments_equal_iff_example =
    environments_equal_iff (("LANG", "C") ∷ ("CFLAGS", "-O2") ∷ []) hello.environment wanted
      hello-IsMapping
