-- ===== src/Repository/Search/Examples.antt =====
-- A search by name in a repository of two packages.
use butido.Prelude.{
  ◌≡◌, refl, String, true, false, none, some, List, [], ◌∷◌, In, ok, err, ◌↔◌, nat_eq,
}
use butido.Package.Types.{Key, Package}
use butido.Package.Dag.Build.{Repository}
use butido.Repository.Search.{
  packages, Matchers, Fits, select, search_packages, name_not_found, In-search_packages,
}

abbrev package_of : String → String → Package
package_of name version = record {
  name = name;
  version = version;
  version_is_semver = false;
  sources = [];
  dependencies = record { build = []; runtime = [] };
  patches = [];
  environment = none;
  allowed_images = none;
  denied_images = none;
  phases = [];
  meta = none;
}

abbrev repo : Repository
repo =
    (("a", "1"), package_of "a" "1")
    ∷ (("a", "2"), package_of "a" "2")
    ∷ (("b", "1"), package_of "b" "1")
    ∷ []

abbrev all_match : Matchers
all_match = record {
  Regex = String;
  Constraint = String;
  is_match = λ r s. true;
  matches = λ c v. true;
}

abbrev of_a : List Package
of_a = package_of "a" "1" ∷ package_of "a" "2" ∷ []

search_a : search_packages all_match repo (some "a") none none ≡ ok of_a
unfolding search_packages select packages
search_a = refl

search_c : search_packages all_match repo (some "c") none none ≡ err (name_not_found "c")
unfolding search_packages select packages
search_c = refl

In-search_packages_example :
    ¬ (of_a ≡ [])
    × ((q : Package)
        → In q of_a ↔ (((k : Key) × In (k, q) repo) × Fits all_match (some "a") none none q))
In-search_packages_example = In-search_packages all_match repo (some "a") none none search_a
