-- ===== src/Endpoint/Setup.antt =====
-- The setup of an endpoint with its checks: `Endpoint::setup` (src/endpoint/configured.rs).
pub mod Checks
mod Examples
use butido.Prelude.{
  ℕ, String, Bool, true, false, not, Option, none, some, List, [], ◌∷◌, ◌++◌, any, Result, ok, err,
  ◌>>=◌, map_err, ◌==◌, string_eq, if◌then◌else◌,
}
use butido.Package.Condition.{ImageName}
use butido.Orchestrator.Task.{Error}
use butido.Endpoint.Scheduler.{Endpoint}

pub data EndpointType : Type 0 where
  socket http : EndpointType

-- The endpoint of the configuration (src/config/endpoint_config.rs) and `EndpointConfiguration`
-- (src/endpoint/configuration.rs) in one record
pub record EndpointConfiguration : Type 0 where
  pub endpoint_name : String
  pub uri : String
  pub endpoint_type : EndpointType
  pub maxjobs : ℕ
  pub network_mode : Option String
  pub required_images : List ImageName
  pub required_docker_versions : Option (List String)
  pub required_docker_api_versions : Option (List String)

pub record Version : Type 0 where
  pub version : String
  pub api_version : String

-- What Docker answers; an image has a list of tags or none.
pub record Docker : Type 0 where
  pub parse_uri : String → Result Error (Unit {0})
  pub version : Result Error Version
  pub images : Result Error (List (Option (List ImageName)))

pub data SetupError : Type 0 where
  incompatible_version : String → SetupError
  incompatible_api_version : String → SetupError
  image_missing : ImageName → SetupError
  docker_error : Error → SetupError
  elapsed : SetupError

abbrev pub build_endpoint : EndpointConfiguration → Endpoint
build_endpoint epc = record {
  name = epc.endpoint_name;
  num_max_jobs = epc.maxjobs;
  network_mode = epc.network_mode;
  uri = epc.uri;
  running_jobs = 0;
}

abbrev pub setup_endpoint_of :
    EndpointType → EndpointConfiguration → Docker → Result SetupError Endpoint
setup_endpoint_of socket epc docker = ok (build_endpoint epc)
setup_endpoint_of http epc docker = do
  host ← map_err docker_error (docker.parse_uri epc.uri)
  ok (build_endpoint epc)

abbrev pub setup_endpoint : EndpointConfiguration → Docker → Result SetupError Endpoint
setup_endpoint epc docker = setup_endpoint_of epc.endpoint_type epc docker

-- `v.contains(…)`
abbrev pub contains : List String → String → Bool
contains v s = any (λ x. x == s) v

unfoldable pub check_version_compat : Option (List String) → Docker → Result SetupError (Unit {0})
check_version_compat none docker = ok tt
check_version_compat (some v) docker = do
  avail ← map_err docker_error docker.version
  if not (contains v avail.version) then err (incompatible_version avail.version) else ok tt

unfoldable pub check_api_version_compat :
    Option (List String) → Docker → Result SetupError (Unit {0})
check_api_version_compat none docker = ok tt
check_api_version_compat (some v) docker = do
  avail ← map_err docker_error docker.version
  if not (contains v avail.api_version)
      then err (incompatible_api_version avail.api_version)
      else ok tt

-- `flat_map(|image_rep| image_rep.repo_tags.unwrap_or_default()…)`
abbrev pub available_names : List (Option (List ImageName)) → List ImageName
available_names [] = []
available_names (none ∷ images) = available_names images
available_names (some tags ∷ images) = tags ++ available_names images

abbrev pub check_images : List ImageName → List ImageName → Result SetupError (Unit {0})
check_images [] available = ok tt
check_images (img ∷ imgs) available =
    let rest = check_images imgs available in
    if not (contains available img) then err (image_missing img) else rest

unfoldable pub check_images_available : List ImageName → Docker → Result SetupError (Unit {0})
check_images_available imgs docker = do
  images ← map_err docker_error docker.images
  check_images imgs (available_names images)

-- Which of the three checks do not end in time
pub record Timeouts : Type 0 where
  pub version_elapsed : Bool
  pub api_version_elapsed : Bool
  pub images_elapsed : Bool

-- `tokio::time::timeout`: the result of the check is inside that of the timeout.
abbrev pub timeout :
    Bool → Result SetupError (Unit {0}) → Result SetupError (Result SetupError (Unit {0}))
timeout true check = err elapsed
timeout false check = ok check

-- The three `let _ = …?;` propagate a timeout, and drop the result of the check.
unfoldable pub setup : EndpointConfiguration → Docker → Timeouts → Result SetupError Endpoint
unfolding check_version_compat check_api_version_compat check_images_available
setup epc docker t = do
  ep ← setup_endpoint epc docker
  versions_compat ←
      timeout t.version_elapsed (check_version_compat epc.required_docker_versions docker)
  api_versions_compat ←
      timeout t.api_version_elapsed
        (check_api_version_compat epc.required_docker_api_versions docker)
  imgs_avail ← timeout t.images_elapsed (check_images_available epc.required_images docker)
  ok ep
