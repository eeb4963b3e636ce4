-- ===== src/Endpoint/Setup/Examples.antt =====
-- An endpoint with an image of the wrong version of Docker.
use butido.Prelude.{◌≡◌, refl, false, some, none, [], ◌∷◌, ok, Result}
use butido.Endpoint.Setup.{
  http, EndpointConfiguration, Docker, incompatible_version, check_version_compat,
  check_api_version_compat, check_images_available, Timeouts, setup, build_endpoint,
}

abbrev configured : EndpointConfiguration
configured = record {
  endpoint_name = "local";
  uri = "http://localhost:2375";
  endpoint_type = http;
  maxjobs = 2;
  network_mode = none;
  required_images = "debian" ∷ [];
  required_docker_versions = some ("20" ∷ []);
  required_docker_api_versions = none;
}

abbrev docker : Docker
docker = record {
  parse_uri = λ uri. ok tt;
  version = ok (record { version = "19"; api_version = "1.40" });
  images = ok (none ∷ some ("ubuntu" ∷ "debian" ∷ []) ∷ []);
}

abbrev in_time : Timeouts
in_time = record { version_elapsed = false; api_version_elapsed = false; images_elapsed = false }

finds_images : check_images_available ("debian" ∷ []) docker ≡ ok tt
unfolding check_images_available
finds_images = refl

-- The version of Docker is refused, and the setup succeeds.
refuses_version :
    check_version_compat configured.required_docker_versions docker
    ≡ Result.err (incompatible_version "19")
unfolding check_version_compat
refuses_version = refl

succeeds : setup configured docker in_time ≡ ok (build_endpoint configured)
unfolding setup check_version_compat check_images_available check_api_version_compat
succeeds = refl
