-- ===== src/Tests/Upstreams.antt =====
-- An address that is split by a function which knows that one address.
use stask_service.Prelude.{Text, codes, [], ◌∷◌, ◌≡◌, refl, true}
use stask_service.Admission.{Settings, Parts, admitted, resolve_upstream, host_matches}
use stask_service.Admission.Upstreams.{IsSafe, resolve_upstream-IsSafe}

abbrev some_settings : Settings
some_settings = record {
  async_deny_prefixes = codes "/api" ∷ [];
  async_allow_prefixes = codes "/v1" ∷ [];
  upstream_allowlist = codes "up:8080" ∷ [];
  upstream_base_url = codes "http://up:8080/x/";
}

abbrev some_parts : Parts
some_parts = record {
  scheme = codes "http";
  netloc = codes "UP:8080";
  username = [];
  password = [];
  hostname = codes "up";
  path = codes "/x/";
  query = [];
  fragment = [];
}

abbrev split_it : Text → Parts
split_it url = some_parts

resolved : resolve_upstream split_it some_settings [] ≡ admitted (codes "http://up:8080/x")
unfolding resolve_upstream stask_service.Prelude.text_eq stask_service.Admission.has_code
    host_matches stask_service.Prelude.lower stask_service.Prelude.strip
resolved = refl

resolve_upstream-IsSafe_example : IsSafe some_settings some_parts (codes "http://up:8080/x")
resolve_upstream-IsSafe_example =
    resolve_upstream-IsSafe split_it some_settings [] (codes "http://up:8080/x") resolved
