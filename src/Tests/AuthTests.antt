-- ===== src/Tests/AuthTests.antt =====
-- The theorems of Auth and Cmd on the token of ghcr.io and an argument of a push.
use aeroflare.Base.{
  ◌≡◌, refl, inl, false, Option, none, some, [], if◌then◌else◌, ◌==◌, text_beq, In, Text, codes,
  success, nat_eq, text_eq,
}
use aeroflare.Auth.{
  service_field, github_field, service_for_registry, service_for_secret_key, Field,
}
use aeroflare.Cmd.Shared.Token.{token_for_registry}
use aeroflare.Cmd.Shared.Exported.{registry_auth-token_for_registry}
use aeroflare.Cmd.Shared.Kept.{require_github_token-kept}
use aeroflare.Cmd.Shared.{kept_token, run_interactive_github_auth, require_github_token, Prompts}
use aeroflare.Auth.Keys.{service_for_secret_key-service_for_registry}
use aeroflare.Cmd.Config.Stored.{registry_auth-set_secret}
use aeroflare.Cmd.Config.{registry_auth}
use aeroflare.Tests.SecretsTests.{toy_host, toy_host-IsReliable, without_chain, github_token_set}
use aeroflare.Secrets.{Host, Manager, SecretError, set_secret}

ghcr_field :
    service_field (service_for_registry (codes "ghcr.io")) (codes "token") ≡ some github_field
unfolding service_field service_for_registry text_beq
ghcr_field = refl

registry_auth-set_secret_example :
    (user : Text) × ((registry_auth toy_host
        (λ key. [])
        (set_secret toy_host without_chain (codes "github-token") (codes "t0")).1
        (codes "ghcr.io")
        []).0
      ≡ some (user, codes "t0"))
registry_auth-set_secret_example =
    registry_auth-set_secret toy_host toy_host-IsReliable (λ key. []) without_chain
      (codes "ghcr.io") github_field b't' (codes "0") ghcr_field (refl, (refl, tt)) github_token_set

abbrev registry_field : Field
registry_field = record {
  name = codes "username";
  label = codes "Username for docker.io";
  secret_key = codes "oci-docker.io-username";
  env_vars = [];
  is_secret = false;
  is_optional = false;
}

registry_field_listed : In registry_field (service_for_registry (codes "docker.io")).fields
unfolding service_for_registry text_beq
registry_field_listed = inl refl

service_for_secret_key-service_for_registry_example :
    service_for_secret_key (codes "oci-docker.io-username")
    ≡ some (service_for_registry (codes "docker.io"))
service_for_secret_key-service_for_registry_example =
    service_for_secret_key-service_for_registry b'd' (codes "ocker.io") registry_field
      registry_field_listed

-- A link into a path of the store, and what nix prints for anything else.
result_link : Text → Option Text
result_link arg =
    if arg == codes "result" then some (codes "/nix/store/aaa-hello/bin/hello") else none

nix_output : Text → Option Text
nix_output arg = some (codes "# built\n/nix/store/bbb-glibc\n")

-- A token for GitHub is entered, and nothing is asked later.
abbrev entering : Prompts
entering = record {
  choose_device = some false;
  device_token = none;
  github_token = some (codes "t0");
  gitlab_token = none;
  registry_host = none;
  registry_login = none;
}

abbrev silent_prompts : Prompts
silent_prompts = record entering { choose_device = none; github_token = none }

kept_if_stored :
    {K F : Type 0} (host : Host K F) (getenv : Text → Text) (token : Text)
    (o : Option SecretError × Manager K F)
    → o.0 ≡ none
    → (kept_token host getenv token o).0 ≡ success token
kept_if_stored host getenv token (none, m) e = refl
kept_if_stored host getenv token (some x, m) e = cc e

token_entered :
    (run_interactive_github_auth toy_host (λ key. []) entering without_chain).0
    ≡ success (codes "t0")
unfolding run_interactive_github_auth
token_entered =
    kept_if_stored toy_host (λ key. []) (codes "t0")
      (set_secret toy_host without_chain (codes "github-token") (codes "t0")) github_token_set

require_github_token-kept_example :
    (require_github_token toy_host
      (λ key. [])
      silent_prompts
      false
      []
      (run_interactive_github_auth toy_host (λ key. []) entering without_chain).1).0
    ≡ success (codes "t0")
require_github_token-kept_example =
    require_github_token-kept toy_host (λ key. []) toy_host-IsReliable refl refl entering
      silent_prompts without_chain false b't' (codes "0") token_entered

flag_exported :
    (token_for_registry toy_host
      (λ key. [])
      silent_prompts
      false
      (codes "t1")
      without_chain
      (codes "ghcr.io")).0.0
    ≡ success (codes "t1")
unfolding token_for_registry require_github_token text_beq
flag_exported = refl

registry_auth-token_for_registry_example :
    (user : Text) × ((registry_auth toy_host
        (token_for_registry toy_host
          (λ key. [])
          silent_prompts
          false
          (codes "t1")
          without_chain
          (codes "ghcr.io")).1
        without_chain
        (codes "ghcr.io")
        []).0
      ≡ some (user, codes "t1"))
registry_auth-token_for_registry_example =
    registry_auth-token_for_registry toy_host (λ key. []) silent_prompts false (codes "t1")
      without_chain (codes "ghcr.io") (λ e. cc e) b't' (codes "1") flag_exported without_chain
