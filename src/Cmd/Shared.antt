-- ===== src/Cmd/Shared.antt =====
-- pkg/cmd/auth/shared: how a command gets a credential, by asking for it if need be. The prompts, the
-- device flow of GitHub and the terminal are the environment.
pub mod Kept
pub mod Token
pub mod Exported
use aeroflare.Base.{
  Bool, true, false, Option, none, some, List, [], ◌∷◌, if◌then◌else◌, ◌==◌, Text, codes, Outcome,
  success, failure, nat_eq, text_eq,
}
use aeroflare.Auth.Resolve.{resolve_field, resolve_github_token, resolve_gitlab_token}
use aeroflare.Auth.{
  service_field, service_by_id, username_key, token_key, service_for_registry, Field, Service,
}
use aeroflare.Cmd.Config.{text_or_empty}
use aeroflare.Secrets.{Host, Manager, SecretError, set_secret}

-- A prompt gives what was entered, or it is cancelled.
pub record Prompts : Type 0 where
  pub choose_device : Option Bool
  pub device_token : Option Text
  pub github_token : Option Text
  pub gitlab_token : Option Text
  pub registry_host : Option Text
  pub registry_login : Option (Text × Text)

pub data RequireError : Type 0 where
  prompt_cancelled device_failed credential_required : RequireError
  save_failed : SecretError → RequireError

-- `ServiceFromArgs`: the service and the other arguments.
abbrev pub with_arguments : List Text → Option Service → Option (Service × List Text)
with_arguments args none = none
with_arguments args (some s) = some (s, args)

abbrev pub registry_from_args : List Text → Option (Service × List Text)
registry_from_args [] = none
registry_from_args ([] ∷ args) = none
registry_from_args ((c ∷ host) ∷ args) = some (service_for_registry (c ∷ host), args)

unfoldable pub service_from_args : Text → List Text → Option (Service × List Text)
unfolding service_by_id service_for_registry
service_from_args name args =
    if name == codes "oci"
    then registry_from_args args
    else with_arguments args (service_by_id name)

module _ {K F : Type 0} (host : Host K F) (getenv : Text → Text) where
  -- `ResolveField`: an error reads as the empty text.
  abbrev pub field_text : Manager K F → Option Field → Text × Manager K F
  field_text m none = ([], m)
  field_text m (some f) =
      (text_or_empty (resolve_field host getenv m f).0, (resolve_field host getenv m f).1)

  unfoldable pub resolve_field_text : Manager K F → Service → Text → Text × Manager K F
  unfolding resolve_field service_field
  resolve_field_text m s name = field_text m (service_field s name)

  -- A token that was entered is stored, if it is not empty.
  abbrev pub kept_token :
      Text → Option SecretError × Manager K F → Outcome RequireError Text × Manager K F
  kept_token token (none, m) = (success token, m)
  kept_token token (some e, m) = (failure (save_failed e), m)

  abbrev pub save_token : Manager K F → Text → Text → Outcome RequireError Text × Manager K F
  save_token m key [] = (success [], m)
  save_token m key (c ∷ token) = kept_token (c ∷ token) (set_secret host m key (c ∷ token))

  abbrev pub entered_token :
      Manager K F → Text → RequireError → Option Text → Outcome RequireError Text × Manager K F
  entered_token m key missing none = (failure missing, m)
  entered_token m key missing (some token) = save_token m key token

  abbrev pub github_method :
      Prompts → Manager K F → Option Bool → Outcome RequireError Text × Manager K F
  github_method prompts m none = (failure prompt_cancelled, m)
  github_method prompts m (some true) =
      entered_token m (codes "github-token") device_failed prompts.device_token
  github_method prompts m (some false) =
      entered_token m (codes "github-token") prompt_cancelled prompts.github_token

  -- `RunInteractiveGithubAuth` and `RunInteractiveGitlabAuth`.
  unfoldable pub run_interactive_github_auth :
      Prompts → Manager K F → Outcome RequireError Text × Manager K F
  unfolding set_secret
  run_interactive_github_auth prompts m = github_method prompts m prompts.choose_device

  unfoldable pub run_interactive_gitlab_auth :
      Prompts → Manager K F → Outcome RequireError Text × Manager K F
  unfolding set_secret
  run_interactive_gitlab_auth prompts m =
      entered_token m (codes "gitlab-token") prompt_cancelled prompts.gitlab_token

  -- What is resolved, else what is asked for on a terminal.
  abbrev pub resolved_or :
      Manager K F
      → Bool
      → (Manager K F → Outcome RequireError Text × Manager K F)
      → Text
      → Outcome RequireError Text × Manager K F
  resolved_or m is_tty ask (c ∷ token) = (success (c ∷ token), m)
  resolved_or m is_tty ask [] = if is_tty then ask m else (failure credential_required, m)

  abbrev pub flag_or :
      Manager K F
      → Text
      → Outcome RequireError Text × Manager K F
      → Outcome RequireError Text × Manager K F
  flag_or m [] later = later
  flag_or m (c ∷ flag) later = (success (c ∷ flag), m)

  -- `RequireGithubToken` and `RequireGitlabToken`.
  unfoldable pub require_github_token :
      Prompts → Bool → Text → Manager K F → Outcome RequireError Text × Manager K F
  unfolding resolve_github_token run_interactive_github_auth
  require_github_token prompts is_tty flag m =
      let found = resolve_github_token host getenv m in
      flag_or m flag
        (resolved_or found.1 is_tty (run_interactive_github_auth prompts) (text_or_empty found.0))

  unfoldable pub require_gitlab_token :
      Prompts → Bool → Text → Manager K F → Outcome RequireError Text × Manager K F
  unfolding resolve_gitlab_token run_interactive_gitlab_auth
  require_gitlab_token prompts is_tty flag m =
      let found = resolve_gitlab_token host getenv m in
      flag_or m flag
        (resolved_or found.1 is_tty (run_interactive_gitlab_auth prompts) (text_or_empty found.0))

  -- `GetOCIToken`: the user name and the token.
  unfoldable pub get_oci_token : Manager K F → Text → (Text × Text) × Manager K F
  unfolding resolve_field_text service_for_registry
  get_oci_token m registry =
      let service = service_for_registry registry in
      let user = resolve_field_text m service (codes "username") in
      let token = resolve_field_text user.1 service (codes "token") in ((user.0, token.0), token.1)

  -- `RunInteractiveOCIAuth`, for a registry that is known or is asked for.
  abbrev pub saved_pair :
      Text × Text
      → Option SecretError × Manager K F
      → Outcome RequireError (Text × Text) × Manager K F
  saved_pair login (none, m) = (success login, m)
  saved_pair login (some e, m) = (failure (save_failed e), m)

  abbrev pub save_token_of :
      Text
      → Text × Text
      → Option SecretError × Manager K F
      → Outcome RequireError (Text × Text) × Manager K F
  save_token_of registry login (some e, m) = (failure (save_failed e), m)
  save_token_of registry (user, pass) (none, m) =
      saved_pair (user, pass) (set_secret host m (token_key registry) pass)

  abbrev pub save_login :
      Manager K F → Text → Option (Text × Text) → Outcome RequireError (Text × Text) × Manager K F
  save_login m registry none = (failure prompt_cancelled, m)
  save_login m registry (some (user, pass)) =
      save_token_of registry (user, pass) (set_secret host m (username_key registry) user)

  abbrev pub asked_registry : Text → Option Text → Option Text
  asked_registry (c ∷ registry) asked = some (c ∷ registry)
  asked_registry [] none = none
  asked_registry [] (some []) = none
  asked_registry [] (some (c ∷ registry)) = some (c ∷ registry)

  abbrev pub login_for :
      Prompts → Manager K F → Option Text → Outcome RequireError (Text × Text) × Manager K F
  login_for prompts m none = (failure prompt_cancelled, m)
  login_for prompts m (some registry) = save_login m registry prompts.registry_login

  unfoldable pub run_interactive_oci_auth :
      Prompts → Manager K F → Text → Outcome RequireError (Text × Text) × Manager K F
  unfolding set_secret
  run_interactive_oci_auth prompts m registry =
      login_for prompts m (asked_registry registry prompts.registry_host)

  -- `RequireOCIToken`.
  abbrev pub login_or :
      Manager K F
      → Bool
      → (Manager K F → Outcome RequireError (Text × Text) × Manager K F)
      → Text × Text
      → Outcome RequireError (Text × Text) × Manager K F
  login_or m is_tty ask (c ∷ user, d ∷ pass) = (success (c ∷ user, d ∷ pass), m)
  login_or m is_tty ask (c ∷ user, []) = if is_tty then ask m else (failure credential_required, m)
  login_or m is_tty ask ([], pass) = if is_tty then ask m else (failure credential_required, m)

  unfoldable pub require_oci_token :
      Prompts → Bool → Manager K F → Text → Outcome RequireError (Text × Text) × Manager K F
  unfolding get_oci_token run_interactive_oci_auth
  require_oci_token prompts is_tty m registry =
      let found = get_oci_token m registry in
      login_or found.1 is_tty (λ m. run_interactive_oci_auth prompts m registry) found.0
