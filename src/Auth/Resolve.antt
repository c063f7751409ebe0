-- ===== src/Auth/Resolve.antt =====
-- internal/auth/resolver.go, and how service.go uses it: where a credential is looked up. The
-- variables of the environment are a function; the secrets manager is that of internal/secrets.
use aeroflare.Base.{
  Option, none, some, List, [], ◌∷◌, ◌++◌, if◌then◌else◌, ◌==◌, Text, codes, Dict, insert, Outcome,
  success, failure, nat_eq, text_eq,
}
use aeroflare.Auth.{
  service_field, github_service, gitlab_service, service_for_registry, Field, Service,
}
use aeroflare.Secrets.{Host, Manager, SecretError, chain_error, file_error, no_secret, get_secret}

-- What `Resolve` fails with: `ErrTokenNotFound`, or the error of the secrets manager.
pub data ResolveError : Type 0 where
  token_not_found : ResolveError
  manager_error : SecretError → ResolveError

-- `Resolver`, which the secrets manager is given to when it resolves.
pub record Resolver : Type 0 where
  pub secret_key : Text
  pub flag_value : Text
  pub env_vars : List Text

-- `NewResolver`, `WithFlag` and `WithEnv`.
abbrev pub new_resolver : Text → Resolver
new_resolver secret_key = record { secret_key = secret_key; flag_value = []; env_vars = [] }

abbrev pub with_flag : Resolver → Text → Resolver
with_flag r flag = record r { flag_value = flag }

abbrev pub with_env : Resolver → List Text → Resolver
with_env r keys = record r { env_vars = r.env_vars ++ keys }

-- The value of the first variable that is not empty, or the empty text.
unfoldable pub first_env : (Text → Text) → List Text → Text
first_env getenv [] = []
first_env getenv (key ∷ keys) =
    let rest = first_env getenv keys in if getenv key == [] then rest else getenv key

-- The answer of `Resolve` on that of the manager.
abbrev pub after_get : Outcome SecretError Text → Outcome ResolveError Text
after_get (success []) = failure token_not_found
after_get (success (c ∷ value)) = success (c ∷ value)
after_get (failure no_secret) = failure token_not_found
after_get (failure chain_error) = failure (manager_error chain_error)
after_get (failure file_error) = failure (manager_error file_error)

abbrev pub first_field : List Field → Option Field
first_field [] = none
first_field (f ∷ fs) = some f

module _ {K F : Type 0} (host : Host K F) (getenv : Text → Text) where
  abbrev pub or_manager : Manager K F → Text → Text → Outcome ResolveError Text × Manager K F
  or_manager m key [] = (after_get (get_secret host m key).0, (get_secret host m key).1)
  or_manager m key (c ∷ value) = (success (c ∷ value), m)

  abbrev pub or_env : Manager K F → Resolver → Text → Outcome ResolveError Text × Manager K F
  or_env m r [] = or_manager m r.secret_key (first_env getenv r.env_vars)
  or_env m r (c ∷ flag) = (success (c ∷ flag), m)

  -- `Resolver.Resolve`.
  unfoldable pub resolve_credential :
      Manager K F → Resolver → Outcome ResolveError Text × Manager K F
  unfolding get_secret first_env
  resolve_credential m r = or_env m r r.flag_value

  -- `Field.Resolve`.
  unfoldable pub resolve_field : Manager K F → Field → Outcome ResolveError Text × Manager K F
  unfolding resolve_credential
  resolve_field m f = resolve_credential m (with_env (new_resolver f.secret_key) f.env_vars)

  -- One round of `Service.Resolve`.
  abbrev pub with_value :
      Text → Outcome ResolveError Text → Dict Text Text → Outcome ResolveError (Dict Text Text)
  with_value name (success []) vals = success vals
  with_value name (success (c ∷ value)) vals = success (insert name (c ∷ value) vals)
  with_value name (failure token_not_found) vals = success vals
  with_value name (failure (manager_error e)) vals = failure (manager_error e)

  abbrev pub then_fields :
      Outcome ResolveError (Dict Text Text)
      → Manager K F
      → (Manager K F → Dict Text Text → Outcome ResolveError (Dict Text Text) × Manager K F)
      → Outcome ResolveError (Dict Text Text) × Manager K F
  then_fields (failure e) m go = (failure e, m)
  then_fields (success vals) m go = go m vals

  unfoldable pub resolve_fields :
      List Field
      → Manager K F
      → Dict Text Text
      → Outcome ResolveError (Dict Text Text) × Manager K F
  unfolding resolve_field insert
  resolve_fields [] m vals = (success vals, m)
  resolve_fields (f ∷ fs) m vals =
      then_fields (with_value f.name (resolve_field m f).0 vals) (resolve_field m f).1
        (resolve_fields fs)

  -- `Service.Resolve`.
  unfoldable pub resolve_service :
      Manager K F → Service → Outcome ResolveError (Dict Text Text) × Manager K F
  unfolding resolve_fields
  resolve_service m s = resolve_fields s.fields m []

  abbrev pub resolve_or_missing :
      Manager K F → Option Field → Outcome ResolveError Text × Manager K F
  resolve_or_missing m none = (failure token_not_found, m)
  resolve_or_missing m (some f) = resolve_field m f

  -- `ResolveRegistryToken`.
  unfoldable pub resolve_registry_token :
      Manager K F → Text → Outcome ResolveError Text × Manager K F
  unfolding resolve_field service_field service_for_registry
  resolve_registry_token m registry =
      resolve_or_missing m (service_field (service_for_registry registry) (codes "token"))

  -- `ResolveGithubToken` and `ResolveGitlabToken`.
  unfoldable pub resolve_github_token : Manager K F → Outcome ResolveError Text × Manager K F
  unfolding resolve_field
  resolve_github_token m = resolve_or_missing m (first_field github_service.fields)

  unfoldable pub resolve_gitlab_token : Manager K F → Outcome ResolveError Text × Manager K F
  unfolding resolve_field
  resolve_gitlab_token m = resolve_or_missing m (first_field gitlab_service.fields)
