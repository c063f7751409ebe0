-- ===== src/Cmd/Config.antt =====
-- pkg/cmdutil/config.go: the registry, the repository and the credential of a command. viper and the
-- environment are functions from keys to texts, the empty text if a key is not set.
pub mod Stored
use aeroflare.Base.{
  Option, none, some, [], ◌∷◌, if◌then◌else◌, contains, Text, codes, trim_prefix, cut, to_lower,
  Outcome, success, failure, nat_eq, text_eq,
}
use aeroflare.Auth.Resolve.{new_resolver, resolve_credential, resolve_registry_token, ResolveError}
use aeroflare.Auth.{username_key}
use aeroflare.Secrets.{Host, Manager}

-- The first text that is not empty, or the last.
abbrev pub text_or : Text → Text → Text
text_or [] later = later
text_or (c ∷ text) later = c ∷ text

abbrev pub host_and_path : Text → Text → Option (Text × Text) → Text × Text
host_and_path registry url none = (registry, url)
host_and_path registry url (some (host, path)) =
    if contains host b'.' then (host, path) else (registry, url)

abbrev pub of_cache_name : Text → Text → Option (Text × Text)
of_cache_name registry [] = none
of_cache_name registry (c ∷ name) = some (registry, to_lower (c ∷ name))

module _ (config getenv : Text → Text) where
  abbrev pub default_registry : Text
  default_registry =
      text_or (config (codes "registry"))
        (text_or (getenv (codes "NIXCACHE_REGISTRY")) (codes "ghcr.io"))

  abbrev pub of_cache_url : Text → Option (Text × Text)
  of_cache_url [] =
      of_cache_name default_registry
        (text_or (config (codes "cache")) (getenv (codes "NIXCACHE_REPO")))
  of_cache_url (c ∷ url) =
      let rest = trim_prefix (c ∷ url) (codes "oci://") in
      some (host_and_path default_registry rest (cut b'/' rest))

  -- `RegistryAndRepository`: `none` is its error.
  unfoldable pub registry_and_repository : Option (Text × Text)
  unfolding trim_prefix cut contains to_lower
  registry_and_repository = of_cache_url (config (codes "cache-url"))

-- A value, where an error reads as the empty text.
abbrev pub text_or_empty : Outcome ResolveError Text → Text
text_or_empty (success value) = value
text_or_empty (failure e) = []

module _ {K F : Type 0} (host : Host K F) (getenv : Text → Text) where
  abbrev pub found_token : Manager K F → Text → Text → Text × Manager K F
  found_token m registry [] = (
    text_or_empty (resolve_registry_token host getenv m registry).0,
    (resolve_registry_token host getenv m registry).1,
  )
  found_token m registry (c ∷ token) = (c ∷ token, m)

  abbrev pub found_username : Manager K F → Text → Text × Manager K F
  found_username m registry =
      let found = resolve_credential host getenv m (new_resolver (username_key registry)) in
      (text_or (text_or_empty found.0) (getenv (codes "AEROFLARE_GIT_USERNAME")), found.1)

  -- The user name and the token that `oci.PasswordAuth` is given.
  abbrev pub password_auth : Text → Text → Manager K F → Option (Text × Text) × Manager K F
  password_auth registry [] m = (none, m)
  password_auth registry (c ∷ token) m =
      (some ((found_username m registry).0, c ∷ token), (found_username m registry).1)

  -- `RegistryAuth`: `none` is anonymous access.
  unfoldable pub registry_auth : Manager K F → Text → Text → Option (Text × Text) × Manager K F
  unfolding resolve_registry_token resolve_credential
  registry_auth m registry explicit =
      let found = found_token m registry explicit in password_auth registry found.0 found.1
