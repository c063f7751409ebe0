-- ===== src/Cmd/Config/Stored.antt =====
-- The registry and the credential that a command finds.
use aeroflare.Base.{
  ℕ, ◌≡◌, ap, ◌∙◌, ◌≢◌, none, some, [], ◌∷◌, ◌++◌, if_true, All, In, contains_of_In, Text, codes,
  trim_prefix, cut, cut-append, trim_prefix-append, nat_eq, text_eq,
}
use aeroflare.Auth.Resolve.{resolve_registry_token}
use aeroflare.Auth.{service_field, service_for_registry, Field}
use aeroflare.Cmd.Config.{
  host_and_path, default_registry, of_cache_url, registry_and_repository, text_or_empty,
  found_username, password_auth, registry_auth,
}
use aeroflare.Secrets.{Host, Manager, set_secret}
use aeroflare.Secrets.Stored.{IsReliable}
use aeroflare.Auth.Stored.{resolve_registry_token-set_secret}

trim_oci : (s : Text) → trim_prefix (codes "oci://" ++ s) (codes "oci://") ≡ s
trim_oci s = trim_prefix-append (codes "oci://") s

-- When the cache URL is `oci://`, a host with a dot, a slash and a path, and the host has no slash,
-- `RegistryAndRepository` gives the host and the path, whatever else is set.
pub registry_and_repository-of_url :
    (config getenv : Text → Text) (host path : Text)
    → All (λ c. c ≢ b'/') host
    → In b'.' host
    → config (codes "cache-url") ≡ codes "oci://" ++ (host ++ (b'/' ∷ path))
    → registry_and_repository config getenv ≡ some (host, path)
unfolding registry_and_repository
registry_and_repository-of_url config getenv host path plain dotted e =
    let registry = default_registry config getenv in
    let url = host ++ (b'/' ∷ path) in
    ap (of_cache_url config getenv) e
    ∙ ap (λ rest. some (host_and_path registry rest (cut b'/' rest))) (trim_oci url)
    ∙ ap (λ o. some (host_and_path registry url o)) (cut-append b'/' host path plain)
    ∙ ap some (if_true _ _ (registry, url) (contains_of_In host b'.' dotted))

module _ {K F : Type 0} (host : Host K F) (sound : IsReliable host) (getenv : Text → Text) where
  -- When `Set` stores a token that is not empty under the key of the token of a registry, none of
  -- the variables for it is set and none is given to the command, `RegistryAuth` gives that token.
  pub registry_auth-set_secret :
      (m : Manager K F) (registry : Text) (f : Field) (c : ℕ) (value : Text)
      → service_field (service_for_registry registry) (codes "token") ≡ some f
      → All (λ key. getenv key ≡ []) f.env_vars
      → (set_secret host m f.secret_key (c ∷ value)).0 ≡ none
      → (user : Text) × ((registry_auth host getenv
            (set_secret host m f.secret_key (c ∷ value)).1
            registry
            []).0
          ≡ some (user, c ∷ value))
  unfolding registry_auth
  registry_auth-set_secret m registry f c value found unset ok =
      let after = (set_secret host m f.secret_key (c ∷ value)).1 in
      let later = (resolve_registry_token host getenv after registry).1 in
      (
        (found_username host getenv later registry).0,
        ap (λ o. (password_auth host getenv registry (text_or_empty o) later).0)
            (resolve_registry_token-set_secret host sound getenv m registry f c value found unset
              ok),
      )
