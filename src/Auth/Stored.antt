-- ===== src/Auth/Stored.antt =====
-- A token that was stored is the one that is resolved.
use aeroflare.Base.{
  ℕ, ◌≡◌, refl, sym, ap, ◌∙◌, ◌≢◌, none, some, List, [], ◌∷◌, arith, text_beq, text_beq_iff,
  if_true, All, Text, codes, success, nat_eq, text_eq,
}
use aeroflare.Auth.Resolve.{
  first_env, after_get, or_manager, resolve_credential, resolve_field, resolve_or_missing,
  resolve_registry_token,
}
use aeroflare.Auth.{
  service_field, github_service, gitlab_service, generic_oci_service, service_for_registry, Field,
  Service,
}
use mathlib.Core.Option
use aeroflare.Auth.Keys.{service_for_registry-all}
use aeroflare.Secrets.{Host, index_key, set_secret, Manager}
use aeroflare.Secrets.Stored.{IsReliable, get_secret-set_secret}

first_env-unset :
    (getenv : Text → Text) (keys : List Text)
    → All (λ key. getenv key ≡ []) keys
    → first_env getenv keys ≡ []
unfolding first_env
first_env-unset getenv [] unset = refl
first_env-unset getenv (key ∷ keys) (e, unset) =
    if_true _ _ _ ((text_beq_iff (getenv key) []).1 e) ∙ first_env-unset getenv keys unset

-- No service has the key of the index.
IsUsable : Service → Type 0
IsUsable s = (f : Field) → service_field s (codes "token") ≡ some f → f.secret_key ≢ index_key

IsUsable-key :
    (s : Service) (c : ℕ) (key : Text)
    → Option.map (λ f. f.secret_key) (service_field s (codes "token")) ≡ some (c ∷ key)
    → c ≢ b'_'
    → IsUsable s
unfolding IsUsable
IsUsable-key s c key found other f e same =
    let h : some (c ∷ key) ≡ some index_key =
      sym found ∙ ap (Option.map (λ f. f.secret_key)) e ∙ ap some same in
    other cc

services-IsUsable : (registry : Text) → IsUsable (service_for_registry registry)
unfolding service_field text_beq
services-IsUsable registry =
    service_for_registry-all IsUsable registry
      (IsUsable-key github_service _ _ refl (λ e. omega arith))
      (IsUsable-key gitlab_service _ _ refl (λ e. omega arith))
      (IsUsable-key (generic_oci_service registry) _ _ refl (λ e. omega arith))

module _ {K F : Type 0} (host : Host K F) (sound : IsReliable host) (getenv : Text → Text) where
  -- When `Set` stores a value that is not empty under the key of a field, and none of the variables
  -- of the field is set, `Field.Resolve` gives that value.
  pub resolve_field-set_secret :
      (m : Manager K F) (f : Field) (c : ℕ) (value : Text)
      → f.secret_key ≢ index_key
      → All (λ key. getenv key ≡ []) f.env_vars
      → (set_secret host m f.secret_key (c ∷ value)).0 ≡ none
      → (resolve_field host getenv (set_secret host m f.secret_key (c ∷ value)).1 f).0
        ≡ success (c ∷ value)
  unfolding resolve_field resolve_credential
  resolve_field-set_secret m f c value other unset ok =
      let after = (set_secret host m f.secret_key (c ∷ value)).1 in
      ap (λ v. (or_manager host getenv after f.secret_key v).0)
        (first_env-unset getenv f.env_vars unset)
      ∙ ap after_get (get_secret-set_secret host sound m f.secret_key (c ∷ value) other ok)

  -- When `Set` stores a token that is not empty under the key of the token of a registry, and none
  -- of the variables for it is set, `ResolveRegistryToken` gives that token.
  pub resolve_registry_token-set_secret :
      (m : Manager K F) (registry : Text) (f : Field) (c : ℕ) (value : Text)
      → service_field (service_for_registry registry) (codes "token") ≡ some f
      → All (λ key. getenv key ≡ []) f.env_vars
      → (set_secret host m f.secret_key (c ∷ value)).0 ≡ none
      → (resolve_registry_token host getenv
          (set_secret host m f.secret_key (c ∷ value)).1
          registry).0
        ≡ success (c ∷ value)
  unfolding resolve_registry_token IsUsable
  resolve_registry_token-set_secret m registry f c value found unset ok =
      ap (λ o. (resolve_or_missing host getenv (set_secret host m f.secret_key (c ∷ value)).1 o).0)
        found
      ∙ resolve_field-set_secret m f c value (services-IsUsable registry f found) unset ok
