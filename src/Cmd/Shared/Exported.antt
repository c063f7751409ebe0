-- ===== src/Cmd/Shared/Exported.antt =====
-- The token that is exported to the environment is the one that a push uses.
use aeroflare.Base.{
  ℕ, ◌≡◌, refl, sym, ap, ◌∙◌, ◌≢◌, inl, inr, Bool, some, List, [], ◌∷◌, if◌then◌else◌, ◌==◌,
  Bool-cases, text_beq, text_beq-false, if_true, if_false, contains, Text, codes, success-injective,
  Outcome, success, failure, nat_eq, text_eq,
}
use aeroflare.Auth.Resolve.{
  first_env, or_manager, resolve_credential, resolve_field, resolve_or_missing,
  resolve_registry_token,
}
use aeroflare.Auth.{
  service_field, github_field, github_service, generic_oci_service, service_for_registry, Field,
  Service,
}
use aeroflare.Cmd.Shared.Token.{
  exported, exported_token, exported_login, login_of_registry, token_for_registry,
}
use aeroflare.Cmd.Shared.{require_github_token, require_oci_token, Prompts, RequireError}
use aeroflare.Cmd.Config.{text_or_empty, found_username, password_auth, registry_auth}
use aeroflare.Secrets.{Host, Manager}

-- A field is resolved to the value of its first variable, if that is set.
resolve_field_of_env :
    {K F : Type 0} (host : Host K F) (getenv : Text → Text) (m : Manager K F) (f : Field)
    (name : Text) (names : List Text) (c : ℕ) (value : Text)
    → f.env_vars ≡ name ∷ names
    → getenv name ≡ c ∷ value
    → (resolve_field host getenv m f).0 ≡ success (c ∷ value)
unfolding resolve_field resolve_credential first_env text_beq
resolve_field_of_env host getenv m f name names c value vars set =
    ap (λ keys. (or_manager host getenv m f.secret_key (first_env getenv keys)).0) vars
    ∙ ap
        (λ v.
          (or_manager host getenv m f.secret_key (if v == [] then first_env getenv names else v)).0)
        set

module _ {K F : Type 0} (host : Host K F) (getenv : Text → Text) where
  exported_token_inv :
      (o : Outcome RequireError Text × Manager K F) (token : Text)
      → (exported_token host getenv o).0.0 ≡ success token
      → (exported_token host getenv o).1 (codes "GITHUB_TOKEN") ≡ token
  unfolding exported contains text_beq
  exported_token_inv (failure e, m) token done = cc done
  exported_token_inv (success t, m) token done = success-injective done

  exported_login_inv :
      (o : Outcome RequireError (Text × Text) × Manager K F) (token : Text)
      → (exported_login host getenv o).0.0 ≡ success token
      → (exported_login host getenv o).1 (codes "oci_token") ≡ token
  unfolding exported contains text_beq
  exported_login_inv (failure e, m) token done = cc done
  exported_login_inv (success (user, t), m) token done = success-injective done

  login_of_registry_inv :
      (prompts : Prompts) (is_tty : Bool) (m : Manager K F) (registry : Text) (c : ℕ) (token : Text)
      → (login_of_registry host getenv prompts is_tty m registry).0.0 ≡ success (c ∷ token)
      → (login_of_registry host getenv prompts is_tty m registry).1 (codes "oci_token") ≡ c ∷ token
  login_of_registry_inv prompts is_tty m [] c token done = cc done
  login_of_registry_inv prompts is_tty m (d ∷ registry) c token done =
      exported_login_inv (require_oci_token host getenv prompts is_tty m (d ∷ registry)) (c ∷ token)
        done

  -- The token that is resolved for a registry whose variable is set.
  resolve_registry_token_of_env :
      (m : Manager K F) (registry : Text) (s : Service) (f : Field) (name : Text)
      (names : List Text) (c : ℕ) (value : Text)
      → service_for_registry registry ≡ s
      → service_field s (codes "token") ≡ some f
      → f.env_vars ≡ name ∷ names
      → getenv name ≡ c ∷ value
      → (resolve_registry_token host getenv m registry).0 ≡ success (c ∷ value)
  unfolding resolve_registry_token
  resolve_registry_token_of_env m registry s f name names c value same found vars set =
      ap (λ s. (resolve_or_missing host getenv m (service_field s (codes "token"))).0) same
      ∙ ap (λ o. (resolve_or_missing host getenv m o).0) found
      ∙ resolve_field_of_env host getenv m f name names c value vars set

module _ {K F : Type 0} (host : Host K F) (getenv : Text → Text) (prompts : Prompts) (is_tty : Bool)
    (flag : Text) (m : Manager K F) (registry : Text) where
  exports : (Outcome RequireError Text × Manager K F) × (Text → Text)
  exports = token_for_registry host getenv prompts is_tty flag m registry

  registry_token-exports :
      registry ≢ codes "registry.gitlab.com"
      → (c : ℕ) (token : Text) → exports.0.0 ≡ success (c ∷ token)
      → (later : Manager K F)
      → (resolve_registry_token host exports.1 later registry).0 ≡ success (c ∷ token)
  unfolding exports token_for_registry service_for_registry service_field text_beq
  registry_token-exports other c token done later =
      elim (Bool-cases (registry == codes "ghcr.io")) [
        | inl github ↦
            let same : exports
                ≡ exported_token host getenv
                    (require_github_token host getenv prompts is_tty flag m) =
              if_true _ _ _ github in
            resolve_registry_token_of_env host exports.1 later registry github_service github_field
              (codes "GITHUB_TOKEN") (codes "GH_TOKEN" ∷ []) c token (if_true _ _ _ github) refl
              refl
              (ap (λ o. o.1 (codes "GITHUB_TOKEN")) same
                ∙ exported_token_inv host getenv
                    (require_github_token host getenv prompts is_tty flag m) (c ∷ token)
                    (sym (ap (λ o. o.0.0) same) ∙ done))
        | inr generic ↦
            let same : exports ≡ login_of_registry host getenv prompts is_tty m registry =
              if_false _ _ _ generic in
            resolve_registry_token_of_env host exports.1 later registry
              (generic_oci_service registry) _ (codes "oci_token") [] c token
              (if_false _ _ _ generic
                ∙ if_false _ _ _ (text_beq-false registry (codes "registry.gitlab.com") other))
              refl refl
              (ap (λ o. o.1 (codes "oci_token")) same
                ∙ login_of_registry_inv host getenv prompts is_tty m registry c token
                    (sym (ap (λ o. o.0.0) same) ∙ done))
      ]

  -- When `TokenForRegistry` gives a token for a registry other than `registry.gitlab.com`, then in
  -- the environment that it leaves `RegistryAuth` gives the same token, whatever is stored by then.
  pub registry_auth-token_for_registry :
      registry ≢ codes "registry.gitlab.com"
      → (c : ℕ) (token : Text)
      → (token_for_registry host getenv prompts is_tty flag m registry).0.0 ≡ success (c ∷ token)
      → (later : Manager K F)
      → (user : Text) × ((registry_auth host
            (token_for_registry host getenv prompts is_tty flag m registry).1
            later
            registry
            []).0
          ≡ some (user, c ∷ token))
  unfolding registry_auth exports
  registry_auth-token_for_registry other c token done later =
      let env = exports.1 in
      let found = resolve_registry_token host env later registry in
      (
        (found_username host env found.1 registry).0,
        ap (λ o. (password_auth host env registry (text_or_empty o) found.1).0)
            (registry_token-exports other c token done later),
      )
