-- ===== src/Cmd/Shared/Token.antt =====
-- `TokenForRegistry` of pkg/cmd/auth/shared/shared.go: a token, which is exported to the environment.
use aeroflare.Base.{
  Bool, List, [], ◌∷◌, if◌then◌else◌, ◌==◌, contains, Text, codes, Outcome, success, failure,
  nat_eq, text_eq,
}
use aeroflare.Cmd.Shared.{require_github_token, require_oci_token, Prompts, RequireError}
use aeroflare.Secrets.{Host, Manager}

module _ {K F : Type 0} (host : Host K F) (getenv : Text → Text) where
  -- The environment after `os.Setenv` of the same value under some names.
  unfoldable pub exported : List Text → Text → Text → Text
  unfolding contains
  exported names value name = if contains names name then value else getenv name

  -- What `TokenForRegistry` gives, the secrets manager and the environment after it.
  abbrev pub exported_token :
      Outcome RequireError Text × Manager K F
      → (Outcome RequireError Text × Manager K F) × (Text → Text)
  exported_token (failure e, m) = ((failure e, m), getenv)
  exported_token (success token, m) =
      ((success token, m), exported (codes "oci_token" ∷ codes "GITHUB_TOKEN" ∷ []) token)

  abbrev pub exported_login :
      Outcome RequireError (Text × Text) × Manager K F
      → (Outcome RequireError Text × Manager K F) × (Text → Text)
  exported_login (failure e, m) = ((failure e, m), getenv)
  exported_login (success (user, token), m) =
      ((success token, m), exported (codes "oci_token" ∷ []) token)

  abbrev pub login_of_registry :
      Prompts
      → Bool
      → Manager K F
      → Text
      → (Outcome RequireError Text × Manager K F) × (Text → Text)
  login_of_registry prompts is_tty m [] = ((success [], m), getenv)
  login_of_registry prompts is_tty m (c ∷ registry) =
      exported_login (require_oci_token host getenv prompts is_tty m (c ∷ registry))

  unfoldable pub token_for_registry :
      Prompts
      → Bool
      → Text
      → Manager K F
      → Text
      → (Outcome RequireError Text × Manager K F) × (Text → Text)
  unfolding require_github_token require_oci_token exported
  token_for_registry prompts is_tty flag m registry =
      if registry == codes "ghcr.io"
      then exported_token (require_github_token host getenv prompts is_tty flag m)
      else login_of_registry prompts is_tty m registry
