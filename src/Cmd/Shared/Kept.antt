-- ===== src/Cmd/Shared/Kept.antt =====
-- A token that was asked for is not asked for again, except for GitLab's registry.
use aeroflare.Base.{
  ℕ, ◌≡◌, refl, sym, ap, ◌∙◌, Bool, true, false, Option, none, some, [], ◌∷◌, Text, codes, Outcome,
  success, nat_eq, text_eq,
}
use aeroflare.Auth.Resolve.{resolve_field, resolve_github_token}
use aeroflare.Auth.{github_field}
use aeroflare.Auth.Stored.{resolve_field-set_secret}
use aeroflare.Cmd.Config.{text_or_empty}
use aeroflare.Cmd.Shared.{
  entered_token, Prompts, RequireError, kept_token, github_method, run_interactive_github_auth,
  resolved_or, require_github_token, prompt_cancelled, device_failed,
}
use aeroflare.Secrets.{Host, Manager, set_secret, SecretError}
use aeroflare.Secrets.Stored.{IsReliable}

module _ {K F : Type 0} (host : Host K F) (getenv : Text → Text) where
  kept_token_inv :
      (entered token : Text) (o : Option SecretError × Manager K F)
      → (kept_token host getenv entered o).0 ≡ success token
      → (entered ≡ token) × (o.0 ≡ none) × ((kept_token host getenv entered o).1 ≡ o.1)
  kept_token_inv entered token (none, m) e = (cc e, refl, refl)
  kept_token_inv entered token (some x, m) e = cc e

  -- A token that was entered is the one that is stored.
  IsStoredToken : Manager K F → Text → Text → Outcome RequireError Text × Manager K F → Type 0
  IsStoredToken m key token o =
      ((set_secret host m key token).0 ≡ none) × (o.1 ≡ (set_secret host m key token).1)

  entered_token_inv :
      (m : Manager K F) (key : Text) (missing : RequireError) (entered : Option Text) (c : ℕ)
      (token : Text)
      → (entered_token host getenv m key missing entered).0 ≡ success (c ∷ token)
      → IsStoredToken m key (c ∷ token) (entered_token host getenv m key missing entered)
  unfolding IsStoredToken
  entered_token_inv m key missing none c token e = cc e
  entered_token_inv m key missing (some []) c token e = cc e
  entered_token_inv m key missing (some (d ∷ entered)) c token e =
      let (same, ok, state) =
        kept_token_inv (d ∷ entered) (c ∷ token) (set_secret host m key (d ∷ entered)) e in
      (
        ap (λ t. (set_secret host m key t).0) (sym same) ∙ ok,
        state ∙ ap (λ t. (set_secret host m key t).1) same,
      )

  github_method_inv :
      (prompts : Prompts) (m : Manager K F) (chosen : Option Bool) (c : ℕ) (token : Text)
      → (github_method host getenv prompts m chosen).0 ≡ success (c ∷ token)
      → IsStoredToken m
          (codes "github-token")
          (c ∷ token)
          (github_method host getenv prompts m chosen)
  github_method_inv prompts m none c token e = cc e
  github_method_inv prompts m (some true) c token e =
      entered_token_inv m (codes "github-token") device_failed prompts.device_token c token e
  github_method_inv prompts m (some false) c token e =
      entered_token_inv m (codes "github-token") prompt_cancelled prompts.github_token c token e

  -- When a token for GitHub was asked for and stored, and no variable for it is set, the next command
  -- gets it without a prompt, on a terminal or not.
  pub require_github_token-kept :
      IsReliable host
      → getenv (codes "GITHUB_TOKEN") ≡ []
      → getenv (codes "GH_TOKEN") ≡ []
      → (prompts later : Prompts) (m : Manager K F) (is_tty : Bool) (c : ℕ) (token : Text)
      → (run_interactive_github_auth host getenv prompts m).0 ≡ success (c ∷ token)
      → (require_github_token host getenv later is_tty []
          (run_interactive_github_auth host getenv prompts m).1).0
        ≡ success (c ∷ token)
  unfolding require_github_token run_interactive_github_auth resolve_github_token IsStoredToken
  require_github_token-kept sound one two prompts later m is_tty c token e =
      let (ok, state) = github_method_inv prompts m prompts.choose_device c token e in
      let found =
        resolve_field-set_secret host sound getenv m github_field c token (λ same. cc same)
          (one, (two, tt)) ok in
      let resolved_token : (resolve_field host getenv
            (github_method host getenv prompts m prompts.choose_device).1 github_field).0
          ≡ success (c ∷ token) =
        ap (λ n. (resolve_field host getenv n github_field).0) state ∙ found in
      ap
        (λ o.
          (resolved_or host getenv
            (resolve_field host getenv (github_method host getenv prompts m prompts.choose_device).1
              github_field).1
            is_tty (run_interactive_github_auth host getenv later) (text_or_empty o)).0)
        resolved_token
