-- ===== src/Auth/Validate.antt =====
-- internal/auth/validate.go: the checks of a credential at its provider. An API is the requests and
-- the decoders of their answers.
use aeroflare.Base.{
  ℕ, Bool, true, false, Option, none, some, List, [], ◌∷◌, ◌++◌, if◌then◌else◌, ◌==◌, Text, codes,
  trim_space, split, Dict, lookup, insert, Outcome, success, failure, nat_eq, text_eq,
}
use aeroflare.Auth.{Identity, Provider, github_api, gitlab_api, cloudflare_api}
use aeroflare.Oci.{value_of}

-- An answer of an API. `scopes` is its header X-OAuth-Scopes.
pub record ApiResponse : Type 0 where
  pub status : ℕ
  pub scopes : Text
  pub body : Text

-- `request` is a GET with a URL and an Authorization header; the decoders read a key of the body.
pub record Api : Type 0 where
  pub request : Text → Text → Option ApiResponse
  pub login : Text → Option Text
  pub username : Text → Option Text
  pub is_success : Text → Option Bool

pub data ValidationError : Type 0 where
  no_token no_answer undecodable : ValidationError
  rejected : ℕ → ValidationError

abbrev pub github_required_scopes : List Text
github_required_scopes = codes "write:packages" ∷ codes "workflow" ∷ []

abbrev pub add_scope : Dict Text Bool → Text → Dict Text Bool
add_scope granted [] = granted
add_scope granted (c ∷ scope) = insert (c ∷ scope) true granted

unfoldable pub granted_scopes : Dict Text Bool → List Text → Dict Text Bool
unfolding trim_space insert
granted_scopes granted [] = granted
granted_scopes granted (s ∷ ss) = granted_scopes (add_scope granted (trim_space s)) ss

abbrev pub scope_warning : Text → Text
scope_warning scope = codes "token missing scope: " ++ scope

-- A key that is not in the map reads as false.
abbrev pub is_granted : Option Bool → Bool
is_granted none = false
is_granted (some b) = b

unfoldable pub scope_warnings : Dict Text Bool → List Text → List Text
unfolding lookup
scope_warnings granted [] = []
scope_warnings granted (scope ∷ scopes) =
    let rest = scope_warnings granted scopes in
    if is_granted (lookup scope granted) then rest else scope_warning scope ∷ rest

abbrev pub identity_with : List Text → Option Text → Outcome ValidationError Identity
identity_with warnings none = failure undecodable
identity_with warnings (some user) = success (record { user = user; warnings = warnings })

abbrev pub github_answer : Api → Option ApiResponse → Outcome ValidationError Identity
github_answer api none = failure no_answer
github_answer api (some response) =
    if response.status == 200
    then identity_with
        (scope_warnings (granted_scopes [] (split b',' response.scopes)) github_required_scopes)
        (api.login response.body)
    else failure (rejected response.status)

-- `validateGithub`.
unfoldable pub validate_github : Api → Dict Text Text → Outcome ValidationError Identity
unfolding value_of granted_scopes scope_warnings split
validate_github api vals =
    let token = value_of (codes "token") vals in
    if token == []
    then failure no_token
    else github_answer api
        (api.request (codes "https://api.github.com/user") (codes "Bearer " ++ token))

abbrev pub gitlab_answer : Api → Option ApiResponse → Outcome ValidationError Identity
gitlab_answer api none = failure no_answer
gitlab_answer api (some response) =
    if response.status == 200
    then identity_with [] (api.username response.body)
    else failure (rejected response.status)

-- `validateGitlab`.
unfoldable pub validate_gitlab : Api → Dict Text Text → Outcome ValidationError Identity
unfolding value_of
validate_gitlab api vals =
    let token = value_of (codes "token") vals in
    if token == []
    then failure no_token
    else gitlab_answer api
        (api.request (codes "https://gitlab.com/api/v4/user") (codes "Bearer " ++ token))

abbrev pub cloudflare_decoded : Text → ℕ → Option Bool → Outcome ValidationError Identity
cloudflare_decoded account status none = failure undecodable
cloudflare_decoded account status (some false) = failure (rejected status)
cloudflare_decoded account status (some true) =
    if status == 200
    then success (record { user = account; warnings = [] })
    else failure (rejected status)

abbrev pub cloudflare_answer : Api → Text → Option ApiResponse → Outcome ValidationError Identity
cloudflare_answer api account none = failure no_answer
cloudflare_answer api account (some response) =
    cloudflare_decoded account response.status (api.is_success response.body)

-- `validateCloudflare`.
unfoldable pub validate_cloudflare : Api → Dict Text Text → Outcome ValidationError Identity
unfolding value_of
validate_cloudflare api vals =
    let token = value_of (codes "token") vals in
    if token == []
    then failure no_token
    else cloudflare_answer api (value_of (codes "account_id") vals) (
        api.request (codes "https://api.cloudflare.com/client/v4/user/tokens/verify")
          (codes "Bearer " ++ token))

-- The check that `init` gives to a service.
unfoldable pub validate : Provider → Api → Dict Text Text → Outcome ValidationError Identity
unfolding validate_github validate_gitlab validate_cloudflare
validate github_api api vals = validate_github api vals
validate gitlab_api api vals = validate_gitlab api vals
validate cloudflare_api api vals = validate_cloudflare api vals
