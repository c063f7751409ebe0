-- ===== src/Auth.antt =====
-- internal/auth/service.go: the catalog of the services.
pub mod Resolve
pub mod Validate
pub mod Keys
pub mod Stored
use aeroflare.Base.{
  Bool, true, false, ◌||◌, Option, none, some, List, [], ◌∷◌, ◌++◌, if◌then◌else◌, ◌==◌, Text,
  codes, has_prefix, trim_prefix, has_suffix, trim_suffix, nat_eq, text_eq,
}

-- `Field`.
pub record Field : Type 0 where
  pub name : Text
  pub label : Text
  pub secret_key : Text
  pub env_vars : List Text
  pub is_secret : Bool
  pub is_optional : Bool

pub record Identity : Type 0 where
  pub user : Text
  pub warnings : List Text

-- `Service`. `validate` is the name of the API that checks the credential, if there is one.
pub data Provider : Type 0 where
  github_api gitlab_api cloudflare_api : Provider

pub record Service : Type 0 where
  pub id : Text
  pub display_name : Text
  pub fields : List Field
  pub validate : Option Provider

abbrev pub field_of : Text → List Field → Option Field
field_of name [] = none
field_of name (f ∷ fs) = let rest = field_of name fs in if f.name == name then some f else rest

-- `Service.Field`.
unfoldable pub service_field : Service → Text → Option Field
service_field s name = field_of name s.fields

-- The fixed services.
abbrev pub github_field : Field
github_field = record {
  name = codes "token";
  label = codes "GitHub Token";
  secret_key = codes "github-token";
  env_vars = codes "GITHUB_TOKEN" ∷ codes "GH_TOKEN" ∷ [];
  is_secret = true;
  is_optional = false;
}

abbrev pub github_service : Service
github_service = record {
  id = codes "github";
  display_name = codes "GitHub";
  fields = github_field ∷ [];
  validate = some github_api;
}

abbrev pub gitlab_service : Service
gitlab_service = record {
  id = codes "gitlab";
  display_name = codes "GitLab";
  fields =
      record {
        name = codes "token";
        label = codes "GitLab Personal Access Token";
        secret_key = codes "gitlab-token";
        env_vars = codes "GITLAB_TOKEN" ∷ [];
        is_secret = true;
        is_optional = false;
      }
      ∷ [];
  validate = some gitlab_api;
}

abbrev pub cloudflare_service : Service
cloudflare_service = record {
  id = codes "cloudflare";
  display_name = codes "Cloudflare";
  fields =
      record {
        name = codes "token";
        label = codes "Cloudflare API Token";
        secret_key = codes "cf-token";
        env_vars = codes "CLOUDFLARE_API_TOKEN" ∷ [];
        is_secret = true;
        is_optional = false;
      }
      ∷ record {
        name = codes "account_id";
        label = codes "Cloudflare Account ID";
        secret_key = codes "cf-account-id";
        env_vars = codes "CLOUDFLARE_ACCOUNT_ID" ∷ [];
        is_secret = false;
        is_optional = false;
      }
      ∷ [];
  validate = some cloudflare_api;
}

abbrev pub fixed_services : List Service
fixed_services = github_service ∷ gitlab_service ∷ cloudflare_service ∷ []

abbrev pub with_id : Text → List Service → Option Service
with_id id [] = none
with_id id (s ∷ ss) = let rest = with_id id ss in if s.id == id then some s else rest

-- `ServiceByID`.
unfoldable pub service_by_id : Text → Option Service
service_by_id id = with_id id fixed_services

-- `genericOCIService`.
abbrev pub username_key : Text → Text
username_key host = codes "oci-" ++ (host ++ codes "-username")

abbrev pub token_key : Text → Text
token_key host = codes "oci-" ++ (host ++ codes "-token")

abbrev pub generic_oci_service : Text → Service
generic_oci_service host = record {
  id = codes "oci:" ++ host;
  display_name = codes "OCI Registry (" ++ (host ++ codes ")");
  fields =
      record {
        name = codes "username";
        label = codes "Username for " ++ host;
        secret_key = username_key host;
        env_vars = [];
        is_secret = false;
        is_optional = false;
      }
      ∷ record {
        name = codes "token";
        label = codes "Token / Password for " ++ host;
        secret_key = token_key host;
        env_vars = codes "oci_token" ∷ [];
        is_secret = true;
        is_optional = false;
      }
      ∷ [];
  validate = none;
}

-- `ServiceForRegistry`.
unfoldable pub service_for_registry : Text → Service
service_for_registry host =
    if host == codes "ghcr.io"
    then github_service
    else if host == codes "registry.gitlab.com"
    then gitlab_service
    else generic_oci_service host

-- `ociHostFromKey`: the first suffix that leaves a host.
abbrev pub host_or : Text → Option Text → Option Text
host_or [] later = later
host_or (c ∷ host) later = some (c ∷ host)

unfoldable pub host_before : Text → List Text → Option Text
unfolding has_suffix trim_suffix trim_prefix
host_before key [] = none
host_before key (suffix ∷ suffixes) =
    let later = host_before key suffixes in
    if has_suffix key suffix
    then host_or (trim_suffix (trim_prefix key (codes "oci-")) suffix) later
    else later

unfoldable pub oci_host_from_key : Text → Option Text
unfolding host_before has_prefix
oci_host_from_key key =
    if has_prefix key (codes "oci-")
    then host_before key (codes "-username" ∷ codes "-token" ∷ [])
    else none

-- `ServiceForSecretKey`.
abbrev pub has_key : Text → List Field → Bool
has_key key [] = false
has_key key (f ∷ fs) = f.secret_key == key || has_key key fs

abbrev pub owner_of : Text → List Service → Option Service
owner_of key [] = none
owner_of key (s ∷ ss) = let rest = owner_of key ss in if has_key key s.fields then some s else rest

abbrev pub owner_or : Option Service → Option Text → Option Service
owner_or (some s) host = some s
owner_or none none = none
owner_or none (some host) = some (service_for_registry host)

unfoldable pub service_for_secret_key : Text → Option Service
unfolding oci_host_from_key service_for_registry
service_for_secret_key key = owner_or (owner_of key fixed_services) (oci_host_from_key key)
