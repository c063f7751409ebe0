-- ===== src/Ci/Settings.antt =====
-- internal/ci/cachespec.go and config.go: the settings of a run, from the file and from the inputs
-- that override it.
pub mod Resolved
use aeroflare.Base.{
  ℕ, zero, suc, Bool, true, false, not, ◌||◌, Option, none, some, List, [], ◌∷◌, ◌++◌, map,
  if◌then◌else◌, ◌==◌, Text, codes, trim_space, has_prefix, trim_prefix, cut, to_lower, to_upper,
  ◌>>=◌, or_fail, Outcome, success, failure, text_eq, nat_eq,
}
use aeroflare.Decimal.{ℤ, pos, negsuc}
use aeroflare.Ci.Outputs.{has_sentinel}
use aeroflare.Ci.Changed.{MissingBasePolicy, parse_missing_base_policy, changed_sentinel}

-- `CacheSpec`.
pub record CacheSpec : Type 0 where
  pub registry : Text
  pub repository : Text
  pub raw : Text

pub data SettingsError : Type 0 where
  bad_cache empty_cache no_builds misplaced_input unread_setting unknown_policy no_caches
        mixed_upstreams :
      SettingsError

abbrev pub checked_spec : Text → Text → Outcome SettingsError CacheSpec
checked_spec registry repository =
    if registry == [] || repository == []
    then failure empty_cache
    else success (record {
      registry = registry;
      repository = repository;
      raw = registry ++ codes ";" ++ repository;
    })

abbrev pub without_scheme : Text → Text
without_scheme registry =
    trim_prefix (trim_prefix (trim_space registry) (codes "https://")) (codes "http://")

abbrev pub spec_of_parts : Option (Text × Text) → Outcome SettingsError CacheSpec
spec_of_parts none = failure bad_cache
spec_of_parts (some (registry, repository)) =
    checked_spec (without_scheme registry) (trim_space repository)

-- `ParseCacheSpec`.
unfoldable pub parse_cache_spec : Text → Outcome SettingsError CacheSpec
unfolding trim_space cut trim_prefix
parse_cache_spec s = elim (cut b';' (trim_space s)) [
  | none ↦ failure bad_cache
  | some (registry, repository) ↦ checked_spec (without_scheme registry) (trim_space repository)
]

abbrev pub underscore : ℕ → ℕ
underscore c = if c == b'.' || c == b':' then b'_' else c

-- `envVarFor`.
unfoldable pub env_var_for : Text → Text → Text
unfolding to_upper
env_var_for prefix registry = prefix ++ map underscore (to_upper registry)

-- `os.Getenv`, empty where a variable is not set.
abbrev pub Environment : Type 0
Environment = Text → Text

-- `ResolveToken`.
unfoldable pub resolve_token : Environment → Text → Text
unfolding env_var_for
resolve_token env registry =
    let token = env (env_var_for (codes "AEROFLARE_TOKEN_") registry) in
    if not (token == [])
    then token
    else if registry == codes "ghcr.io"
    then env (codes "GITHUB_TOKEN")
    else []

-- `ResolveAuth`: the user name and the token of a password.
unfoldable pub resolve_auth : Environment → Text → Option (Text × Text)
unfolding resolve_token
resolve_auth env registry =
    let token = resolve_token env registry in
    let username = env (env_var_for (codes "AEROFLARE_USERNAME_") registry) in
    let fallback = env (codes "AEROFLARE_GIT_USERNAME") in
    if token == [] then none else some ((if username == [] then fallback else username), token)

abbrev pub default_upstream : Text
default_upstream = codes "https://cache.nixos.org"

-- `strings.EqualFold(entry, "none")` on ASCII.
abbrev pub is_none_word : Text → Bool
is_none_word entry = to_lower entry == codes "none"

-- The entries that are neither empty nor "none", trimmed.
unfoldable pub upstream_urls : List Text → List Text
upstream_urls [] = []
upstream_urls (e ∷ es) =
    let entry = trim_space e in
    let rest = upstream_urls es in if entry == [] || is_none_word entry then rest else entry ∷ rest

unfoldable pub names_none : List Text → Bool
names_none [] = false
names_none (e ∷ es) = is_none_word (trim_space e) || names_none es

abbrev pub upstreams_by : Bool → List Text → Outcome SettingsError (List Text)
upstreams_by true [] = success []
upstreams_by true (u ∷ us) = failure mixed_upstreams
upstreams_by false [] = success (default_upstream ∷ [])
upstreams_by false (u ∷ us) = success (u ∷ us)

-- `resolveUpstreams`.
unfoldable pub resolve_upstreams : List Text → Outcome SettingsError (List Text)
unfolding upstream_urls names_none
resolve_upstreams raw = upstreams_by (names_none raw) (upstream_urls raw)

-- `FileConfig`; `Inputs` has the same fields.
pub record Inputs : Type 0 where
  pub builds : List Text
  pub caches : List Text
  pub compression : Text
  pub signing_key : Text
  pub workers : ℤ
  pub upstream_caches : List Text
  pub base_ref : Text
  pub on_missing_base : Text

-- `RunSpec`.
pub record RunSpec : Type 0 where
  pub builds : List Text
  pub caches : List CacheSpec
  pub compression : Text
  pub signing_key : Text
  pub workers : ℤ
  pub upstream_caches : List Text
  pub base_ref : Text
  pub on_missing_base : MissingBasePolicy

abbrev pub action_input_names : List Text
action_input_names =
    codes "base"
    ∷ codes "builds"
    ∷ codes "cache"
    ∷ codes "cache-token"
    ∷ codes "compression"
    ∷ codes "config"
    ∷ codes "on-missing-base"
    ∷ codes "release-repo"
    ∷ codes "release-version"
    ∷ codes "signing-key"
    ∷ codes "skip-attestation"
    ∷ codes "token"
    ∷ codes "upstream-cache"
    ∷ codes "workers"
    ∷ []

-- `entry` is the name, then a colon.
unfoldable pub is_action_input : List Text → Text → Bool
is_action_input [] entry = false
is_action_input (name ∷ names) entry =
    has_prefix entry (name ++ codes ":") || is_action_input names entry

-- `validateBuilds`.
unfoldable pub validate_builds : List Text → Outcome SettingsError (Unit {0})
unfolding is_action_input
validate_builds [] = success tt
validate_builds (b ∷ bs) =
    let rest = validate_builds bs in
    if is_action_input action_input_names (trim_space b) then failure misplaced_input else rest

-- `validateChangedSettings`.
unfoldable pub validate_changed_settings :
    List Text → Text → Text → Outcome SettingsError (Unit {0})
unfolding has_sentinel
validate_changed_settings builds base_ref on_missing_base =
    if has_sentinel builds changed_sentinel
    then success tt
    else if not (trim_space base_ref == []) || not (trim_space on_missing_base == [])
    then failure unread_setting
    else success tt

-- An input that is not empty replaces the value of the file.
abbrev pub override : Text → Text → Text
override file [] = file
override file (c ∷ s) = c ∷ s

abbrev pub override_list : List Text → List Text → List Text
override_list file [] = file
override_list file (x ∷ xs) = x ∷ xs

abbrev pub override_number : ℤ → ℤ → ℤ
override_number file (pos zero) = file
override_number file (pos (suc n)) = pos (suc n)
override_number file (negsuc n) = negsuc n

-- The file with the inputs over it, and the defaults.
unfoldable pub merge : Inputs → Inputs → Inputs
merge fc over = record {
  builds = override_list fc.builds over.builds;
  caches = override_list fc.caches over.caches;
  compression = override (codes "zstd") (override fc.compression over.compression);
  signing_key = override fc.signing_key over.signing_key;
  workers = override_number (pos 50) (override_number fc.workers over.workers);
  upstream_caches = override_list fc.upstream_caches over.upstream_caches;
  base_ref = override fc.base_ref over.base_ref;
  on_missing_base = override fc.on_missing_base over.on_missing_base;
}

unfoldable pub parse_caches : List Text → Outcome SettingsError (List CacheSpec)
unfolding parse_cache_spec
parse_caches [] = success []
parse_caches (c ∷ cs) =
    parse_cache_spec c >>= λ spec. parse_caches cs >>= λ specs. success (spec ∷ specs)

abbrev pub some_list : SettingsError → List Text → Outcome SettingsError (List Text)
some_list e [] = failure e
some_list e (x ∷ xs) = success (x ∷ xs)

-- `Resolve` from the policy on: the policy, the caches, the upstream caches, in this order.
abbrev pub run_spec : Inputs → List Text → MissingBasePolicy → List Text → List CacheSpec → RunSpec
run_spec m builds policy upstreams caches = record {
  builds = builds;
  caches = caches;
  compression = m.compression;
  signing_key = m.signing_key;
  workers = m.workers;
  upstream_caches = upstreams;
  base_ref = m.base_ref;
  on_missing_base = policy;
}

unfoldable pub resolve_caches :
    Inputs → List Text → MissingBasePolicy → List Text → List Text → Outcome SettingsError RunSpec
unfolding parse_caches
resolve_caches m builds policy raw_caches upstreams =
    parse_caches raw_caches >>= λ caches. success (run_spec m builds policy upstreams caches)

unfoldable pub resolve_destinations :
    Inputs → List Text → MissingBasePolicy → List Text → Outcome SettingsError RunSpec
unfolding resolve_upstreams resolve_caches
resolve_destinations m builds policy raw_caches =
    resolve_upstreams m.upstream_caches >>= resolve_caches m builds policy raw_caches

unfoldable pub resolve_policy :
    Inputs → List Text → MissingBasePolicy → Outcome SettingsError RunSpec
unfolding resolve_destinations
resolve_policy m builds policy =
    some_list no_caches m.caches >>= resolve_destinations m builds policy

abbrev pub parse_policy : Inputs → Unit {0} → Outcome SettingsError MissingBasePolicy
parse_policy m u = or_fail unknown_policy (parse_missing_base_policy m.on_missing_base)

-- `Resolve` behind `validateBuilds`, and from the builds on.
unfoldable pub resolve_changed_settings :
    Inputs → List Text → Unit {0} → Outcome SettingsError RunSpec
unfolding validate_changed_settings resolve_policy
resolve_changed_settings m builds u =
    validate_changed_settings builds m.base_ref m.on_missing_base
    >>= parse_policy m
    >>= resolve_policy m builds

unfoldable pub resolve_checked : Inputs → List Text → Outcome SettingsError RunSpec
unfolding validate_builds resolve_changed_settings
resolve_checked m builds = validate_builds builds >>= resolve_changed_settings m builds

unfoldable pub resolve_merged : Inputs → Outcome SettingsError RunSpec
unfolding resolve_checked
resolve_merged m = some_list no_builds m.builds >>= resolve_checked m

-- `Resolve`.
unfoldable pub resolve : Inputs → Inputs → Outcome SettingsError RunSpec
unfolding merge resolve_merged
resolve fc over = resolve_merged (merge fc over)
