-- ===== src/Proxy/Start.antt =====
-- pkg/proxy/checks.go and bootstrap.go: the configuration of the proxy and its start. net/url and
-- the listener are the environment.
pub mod Checked
use mathlib.Core.Option
use aeroflare.Base.{
  ℕ, Bool, true, false, not, ◌&&◌, Option, none, some, List, [], ◌∷◌, if◌then◌else◌, ◌==◌, length,
  contains, Text, codes, split, Dict, Outcome, success, failure, nat_eq, text_eq,
}
use aeroflare.Proxy.{Server}
use aeroflare.Oci.{value_of, fetch_aeroflare_annotations, Registry}
use aeroflare.Hash.{base32_chars}

-- `IsValidNixStoreHash`, whose table holds the characters of the base 32 of Nix.
unfoldable pub are_nix_chars : Text → Bool
unfolding contains
are_nix_chars [] = true
are_nix_chars (c ∷ hash) =
    let rest = are_nix_chars hash in if contains base32_chars c then rest else false

unfoldable pub is_valid_nix_store_hash : Text → Bool
unfolding are_nix_chars
is_valid_nix_store_hash hash = if length hash == 32 then are_nix_chars hash else false

-- The parts of a `url.URL` that are read or written.
pub record Url : Type 0 where
  pub scheme : Text
  pub host : Text
  pub path : Text

-- net/url: `ParseRequestURI`, `Parse`, `JoinPath` and `URL.String`.
pub record UrlSystem : Type 0 where
  pub parse_request_uri : Text → Option Url
  pub parse_url : Text → Option Url
  pub join_paths : Text → Text → Option Text
  pub print_url : Url → Text

abbrev pub is_web_url : Option Url → Bool
is_web_url none = false
is_web_url (some u) =
    if not (u.scheme == codes "http") && not (u.scheme == codes "https")
    then false
    else not (u.host == [])

-- `RemoteConfig`.
pub record RemoteConfig : Type 0 where
  pub worker_url : Text
  pub public_key : Text
  pub upstream_caches : List Text

abbrev pub caches_of : Text → List Text
caches_of [] = []
caches_of (c ∷ upstream) = split b',' (c ∷ upstream)

abbrev pub remote_config_of : Dict Text Text → RemoteConfig × Dict Text Text
remote_config_of anns = (
  record {
    worker_url = value_of (codes "aeroflare.worker-url") anns;
    public_key = value_of (codes "aeroflare.public-key") anns;
    upstream_caches = caches_of (value_of (codes "aeroflare.upstream-caches") anns);
  },
  anns,
)

-- `BootstrapConfigWithAnnotations` and `BootstrapConfig`: `none` is their error.
unfoldable pub bootstrap_config_with_annotations :
    {R : Type 0} → Registry R → R → Option (RemoteConfig × Dict Text Text)
unfolding fetch_aeroflare_annotations value_of split
bootstrap_config_with_annotations registry r =
    Option.map remote_config_of (fetch_aeroflare_annotations registry r (codes "cache-config"))

unfoldable pub bootstrap_config : {R : Type 0} → Registry R → R → Option RemoteConfig
unfolding bootstrap_config_with_annotations
bootstrap_config registry r = Option.map (λ c. c.0) (bootstrap_config_with_annotations registry r)

-- What `StartProxy` fails with.
pub data StartError : Type 0 where
  invalid_upstream : Text → StartError
  no_server no_listener : StartError

module _ (urls : UrlSystem) where
  -- `IsValidUpstreamURL`.
  abbrev pub is_valid_upstream_url : Text → Bool
  is_valid_upstream_url raw = is_web_url (urls.parse_request_uri raw)

  -- `BuildUpstreamURL`.
  abbrev pub with_joined : Url → Option Text → Option Text
  with_joined u none = none
  with_joined u (some path) = some (urls.print_url (record u { path = path }))

  abbrev pub upstream_url_of : Text → Option Url → Option Text
  upstream_url_of path none = none
  upstream_url_of path (some u) = with_joined u (urls.join_paths u.path path)

  unfoldable pub build_upstream_url : Text → Text → Option Text
  build_upstream_url base_url path = upstream_url_of path (urls.parse_url base_url)

  abbrev pub first_invalid : List Text → Option Text
  first_invalid [] = none
  first_invalid (u ∷ us) =
      let rest = first_invalid us in if is_valid_upstream_url u then rest else some u

  -- The server of `NewProxyServer`, and the port on which a listener is opened.
  abbrev pub listening : {R : Type 0} → Option ℕ → Server R → Outcome StartError (ℕ × Server R)
  listening none server = failure no_listener
  listening (some port) server = success (port, server)

  abbrev pub serving :
      {R : Type 0} → Option (Server R) → Option ℕ → Outcome StartError (ℕ × Server R)
  serving none listener = failure no_server
  serving (some server) listener = listening listener server

  abbrev pub start_checked :
      {R : Type 0} → Option Text → Option (Server R) → Option ℕ → Outcome StartError (ℕ × Server R)
  start_checked (some upstream) server listener = failure (invalid_upstream upstream)
  start_checked none server listener = serving server listener

  -- `NewProxyServer`. `world` has what the server reaches, which the references and the puller of
  -- the registry stand for.
  abbrev pub new_proxy_server :
      {R : Type 0} → Bool → Bool → Server R → Text → List Text → Option (Server R)
  new_proxy_server is_repository has_puller world repository upstreams =
      if is_repository
      then (if has_puller
          then some (record world { repository = repository; upstream_caches = upstreams })
          else none)
      else none

  -- `StartProxy`, up to the goroutines that serve and shut down.
  unfoldable pub start_proxy :
      {R : Type 0}
      → Bool
      → Bool
      → Option ℕ
      → Server R
      → Text
      → List Text
      → Outcome StartError (ℕ × Server R)
  start_proxy is_repository has_puller listener world repository upstreams =
      start_checked (first_invalid upstreams)
        (new_proxy_server is_repository has_puller world repository upstreams) listener
