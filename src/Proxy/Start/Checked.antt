-- ===== src/Proxy/Start/Checked.antt =====
-- What is checked before the proxy starts.
use mathlib.Core.Option.{some-injective}
use aeroflare.Base.{
  ℕ, ◌≡◌, refl, sym, ap, ◌∙◌, ◌≢◌, ◌⊎◌, inl, inr, Bool, true, false, not, ◌&&◌, Option, none, some,
  List, [], ◌∷◌, if◌then◌else◌, ◌==◌, Bool-cases, text_beq_iff, Option-cases, if_true, if_false,
  All, Text, codes, success, nat_eq, text_eq,
}
use aeroflare.Proxy.Start.{
  is_web_url, is_valid_upstream_url, first_invalid, start_checked, new_proxy_server, start_proxy,
  Url, UrlSystem,
}
use aeroflare.Proxy.{Server}

web_test :
    (a b c : Bool)
    → (if not a && not b then false else not c) ≡ true
    → ((a ≡ true) ⊎ (b ≡ true)) × (c ≡ false)
web_test true b false e = (inl refl, refl)
web_test true b true e = cc e
web_test false true false e = (inr refl, refl)
web_test false true true e = cc e
web_test false false c e = cc e

is_full : (s : Text) → (s == []) ≡ false → s ≢ []
is_full s other e = cc (sym ((text_beq_iff s []).1 e) ∙ other)

web_parts :
    (u : Url)
    → is_web_url (some u) ≡ true
    → ((u.scheme ≡ codes "http") ⊎ (u.scheme ≡ codes "https")) × (u.host ≢ [])
web_parts u e =
    let (scheme, host) = web_test (u.scheme == codes "http") (u.scheme == codes "https") _ e in
    (
      elim scheme [
        | inl h ↦ inl ((text_beq_iff u.scheme (codes "http")).0 h)
        | inr h ↦ inr ((text_beq_iff u.scheme (codes "https")).0 h)
      ],
      is_full u.host host,
    )

start_checked_inv :
    (urls : UrlSystem) {R : Type 0} (o : Option Text) (s : Option (Server R)) (listener : Option ℕ)
    (port : ℕ) (server : Server R)
    → start_checked urls o s listener ≡ success (port, server)
    → (o ≡ none) × (s ≡ some server)
start_checked_inv urls (some u) s listener port server e = cc e
start_checked_inv urls none none listener port server e = cc e
start_checked_inv urls none (some s) none port server e = cc e
start_checked_inv urls none (some s) (some p) port server e = (refl, cc e)

new_proxy_server_inv :
    (urls : UrlSystem) {R : Type 0} (a b : Bool) (world server : Server R) (repository : Text)
    (upstreams : List Text)
    → new_proxy_server urls a b world repository upstreams ≡ some server
    → server.upstream_caches ≡ upstreams
new_proxy_server_inv urls false b world server repository upstreams e = cc e
new_proxy_server_inv urls true false world server repository upstreams e = cc e
new_proxy_server_inv urls true true world server repository upstreams e =
    ap (λ s. s.upstream_caches) (sym (some-injective _ _ e))

module _ (urls : UrlSystem) where
  -- A URL of the web with a host.
  abbrev pub IsWeb : Text → Type 0
  IsWeb raw =
      (u : Url) × (urls.parse_request_uri raw ≡ some u)
      × ((u.scheme ≡ codes "http") ⊎ (u.scheme ≡ codes "https"))
      × (u.host ≢ [])

  valid-IsWeb : (raw : Text) → is_valid_upstream_url urls raw ≡ true → IsWeb raw
  valid-IsWeb raw e = elim (Option-cases (urls.parse_request_uri raw)) [
    | inl missing ↦ absurd (cc (sym (ap is_web_url missing) ∙ e))
    | inr (u, found) ↦
        let (scheme, host) = web_parts u (sym (ap is_web_url found) ∙ e) in (u, found, scheme, host)
  ]

  first_invalid-IsWeb : (us : List Text) → first_invalid urls us ≡ none → All IsWeb us
  first_invalid-IsWeb [] e = tt
  first_invalid-IsWeb (u ∷ us) e = elim (Bool-cases (is_valid_upstream_url urls u)) [
    | inl valid ↦ (
      valid-IsWeb u valid,
      first_invalid-IsWeb us (sym (if_true _ (first_invalid urls us) (some u) valid) ∙ e),
    )
    | inr other ↦ absurd (cc (sym (if_false _ (first_invalid urls us) (some u) other) ∙ e))
  ]

  -- When `StartProxy` starts a server, each of its upstream caches is a URL with the scheme http or
  -- https and a host, and they are those that were configured.
  pub start_proxy-IsWeb :
      {R : Type 0} (is_repository has_puller : Bool) (listener : Option ℕ) (world : Server R)
      (repository : Text) (upstreams : List Text) (port : ℕ) (server : Server R)
      → start_proxy urls is_repository has_puller listener world repository upstreams
        ≡ success (port, server)
      → (server.upstream_caches ≡ upstreams) × All IsWeb upstreams
  unfolding start_proxy
  start_proxy-IsWeb a b listener world repository upstreams port server e =
      let (valid, made) =
        start_checked_inv urls (first_invalid urls upstreams)
          (new_proxy_server urls a b world repository upstreams) listener port server e in
      (
        new_proxy_server_inv urls a b world server repository upstreams made,
        first_invalid-IsWeb upstreams valid,
      )
