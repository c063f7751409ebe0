-- ===== src/Proxy/Handler.antt =====
-- pkg/proxy/proxy_server.go: the handlers of the proxy's paths.
use mathlib.Core.Option
use aeroflare.Base.{
  Option, none, some, List, [], ◌∷◌, ◌++◌, if◌then◌else◌, ◌==◌, Text, codes, trim_space, has_prefix,
  trim_prefix, has_suffix, trim_suffix, cut_at, Dict, nat_eq, text_eq,
}
use aeroflare.Oci.{Manifest, Descriptor, value_of, fetch_aeroflare_annotations}
use aeroflare.Narinfo.{unlines}
use aeroflare.Proxy.{
  Server, store_path_key, package_of, config_labels_of, with_store_path, label_lines,
  whole_response, http_error, copied, nar_headers, nar_tag, nar_content_type, Method, Stream,
  Answer, UpstreamResponse, Package, get_method, head_method, other_method, answered,
}

module _ {R : Type 0} (server : Server R) where
  -- `fetchPackage`.
  abbrev pub package_with : Option Manifest → Option Package
  package_with none = none
  package_with (some m) = package_of m m.layers

  unfoldable pub fetch_package : R → Text → Option Package
  unfolding value_of
  fetch_package r tag = package_with (server.registry.manifest r tag)

  -- `narinfoLabels`.
  unfoldable pub narinfo_labels : Package → Option (Dict Text Text)
  unfolding value_of
  narinfo_labels p =
      if value_of store_path_key p.labels == []
      then with_store_path (Option.map config_labels_of (server.config_file p.manifest))
      else some p.labels

  -- `fetchPublicKey`.
  abbrev pub public_key_of : Option (Dict Text Text) → Text
  public_key_of none = []
  public_key_of (some anns) =
      if value_of (codes "aeroflare.public-key") anns == []
      then value_of (codes "public-key") anns
      else value_of (codes "aeroflare.public-key") anns

  unfoldable pub fetch_public_key : R → Text
  unfolding fetch_aeroflare_annotations value_of
  fetch_public_key r =
      public_key_of (fetch_aeroflare_annotations server.registry r (codes "cache-config"))

  -- `serveNixCacheInfo`, `servePublicKey` and `serveStatus`.
  unfoldable pub serve_nix_cache_info : Answer
  unfolding whole_response
  serve_nix_cache_info = answered (
      whole_response (codes "text/x-nix-cache-info")
        (codes "StoreDir: /nix/store\nWantMassQuery: 1\nPriority: 40\n"))

  abbrev pub public_key_answer : Text → Answer
  public_key_answer [] = http_error (codes "No public key configured") 404
  public_key_answer (c ∷ key) =
      answered (whole_response (codes "text/plain") (trim_space (c ∷ key) ++ (b'\n' ∷ [])))

  unfoldable pub serve_public_key : R → Answer
  unfolding fetch_public_key http_error whole_response trim_space
  serve_public_key r = public_key_answer (fetch_public_key r)

  unfoldable pub serve_status : Answer
  serve_status = answered (record {
    status = 200;
    headers = (codes "Content-Type", codes "application/json") ∷ [];
    body = server.encode_status server.repository server.upstream_caches;
  })

  -- `proxyUpstream`: the answer of the first cache that gives one.
  abbrev pub upstream_answer : Option UpstreamResponse → Option Answer
  upstream_answer none = none
  upstream_answer (some response) =
      if response.status == 200 then some (copied 200 response.headers response.stream) else none

  abbrev pub first_answer : Option Answer → Option Answer → Option Answer
  first_answer none later = later
  first_answer (some answer) later = some answer

  unfoldable pub try_upstreams : List Text → Method → Text → Option Answer
  unfolding trim_suffix
  try_upstreams [] method path = none
  try_upstreams (cache ∷ caches) method path =
      first_answer
        (upstream_answer (server.upstream_do method (trim_suffix cache (codes "/") ++ path)))
        (try_upstreams caches method path)

  unfoldable pub proxy_upstream : Method → Text → Option Answer
  unfolding try_upstreams
  proxy_upstream method path = try_upstreams server.upstream_caches method path

  abbrev pub or_not_found : Text → Option Answer → Answer
  or_not_found message none = http_error message 404
  or_not_found message (some answer) = answer

  -- `serveNativeNarinfo`: `none` is its error, before which nothing is written.
  abbrev pub narinfo_answer : Option (Dict Text Text) → Option Answer
  narinfo_answer none = none
  narinfo_answer (some labels) =
      some (answered (whole_response (codes "text/x-nix-narinfo") (unlines (label_lines labels))))

  abbrev pub narinfo_of_package : Option Package → Option Answer
  narinfo_of_package none = none
  narinfo_of_package (some p) = narinfo_answer (narinfo_labels p)

  unfoldable pub serve_native_narinfo : R → Text → Option Answer
  unfolding fetch_package narinfo_labels whole_response label_lines unlines
  serve_native_narinfo r tag = narinfo_of_package (fetch_package r tag)

  -- `serveNarInfo`.
  unfoldable pub serve_nar_info : R → Method → Text → Answer
  unfolding serve_native_narinfo proxy_upstream http_error trim_prefix trim_suffix
  serve_nar_info r method path =
      let hash = trim_suffix (trim_prefix path (codes "/")) (codes ".narinfo") in
      or_not_found (codes "Narinfo Not Found") (
        first_answer (serve_native_narinfo r hash)
          (proxy_upstream method (codes "/" ++ (hash ++ codes ".narinfo"))))

  -- `streamNar`: `none` is its error, before which nothing is written.
  abbrev pub blob_answer : Text → Descriptor → Option Stream → Option Answer
  blob_answer content_type nar none = none
  blob_answer content_type nar (some stream) =
      some (copied 200 (nar_headers content_type nar) stream)

  abbrev pub stream_nar : Method → Text → Descriptor → Option Answer
  stream_nar head_method content_type nar =
      some (answered (record { status = 200; headers = nar_headers content_type nar; body = [] }))
  stream_nar method content_type nar = blob_answer content_type nar (server.open_blob nar.digest)

  abbrev pub nar_of_package : Method → Text → Option Package → Option Answer
  nar_of_package method content_type none = none
  nar_of_package method content_type (some p) = stream_nar method content_type p.nar

  -- `serveNar`.
  unfoldable pub serve_nar : R → Method → Text → Answer
  unfolding fetch_package proxy_upstream http_error trim_prefix cut_at has_suffix
  serve_nar r method path =
      let name = trim_prefix path (codes "/nar/") in
      or_not_found (codes "NAR Not Found") (
        first_answer
          (nar_of_package method (nar_content_type name) (fetch_package r (nar_tag name)))
          (proxy_upstream method path))

  -- The paths of `Handler`.
  unfoldable pub route : R → Method → Text → Answer
  unfolding serve_nix_cache_info serve_public_key serve_status serve_nar_info serve_nar http_error
      has_suffix has_prefix
  route r method path =
      if path == codes "/nix-cache-info"
      then serve_nix_cache_info
      else if path == codes "/public-key"
      then serve_public_key r
      else if path == codes "/api/public-key"
      then serve_public_key r
      else if path == codes "/_status"
      then serve_status
      else if has_suffix path (codes ".narinfo")
      then serve_nar_info r method path
      else if has_prefix path (codes "/nar/")
      then serve_nar r method path
      else http_error (codes "Not Found") 404

  -- `Handler`, on the path of the URL.
  unfoldable pub handler : R → Method → Text → Answer
  unfolding route trim_suffix http_error
  handler r get_method path = route r get_method (trim_suffix path (codes "/"))
  handler r head_method path = route r head_method (trim_suffix path (codes "/"))
  handler r other_method path = http_error (codes "Method Not Allowed") 405
