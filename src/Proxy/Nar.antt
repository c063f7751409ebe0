-- ===== src/Proxy/Nar.antt =====
-- What pkg/proxy answers to the request for the NAR of a package.
use aeroflare.Base.{
  ◌≡◌, refl, ap, ◌∙◌, ◌≢◌, false, Option, some, List, [], ◌∷◌, ◌++◌, reverse, text_beq, if_true,
  if_false, All, Text, codes, has_prefix, strip_prefix, trim_prefix, has_suffix, kept_front,
  trim_suffix, has_prefix-append, cut_at-append, nat_eq, text_eq,
}
use aeroflare.Oci.{Descriptor, Manifest}
use aeroflare.Proxy.Handler.{
  serve_nar, route, handler, package_with, fetch_package, first_answer, proxy_upstream,
  or_not_found, serve_nar_info, stream_nar, nar_of_package,
}
use aeroflare.Proxy.{
  nar_tag, Method, Server, get_method, head_method, other_method, package_of, http_error,
  nar_content_type, Answer, Package,
}
use aeroflare.Backend.{before_cut}
use aeroflare.Compress.{CompressionType, no_compression, xz, gzip, zstd, extension}
use aeroflare.Prepare.Write.{nar_file_name}
use mathlib.Core.List.{reverse-append}

nar_found :
    (hash behind : Text)
    → All (λ c. c ≢ b'.') hash
    → nar_tag (hash ++ (codes ".nar" ++ behind)) ≡ hash
nar_found hash behind h =
    ap (before_cut (hash ++ (codes ".nar" ++ behind)))
      (cut_at-append b'.' (codes "nar") hash behind h)

nar_tag-nar_file_name :
    (hash : Text) (t : CompressionType)
    → All (λ c. c ≢ b'.') hash
    → nar_tag (nar_file_name hash t) ≡ hash
unfolding extension
nar_tag-nar_file_name hash no_compression h = nar_found hash [] h
nar_tag-nar_file_name hash xz h = nar_found hash (codes ".xz") h
nar_tag-nar_file_name hash gzip h = nar_found hash (codes ".gz") h
nar_tag-nar_file_name hash zstd h = nar_found hash (codes ".zst") h

abbrev pub nar_request : Text → CompressionType → Text
nar_request hash t = codes "/nar/" ++ nar_file_name hash t

-- The path ends neither in a slash nor as that of a narinfo.
no_slash_end :
    (hash : Text) (t : CompressionType)
    → trim_suffix (nar_request hash t) (codes "/") ≡ nar_request hash t
unfolding trim_suffix strip_prefix extension
no_slash_end hash no_compression =
    ap (λ r. kept_front (nar_request hash no_compression) (strip_prefix r (codes "/")))
      (reverse-append (codes "/nar/" ++ hash) (codes ".nar"))
no_slash_end hash xz =
    ap (λ r. kept_front (nar_request hash xz) (strip_prefix r (codes "/")))
      (reverse-append (codes "/nar/" ++ hash) (codes ".nar.xz"))
no_slash_end hash gzip =
    ap (λ r. kept_front (nar_request hash gzip) (strip_prefix r (codes "/")))
      (reverse-append (codes "/nar/" ++ hash) (codes ".nar.gz"))
no_slash_end hash zstd =
    ap (λ r. kept_front (nar_request hash zstd) (strip_prefix r (codes "/")))
      (reverse-append (codes "/nar/" ++ hash) (codes ".nar.zst"))

no_narinfo_end :
    (hash : Text) (t : CompressionType) → has_suffix (nar_request hash t) (codes ".narinfo") ≡ false
unfolding has_suffix has_prefix extension
no_narinfo_end hash no_compression =
    ap (λ r. has_prefix r (reverse (codes ".narinfo")))
      (reverse-append (codes "/nar/" ++ hash) (codes ".nar"))
no_narinfo_end hash xz =
    ap (λ r. has_prefix r (reverse (codes ".narinfo")))
      (reverse-append (codes "/nar/" ++ hash) (codes ".nar.xz"))
no_narinfo_end hash gzip =
    ap (λ r. has_prefix r (reverse (codes ".narinfo")))
      (reverse-append (codes "/nar/" ++ hash) (codes ".nar.gz"))
no_narinfo_end hash zstd =
    ap (λ r. has_prefix r (reverse (codes ".narinfo")))
      (reverse-append (codes "/nar/" ++ hash) (codes ".nar.zst"))

module _ {R : Type 0} (server : Server R) where
  route_nar :
      (r : R) (method : Method) (hash : Text) (t : CompressionType)
      → route server r method (nar_request hash t) ≡ serve_nar server r method (nar_request hash t)
  unfolding route has_prefix text_beq
  route_nar r method hash t =
      if_false _ (serve_nar_info server r method (nar_request hash t)) _ (no_narinfo_end hash t)
      ∙ if_true _ _ (http_error (codes "Not Found") 404)
          (has_prefix-append (codes "/nar/") (nar_file_name hash t))

  handler_nar :
      (r : R) (method : Method) (hash : Text) (t : CompressionType)
      → method ≢ other_method
      → handler server r method (nar_request hash t)
        ≡ serve_nar server r method (nar_request hash t)
  unfolding handler
  handler_nar r get_method hash t known =
      ap (route server r get_method) (no_slash_end hash t) ∙ route_nar r get_method hash t
  handler_nar r head_method hash t known =
      ap (route server r head_method) (no_slash_end hash t) ∙ route_nar r head_method hash t
  handler_nar r other_method hash t known = absurd (known refl)

  package_nar :
      (m : Manifest) (nar : Descriptor) (layers : List Descriptor)
      → m.layers ≡ nar ∷ layers
      → (p : Package) × (package_of m m.layers ≡ some p) × (p.nar ≡ nar)
  package_nar m nar layers e = (_, ap (package_of m) e, refl)

  -- The manifest of a hash has a layer.
  unfoldable pub HasNar : R → Text → Descriptor → Type 0
  HasNar r hash nar =
      (m : Manifest) × (layers : List Descriptor) × (server.registry.manifest r hash ≡ some m)
      × (m.layers ≡ nar ∷ layers)

  -- The request for a NAR is answered with the layer of the manifest that has its hash as tag, and
  -- with what an upstream cache sends if the layer cannot be opened.
  pub handler-HasNar :
      (r : R) (method : Method) (hash : Text) (t : CompressionType) (nar : Descriptor)
      → method ≢ other_method
      → All (λ c. c ≢ b'.') hash
      → HasNar r hash nar
      → handler server r method (nar_request hash t)
        ≡ or_not_found server (codes "NAR Not Found") (
            first_answer server
              (stream_nar server method (nar_content_type (nar_file_name hash t)) nar)
              (proxy_upstream server method (nar_request hash t)))
  unfolding serve_nar trim_prefix strip_prefix fetch_package HasNar
  handler-HasNar r method hash t nar known plain (m, layers, found, one) =
      let (p, made, same) = package_nar m nar layers one in
      let name = nar_file_name hash t in
      let streamed = λ (o : Option Answer).
        or_not_found server (codes "NAR Not Found")
          (first_answer server o (proxy_upstream server method (nar_request hash t))) in
      let with_package =
        λ (o : Option Package). streamed (nar_of_package server method (nar_content_type name) o) in
      handler_nar r method hash t known
      ∙ ap (λ tag. with_package (package_with server (server.registry.manifest r tag)))
          (nar_tag-nar_file_name hash t plain)
      ∙ ap (λ o. with_package (package_with server o)) found
      ∙ ap with_package made
      ∙ ap (λ d. streamed (stream_nar server method (nar_content_type name) d)) same
