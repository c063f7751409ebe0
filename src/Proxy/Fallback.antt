-- ===== src/Proxy/Fallback.antt =====
-- What pkg/proxy answers for a package that the registry does not have.
use aeroflare.Base.{
  ◌≡◌, refl, ap, ◌∙◌, ◌≢◌, inl, inr, none, some, List, [], ◌∷◌, ◌++◌, nat_beq_iff, Option-cases,
  if_true, if_false, not_same, All, Text, codes, trim_suffix, nat_eq, text_eq,
}
use aeroflare.Proxy.Served.{narinfo_path_of, handler-narinfo, hash_of_path}
use aeroflare.Proxy.Handler.{
  upstream_answer, first_answer, try_upstreams, proxy_upstream, or_not_found, serve_native_narinfo,
  serve_nar_info, handler,
}
use aeroflare.Proxy.{Server, Method, UpstreamResponse, http_error, copied, other_method}

module _ {R : Type 0} (server : Server R) where
  abbrev pub upstream_url : Text → Text → Text
  upstream_url cache path = trim_suffix cache (codes "/") ++ path

  -- An upstream cache that does not answer, or not with 200.
  abbrev pub IsSilent : Method → Text → Text → Type 0
  IsSilent method path cache =
      (response : UpstreamResponse)
      → server.upstream_do method (upstream_url cache path) ≡ some response
      → response.status ≢ 200

  silent_answer :
      (method : Method) (path cache : Text)
      → IsSilent method path cache
      → upstream_answer server (server.upstream_do method (upstream_url cache path)) ≡ none
  silent_answer method path cache silent =
      elim (Option-cases (server.upstream_do method (upstream_url cache path))) [
        | inl none_there ↦ ap (upstream_answer server) none_there
        | inr (response, e) ↦
            ap (upstream_answer server) e
            ∙ if_false _ _ _ (not_same response.status 200 (silent response e))
      ]

  try_upstreams_silent :
      (method : Method) (path : Text) (caches : List Text)
      → All (IsSilent method path) caches
      → try_upstreams server caches method path ≡ none
  unfolding try_upstreams
  try_upstreams_silent method path [] h = refl
  try_upstreams_silent method path (cache ∷ caches) (h, hs) =
      ap (λ a. first_answer server a (try_upstreams server caches method path))
        (silent_answer method path cache h)
      ∙ try_upstreams_silent method path caches hs

  try_upstreams_first :
      (method : Method) (path : Text) (before : List Text) (cache : Text) (behind : List Text)
      (response : UpstreamResponse)
      → All (IsSilent method path) before
      → server.upstream_do method (upstream_url cache path) ≡ some response
      → response.status ≡ 200
      → try_upstreams server (before ++ (cache ∷ behind)) method path
        ≡ some (copied 200 response.headers response.stream)
  unfolding try_upstreams
  try_upstreams_first method path [] cache behind response h e good =
      ap
        (λ a.
          first_answer server (upstream_answer server a) (try_upstreams server behind method path))
        e
      ∙ ap (λ a. first_answer server a (try_upstreams server behind method path))
          (if_true _ _ _ ((nat_beq_iff _ _).1 good))
  try_upstreams_first method path (b ∷ before) cache behind response (h, hs) e good =
      ap
        (λ a. first_answer server a (try_upstreams server (before ++ (cache ∷ behind)) method path))
        (silent_answer method path b h)
      ∙ try_upstreams_first method path before cache behind response hs e good

  -- A narinfo request that the registry cannot answer.
  serve_nar_info_missing :
      (r : R) (method : Method) (tag : Text)
      → method ≢ other_method
      → serve_native_narinfo server r tag ≡ none
      → handler server r method (narinfo_path_of tag)
        ≡ or_not_found server
            (codes "Narinfo Not Found")
            (try_upstreams server server.upstream_caches method (narinfo_path_of tag))
  unfolding serve_nar_info proxy_upstream
  serve_nar_info_missing r method tag known missing =
      let upstream =
        λ (hash : Text). proxy_upstream server method (codes "/" ++ (hash ++ codes ".narinfo")) in
      handler-narinfo server r method tag known
      ∙ ap
          (λ hash.
            or_not_found server (codes "Narinfo Not Found")
              (first_answer server (serve_native_narinfo server r hash) (upstream hash)))
          (hash_of_path server tag)
      ∙ ap
          (λ a.
            or_not_found server (codes "Narinfo Not Found") (first_answer server a (upstream tag)))
          missing

  -- When the registry has no package with narinfo metadata for a tag and no upstream cache answers
  -- 200, a GET or HEAD request for the narinfo of the tag is answered with 404.
  pub handler_not_found :
      (r : R) (method : Method) (tag : Text)
      → method ≢ other_method
      → serve_native_narinfo server r tag ≡ none
      → All (IsSilent method (narinfo_path_of tag)) server.upstream_caches
      → handler server r method (narinfo_path_of tag) ≡ http_error (codes "Narinfo Not Found") 404
  handler_not_found r method tag known missing silent =
      serve_nar_info_missing r method tag known missing
      ∙ ap (or_not_found server (codes "Narinfo Not Found"))
          (try_upstreams_silent method (narinfo_path_of tag) server.upstream_caches silent)

  -- When the registry has no package with narinfo metadata for a tag, a GET or HEAD request for the
  -- narinfo of the tag is answered with what the first upstream cache sends that answers 200, and it
  -- is aborted if the copy is interrupted.
  pub handler_fallback :
      (r : R) (method : Method) (tag : Text) (before : List Text) (cache : Text)
      (behind : List Text) (response : UpstreamResponse)
      → method ≢ other_method
      → serve_native_narinfo server r tag ≡ none
      → server.upstream_caches ≡ before ++ (cache ∷ behind)
      → All (IsSilent method (narinfo_path_of tag)) before
      → server.upstream_do method (upstream_url cache (narinfo_path_of tag)) ≡ some response
      → response.status ≡ 200
      → handler server r method (narinfo_path_of tag) ≡ copied 200 response.headers response.stream
  handler_fallback r method tag before cache behind response known missing all silent e good =
      serve_nar_info_missing r method tag known missing
      ∙ ap (or_not_found server (codes "Narinfo Not Found")) (
          ap (λ cs. try_upstreams server cs method (narinfo_path_of tag)) all
          ∙ try_upstreams_first method (narinfo_path_of tag) before cache behind response silent e
              good)
