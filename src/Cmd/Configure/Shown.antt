-- ===== src/Cmd/Configure/Shown.antt =====
-- The public key that is configured is the one that the proxy answers.
use mathlib.Core.Option
use aeroflare.Base.{
  ℕ, ◌≡◌, refl, sym, ap, ◌∙◌, ◌≢◌, true, Option, none, some, [], ◌∷◌, ◌++◌, text_beq, if_true,
  if_some, Text, codes, trim_space, strip_prefix, trim_suffix, lookup, insert, or_fail, success,
  nat_eq, text_eq,
}
use aeroflare.Proxy.Start.{bootstrap_config_with_annotations}
use aeroflare.Proxy.Handler.{
  public_key_of, fetch_public_key, public_key_answer, serve_public_key, route, handler,
}
use aeroflare.Cmd.Configure.{
  existing_public_key, save_key, configure_run, FormAnswer, submitted, not_saved,
}
use aeroflare.Proxy.{
  whole_response, Method, Server, get_method, head_method, other_method, answered,
}
use aeroflare.Oci.{
  value_of, merged, config_image, fetch_aeroflare_annotations, push_config_manifest, Descriptor,
  Manifest, IsFaithful,
}

or_fail-some :
    {A : Type 0} {E : Type 0} (e : E) (o : Option A) (a : A) → or_fail e o ≡ success a → o ≡ some a
or_fail-some e none a h = cc h
or_fail-some e (some x) a h = cc h

module _ {R : Type 0} (server : Server R) (faithful : IsFaithful server.registry)
    (empty_layer : Descriptor) (form : Text → FormAnswer) where
  key_manifest : Text → Manifest
  key_manifest key = config_image empty_layer ((codes "aeroflare.public-key", key) ∷ [])

  configure_run_inv :
      (r after : R) (target : Option (Text × Text)) (token : Option Text) (key : Text)
      → form (existing_public_key (bootstrap_config_with_annotations server.registry r))
        ≡ submitted key
      → configure_run server.registry empty_layer form r target token ≡ success after
      → (server.registry.is_tag (codes "cache-config") ≡ true)
        × (server.registry.put r (codes "cache-config") (key_manifest key) ≡ some after)
  unfolding configure_run push_config_manifest key_manifest
  configure_run_inv r after none token key typed e = cc e
  configure_run_inv r after (some target) none key typed e = cc e
  configure_run_inv r after (some target) (some token) key typed e = if_some _ _ (
      or_fail-some not_saved _ after
        (sym (ap (save_key server.registry empty_layer form r) typed) ∙ e))

  fetch_public_key-key_manifest :
      (r : R) (c : ℕ) (key : Text)
      → server.registry.is_tag (codes "cache-config") ≡ true
      → server.registry.manifest r (codes "cache-config") ≡ some (key_manifest (c ∷ key))
      → fetch_public_key server r ≡ c ∷ key
  unfolding fetch_public_key fetch_aeroflare_annotations merged insert lookup value_of text_beq
      key_manifest
  fetch_public_key-key_manifest r c key valid found =
      ap (public_key_of server) (
        if_true _ _ _ valid
        ∙ ap (Option.map (λ m. merged (merged [] m.annotations) m.labels)) found)

  public_key_route :
      (r : R) (method : Method)
      → method ≢ other_method
      → handler server r method (codes "/public-key") ≡ serve_public_key server r
  unfolding handler route trim_suffix strip_prefix text_beq
  public_key_route r get_method known = refl
  public_key_route r head_method known = refl
  public_key_route r other_method known = absurd (known refl)

  -- When the command `configure` saves a key that is not empty, a GET or HEAD request for the public
  -- key is answered with it, without the white space around it, and a line end.
  pub handler-configure_run :
      (r after : R) (target : Option (Text × Text)) (token : Option Text) (c : ℕ) (key : Text)
      → form (existing_public_key (bootstrap_config_with_annotations server.registry r))
        ≡ submitted (c ∷ key)
      → configure_run server.registry empty_layer form r target token ≡ success after
      → (method : Method) → method ≢ other_method
      → handler server after method (codes "/public-key")
        ≡ answered (whole_response (codes "text/plain") (trim_space (c ∷ key) ++ (b'\n' ∷ [])))
  unfolding serve_public_key
  handler-configure_run r after target token c key typed e method known =
      let (valid, put) = configure_run_inv r after target token (c ∷ key) typed e in
      public_key_route after method known
      ∙ ap (public_key_answer server) (
          fetch_public_key-key_manifest after c key valid
            (faithful.manifest-put r (codes "cache-config") (key_manifest (c ∷ key)) after put))
