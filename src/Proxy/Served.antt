-- ===== src/Proxy/Served.antt =====
-- What the proxy answers for a package that was published.
use aeroflare.Base.{
  ◌≡◌, refl, sym, ap, ◌∙◌, ◌≢◌, false, some, List, [], ◌∷◌, ◌++◌, text_beq, text_beq-false, if_true,
  if_false, Text, codes, strip_prefix, trim_prefix, has_suffix, kept_front, trim_suffix, join,
  trim_suffix-append, has_suffix-append, lookup, nat_eq, text_eq,
}
use aeroflare.Proxy.Handler.{
  package_with, fetch_package, narinfo_of_package, serve_native_narinfo, serve_nar_info, route,
  handler, narinfo_labels, first_answer, proxy_upstream, or_not_found, narinfo_answer,
}
use aeroflare.Decimal.{format_int}
use aeroflare.Oci.Metadata.{annotations_of}
use aeroflare.Narinfo.{lines_of, Narinfo, optional_line, to_string, unlines}
use mathlib.Core.List.{reverse-append}
use aeroflare.Proxy.{
  label_lines, references_line, whole_response, Method, Server, get_method, head_method,
  other_method, answered, store_path_key,
}
use aeroflare.Oci.{value_of, package_image, Descriptor}

references_line_lem : (refs : Text) → references_line refs ≡ codes "References: " ++ refs
references_line_lem [] = refl
references_line_lem (c ∷ refs) = refl

abbrev lines_with : Narinfo → Text → List Text
lines_with n references =
    (codes "StorePath: " ++ n.store_path)
    ∷ (codes "URL: " ++ n.url)
    ∷ (codes "Compression: " ++ n.compression)
    ∷ (codes "FileHash: " ++ n.file_hash)
    ∷ (codes "FileSize: " ++ format_int n.file_size)
    ∷ (codes "NarHash: " ++ n.nar_hash)
    ∷ (codes "NarSize: " ++ format_int n.nar_size)
    ∷ references
    ∷ (optional_line "Deriver: " n.deriver
        ++ (optional_line "System: " n.system ++ optional_line "Sig: " n.sig))

-- The lines that are written of the annotations, whatever optional fields there are.
label_lines_optional :
    (n : Narinfo) (deriver system sig : Text)
    → let m = record n { deriver = deriver; system = system; sig = sig } in
      label_lines (annotations_of m)
      ≡ lines_with m (references_line (join (codes " ") n.references))
unfolding label_lines value_of lookup text_beq
label_lines_optional n [] [] [] = refl
label_lines_optional n [] [] (g ∷ sig) = refl
label_lines_optional n [] (s ∷ system) [] = refl
label_lines_optional n [] (s ∷ system) (g ∷ sig) = refl
label_lines_optional n (d ∷ deriver) [] [] = refl
label_lines_optional n (d ∷ deriver) [] (g ∷ sig) = refl
label_lines_optional n (d ∷ deriver) (s ∷ system) [] = refl
label_lines_optional n (d ∷ deriver) (s ∷ system) (g ∷ sig) = refl

label_lines-annotations_of : (n : Narinfo) → label_lines (annotations_of n) ≡ lines_of n
unfolding lines_of
label_lines-annotations_of n =
    label_lines_optional n n.deriver n.system n.sig
    ∙ ap (lines_with n) (references_line_lem (join (codes " ") n.references))

store_path_value : (n : Narinfo) → value_of store_path_key (annotations_of n) ≡ n.store_path
unfolding value_of lookup text_beq
store_path_value n = refl

store_path_is_named :
    (n : Narinfo)
    → n.store_path ≢ []
    → text_beq (value_of store_path_key (annotations_of n)) [] ≡ false
store_path_is_named n named =
    ap (λ v. text_beq v []) (store_path_value n) ∙ text_beq-false n.store_path [] named

-- The path of a narinfo request.
abbrev pub narinfo_path_of : Text → Text
narinfo_path_of tag = codes "/" ++ (tag ++ codes ".narinfo")

not_reserved :
    (tag reserved : Text)
    → has_suffix reserved (codes ".narinfo") ≡ false
    → text_beq (narinfo_path_of tag) reserved ≡ false
not_reserved tag reserved h = text_beq-false (narinfo_path_of tag) reserved (λ e. cc (
    sym (has_suffix-append (codes "/" ++ tag) (codes ".narinfo"))
    ∙ ap (λ s. has_suffix s (codes ".narinfo")) e
    ∙ h))

no_slash_behind : (tag : Text) → trim_suffix (narinfo_path_of tag) (codes "/") ≡ narinfo_path_of tag
unfolding trim_suffix strip_prefix
no_slash_behind tag =
    ap (λ r. kept_front (narinfo_path_of tag) (strip_prefix r (codes "/")))
      (reverse-append (codes "/" ++ tag) (codes ".narinfo"))

module _ {R : Type 0} (server : Server R) where
  -- Where a narinfo request goes.
  route-narinfo :
      (r : R) (method : Method) (tag : Text)
      → route server r method (narinfo_path_of tag)
        ≡ serve_nar_info server r method (narinfo_path_of tag)
  unfolding route has_suffix
  route-narinfo r method tag =
      if_false _ _ _ (not_reserved tag (codes "/nix-cache-info") refl)
      ∙ if_false _ _ _ (not_reserved tag (codes "/public-key") refl)
      ∙ if_false _ _ _ (not_reserved tag (codes "/api/public-key") refl)
      ∙ if_false _ _ _ (not_reserved tag (codes "/_status") refl)
      ∙ if_true _ _ _ (has_suffix-append (codes "/" ++ tag) (codes ".narinfo"))

  pub handler-narinfo :
      (r : R) (method : Method) (tag : Text)
      → method ≢ other_method
      → handler server r method (narinfo_path_of tag)
        ≡ serve_nar_info server r method (narinfo_path_of tag)
  unfolding handler
  handler-narinfo r get_method tag known =
      ap (route server r get_method) (no_slash_behind tag) ∙ route-narinfo r get_method tag
  handler-narinfo r head_method tag known =
      ap (route server r head_method) (no_slash_behind tag) ∙ route-narinfo r head_method tag
  handler-narinfo r other_method tag known = absurd (known refl)

  pub hash_of_path :
      (tag : Text)
      → trim_suffix (trim_prefix (narinfo_path_of tag) (codes "/")) (codes ".narinfo") ≡ tag
  unfolding trim_prefix strip_prefix
  hash_of_path tag = trim_suffix-append tag (codes ".narinfo")

  -- A manifest with the annotations of a narinfo is answered with its text.
  serve_native_narinfo-annotations_of :
      (r : R) (n : Narinfo) (layer : Descriptor) (tag : Text)
      → n.store_path ≢ []
      → server.registry.manifest r tag ≡ some (package_image layer (annotations_of n))
      → serve_native_narinfo server r tag
        ≡ some (answered (whole_response (codes "text/x-nix-narinfo") (to_string n)))
  unfolding serve_native_narinfo fetch_package narinfo_labels to_string
  serve_native_narinfo-annotations_of r n layer tag named found =
      let m = package_image layer (annotations_of n) in
      ap (λ p. narinfo_of_package server (package_with server p)) found
      ∙ ap
          (λ labels.
            narinfo_of_package server
              (some (record { manifest = m; labels = labels; nar = layer })))
          (if_false _ _ _ (store_path_is_named n named))
      ∙ ap (narinfo_answer server) (if_false _ _ _ (store_path_is_named n named))
      ∙ ap (λ ls. some (answered (whole_response (codes "text/x-nix-narinfo") (unlines ls))))
          (label_lines-annotations_of n)

  -- A package with the annotations of a narinfo answers its narinfo request.
  pub handler-annotations_of :
      (r : R) (method : Method) (n : Narinfo) (layer : Descriptor) (tag : Text)
      → method ≢ other_method
      → n.store_path ≢ []
      → server.registry.manifest r tag ≡ some (package_image layer (annotations_of n))
      → handler server r method (narinfo_path_of tag)
        ≡ answered (whole_response (codes "text/x-nix-narinfo") (to_string n))
  unfolding serve_nar_info
  handler-annotations_of r method n layer tag known named found =
      let upstream =
        λ (hash : Text). proxy_upstream server method (codes "/" ++ (hash ++ codes ".narinfo")) in
      handler-narinfo r method tag known
      ∙ ap
          (λ hash.
            or_not_found server (codes "Narinfo Not Found")
              (first_answer server (serve_native_narinfo server r hash) (upstream hash)))
          (hash_of_path tag)
      ∙ ap
          (λ a.
            or_not_found server (codes "Narinfo Not Found") (first_answer server a (upstream tag)))
          (serve_native_narinfo-annotations_of r n layer tag named found)
