-- ===== src/Proxy/Whole.antt =====
-- From the files that pkg/prepare writes, over the images that internal/backend publishes, to what
-- pkg/proxy serves.
use aeroflare.Base.{
  ◌≡◌, refl, sym, ap, ◌∙◌, subst, ◌≢◌, Bool, true, false, Option, none, some, List, [], ◌∷◌, ◌++◌,
  All, In, Text, codes, cut, base, success, nat_eq, text_eq,
}
use aeroflare.Oci.Metadata.{annotations_of, IsPublishable}
use aeroflare.Proxy.Served.{narinfo_path_of, handler-annotations_of}
use aeroflare.Proxy.Handler.{first_answer, proxy_upstream, or_not_found, stream_nar, handler}
use aeroflare.Proxy.Nar.{nar_request, HasNar, handler-HasNar}
use aeroflare.Backend.Published.{
  Names, IsPublished, Publishable, TagsDiffer, publish_all-IsPublished,
}
use aeroflare.Prepare.Write.Signed.{write_nar_and_narinfo_inv, IsWritten-names, IsWritten}
use aeroflare.Narinfo.RoundTrip.{parse-to_string}
use aeroflare.Compress.{CompressionType}
use aeroflare.Oci.{IsFaithful, package_image, new_layer_fast, Descriptor}
use aeroflare.Narinfo.{Narinfo, to_string, parse}
use aeroflare.Backend.{PushReceipt, before_cut, tag_of, native_push_receipts, publish_all}
use aeroflare.Proxy.{Server, whole_response, nar_content_type, Method, other_method, answered}
use aeroflare.Prepare.Write.{Files, nar_file_name, write_nar_and_narinfo, WriteConfig, Written}
use aeroflare.Prepare.Store.{PathInfo, parse_path}
use aeroflare.Signing.{Suite}
use mathlib.Core.Option.{some-injective}

tag_of-parse_path :
    (n : Narinfo) (path hash name : Text)
    → n.store_path ≡ path
    → parse_path path ≡ some (hash, name)
    → tag_of n ≡ hash
unfolding tag_of parse_path
tag_of-parse_path n path hash name e parsed =
    ap (λ p. before_cut (base p) (cut b'-' (base p))) e ∙ ap (before_cut (base path)) parsed

module _ {R : Type 0} (server : Server R) (faithful : IsFaithful server.registry)
    (read_file : Text → Option Text) (cancelled : Bool) where
  -- What a receipt names whose narinfo file is the one that was written.
  Names-written :
      (receipt : PushReceipt) (w : Written) (ni : Narinfo)
      → receipt.narinfo_path ≡ w.narinfo_path
      → read_file w.narinfo_path ≡ some w.narinfo_file
      → w.narinfo_file ≡ to_string w.narinfo
      → IsPublishable w.narinfo
      → Names server.registry faithful read_file cancelled receipt ni
      → ni ≡ w.narinfo
  unfolding Names
  Names-written receipt w ni at_path on_disk text ok (content, read, parsed) =
      let content_text = some-injective _ _ (sym read ∙ ap read_file at_path ∙ on_disk) ∙ text in
      some-injective _ _
        (sym parsed ∙ ap parse content_text ∙ parse-to_string w.narinfo ok.well_formed)

  -- The narinfo and the NAR of a store path are answered for its hash.
  unfoldable pub IsAnswered : R → Method → Text → Written → CompressionType → Type 0
  IsAnswered r method hash w t =
      (handler server r method (narinfo_path_of hash)
        ≡ answered (whole_response (codes "text/x-nix-narinfo") w.narinfo_file))
      × (layer : Descriptor) × (new_layer_fast server.registry
            (codes "application/vnd.aeroflare.nar.v1+" ++ w.narinfo.compression) w.narinfo
          ≡ success layer)
      × (handler server r method (b'/' ∷ w.narinfo.url)
          ≡ or_not_found server (codes "NAR Not Found") (
              first_answer server
                (stream_nar server method (nar_content_type (nar_file_name hash t)) layer)
                (proxy_upstream server method (nar_request hash t))))

  published-IsAnswered :
      (r : R) (method : Method) (hash : Text) (w : Written) (t : CompressionType)
      → method ≢ other_method
      → All (λ c. c ≢ b'.') hash
      → tag_of w.narinfo ≡ hash
      → w.narinfo.url ≡ codes "nar/" ++ nar_file_name hash t
      → w.narinfo_file ≡ to_string w.narinfo
      → w.narinfo.store_path ≢ []
      → IsPublished server.registry faithful read_file cancelled r w.narinfo
      → IsAnswered r method hash w t
  unfolding IsPublished IsAnswered HasNar
  published-IsAnswered r method hash w t known plain tagged url text named
        (layer, made, valid, found) =
      let at_hash = sym (ap (server.registry.manifest r) tagged) ∙ found in
      let n = w.narinfo in
      (
        handler-annotations_of server r method n layer hash known named at_hash
            ∙ ap (λ s. answered (whole_response (codes "text/x-nix-narinfo") s)) (sym text),
        layer,
        made,
        ap (λ u. handler server r method (b'/' ∷ u)) url
            ∙ handler-HasNar server r method hash t layer known plain
                (package_image layer (annotations_of n), [], at_hash, refl),
      )

  -- Let `writeNarAndNarinfo` write the narinfo of a store path, let the receipts that are published
  -- have different tags, and one of them name the narinfo file. When `PushReceipts` gives no error,
  -- a GET or HEAD request for the narinfo of the hash is answered with the text that was written,
  -- and a request for the URL in it with the layer that its hash describes, or with what an
  -- upstream cache sends if the layer cannot be opened.
  pub written_is_answered :
      (files : Files) (suite : Suite) (cfg : WriteConfig) (path hash name : Text) (found : PathInfo)
      (w : Written)
      → write_nar_and_narinfo files suite cfg path hash found ≡ some w
      → parse_path path ≡ some (hash, name)
      → All (λ c. c ≢ b'.') hash
      → IsPublishable w.narinfo
      → (has_pusher : Bool) (r : R) (receipts : List PushReceipt)
      → All (Publishable server.registry faithful read_file cancelled) receipts
      → TagsDiffer server.registry faithful read_file cancelled receipts
      → (native_push_receipts server.registry read_file cancelled has_pusher r receipts).0 ≡ none
      → (receipt : PushReceipt) → In receipt receipts
      → receipt.narinfo_path ≡ w.narinfo_path
      → read_file w.narinfo_path ≡ some w.narinfo_file
      → (method : Method) → method ≢ other_method
      → IsAnswered
          (native_push_receipts server.registry read_file cancelled has_pusher r receipts).1
          method
          hash
          w
          cfg.compression
  unfolding native_push_receipts IsWritten
  written_is_answered files suite cfg path hash name found w e parsed plain ok false r receipts oks
        differ done receipt m at_path on_disk method known =
      absurd (cc done)
  written_is_answered files suite cfg path hash name found w e parsed plain ok true r receipts oks
        differ done receipt m at_path on_disk method known =
      let (nar, packed, written) = write_nar_and_narinfo_inv files suite cfg path hash found w e in
      let (stored, url) = IsWritten-names files suite cfg path hash found w nar packed written in
      let (ni, names, published) =
        publish_all-IsPublished server.registry faithful read_file cancelled r receipts oks differ
          done receipt m in
      let same = Names-written receipt w ni at_path on_disk written.1 ok names in
      let after = (publish_all server.registry read_file cancelled r receipts).1 in
      published-IsAnswered after method hash w cfg.compression known plain
        (tag_of-parse_path w.narinfo path hash name stored parsed) url written.1 ok.named
        (subst (IsPublished server.registry faithful read_file cancelled after) same published)
