-- ===== src/Tests/ProxyTests.antt =====
-- A store path that is written, published and served, and requests that upstream caches answer.
use aeroflare.Base.{
  ◌<◌, ◌≡◌, refl, sym, ap, ◌∙◌, subst, ◌≢◌, inl, true, false, Option, none, some, List, [], ◌∷◌,
  ◌++◌, arith, if◌then◌else◌, ◌==◌, text_beq, All, Text, codes, trim_space, has_prefix, trim_suffix,
  Dict, lookup, insert, lookup-insert_self, lookup-insert_ne, success, text_eq, nat_eq,
}
use aeroflare.Cmd.Configure.Shown.{handler-configure_run}
use aeroflare.Cmd.Configure.{configure_run, submitted}
use aeroflare.Prepare.Write.Described.{new_layer_fast-write_nar_and_narinfo}
use aeroflare.Hash.{base32_index, hex}
use aeroflare.Oci.Metadata.{annotations_of, IsPublishable}
use aeroflare.Oci.Pulled.{pull-push_nar_package_with}
use aeroflare.Proxy.Served.{narinfo_path_of}
use aeroflare.Proxy.Handler.{serve_native_narinfo, handler}
use aeroflare.Proxy.Fallback.{handler_not_found, handler_fallback, IsSilent}
use aeroflare.Proxy.Published.{IsServed, push_receipts-IsServed}
use aeroflare.Tests.WriteTests.{
  hello_narinfo, toy_files, toy_config, hello_path, hello_info, hello_hash, hello_written,
  hello_is_written, hello-IsWellFormed, hello-IsPublishable,
}
use aeroflare.Proxy.Whole.{IsAnswered, written_is_answered}
use aeroflare.Backend.Published.{Names, Publishable, TagsDiffer}
use aeroflare.Prepare.Write.Signed.{written_is_verified}
use aeroflare.Proxy.{
  http_error, copied, Method, UpstreamResponse, Server, get_method, head_method, whole_response,
  answered,
}
use aeroflare.Backend.{native_push_receipts, PushReceipt}
use aeroflare.Narinfo.RoundTrip.{parse-to_string}
use aeroflare.Tests.SigningTests.{raise, toy, test_key, toy-IsSound, test_seed, key_file, key_read}
use aeroflare.Signing.{sign_narinfo, public_key, verify_narinfo}
use aeroflare.Decimal.{pos}
use aeroflare.Compress.{zstd}
use aeroflare.Oci.{
  Registry, Manifest, IsFaithful, package_image, pull_oci_native_manifest, new_layer_fast,
  push_nar_package_with, Descriptor, config_image, push_config_manifest,
}
use aeroflare.Narinfo.{Narinfo, to_string, parse}
use aeroflare.Prepare.Store.{parse_path}
use mathlib.Core.Option.{some-injective}

-- A registry as a map from tags.
abbrev map_registry : Registry (Dict Text Manifest)
map_registry = record {
  is_tag = λ tag. true;
  is_digest = λ digest. true;
  put = λ r tag m. some (insert tag m r);
  manifest = λ r tag. lookup tag r;
}

map_registry-IsFaithful : IsFaithful map_registry
map_registry-IsFaithful = record {
  manifest-put =
      λ r tag m after e. ap (lookup tag) (sym (some-injective _ _ e)) ∙ lookup-insert_self tag m r;
  manifest-put_ne = λ r tag other m after ne e.
      ap (lookup other) (sym (some-injective _ _ e))
      ∙ lookup-insert_ne tag other m r (λ same. ne (sym same));
}

abbrev hello_receipt : PushReceipt
hello_receipt = record {
  store_path = hello_path;
  narinfo_path = codes "/out/aaa.narinfo";
  nar_digest = [];
  nar_size = 6;
  nar_path = codes "/out/aaa.nar.zst";
  compression = codes "zstd";
  is_root = true;
}

abbrev read_hello : Text → Option Text
read_hello path = if path == codes "/out/aaa.narinfo" then some (to_string hello_narinfo) else none

hello_on_disk : read_hello (codes "/out/aaa.narinfo") ≡ some (to_string hello_narinfo)
unfolding text_beq
hello_on_disk = refl

-- The first cache is not there, the second has no path, and the third has all of them.
abbrev toy_upstreams : Method → Text → Option UpstreamResponse
toy_upstreams method url =
    if has_prefix url (codes "http://b/")
    then some
        (record { status = 404; headers = []; stream = record { bytes = []; is_whole = true } })
    else if has_prefix url (codes "http://c/")
    then some (record {
      status = 200;
      headers = (codes "Server", codes "c") ∷ [];
      stream = record { bytes = url; is_whole = true };
    })
    else none

abbrev server_with : List Text → Server (Dict Text Manifest)
server_with caches = record {
  registry = map_registry;
  repository = codes "cache";
  upstream_caches = caches;
  config_file = λ m. none;
  open_blob = λ digest. some (record { bytes = codes "packed"; is_whole = true });
  upstream_do = toy_upstreams;
  encode_status = λ repository caches. codes "{}";
}

abbrev toy_server : Server (Dict Text Manifest)
toy_server = server_with (codes "http://a" ∷ codes "http://b/" ∷ codes "http://c/" ∷ [])

hello_is_named :
    (ni : Narinfo)
    → Names map_registry map_registry-IsFaithful read_hello false hello_receipt ni
    → IsPublishable ni
unfolding Names
hello_is_named ni (content, read, parsed) =
    subst IsPublishable
      (some-injective _ _ (
        sym (parse-to_string hello_narinfo hello-IsWellFormed)
        ∙ ap parse (some-injective _ _ (sym hello_on_disk ∙ read))
        ∙ parsed))
      hello-IsPublishable

hello-Publishable : Publishable map_registry map_registry-IsFaithful read_hello false hello_receipt
unfolding Publishable
hello-Publishable = hello_is_named

hello-TagsDiffer :
    TagsDiffer map_registry map_registry-IsFaithful read_hello false (hello_receipt ∷ [])
unfolding TagsDiffer
hello-TagsDiffer = ((λ ni names. tt), tt)

hello_is_pushed :
    (native_push_receipts map_registry read_hello false true [] (hello_receipt ∷ [])).0 ≡ none
unfolding native_push_receipts text_beq parse new_layer_fast push_nar_package_with sign_narinfo
    raise base32_index
hello_is_pushed = refl

aaa_plain : All (λ c. c ≢ b'.') (codes "aaa")
aaa_plain = ground arith

hello_parts : parse_path hello_path ≡ some (codes "aaa", codes "hello")
unfolding parse_path
hello_parts = refl

written_is_answered_example :
    IsAnswered toy_server map_registry-IsFaithful read_hello false
      (native_push_receipts map_registry read_hello false true [] (hello_receipt ∷ [])).1
      get_method
      (codes "aaa")
      hello_written
      zstd
written_is_answered_example =
    written_is_answered toy_server map_registry-IsFaithful read_hello false toy_files toy toy_config
      hello_path (codes "aaa") (codes "hello") hello_info hello_written hello_is_written hello_parts
      aaa_plain hello-IsPublishable true [] (hello_receipt ∷ []) (hello-Publishable, tt)
      hello-TagsDiffer hello_is_pushed hello_receipt (inl refl) refl hello_on_disk get_method
      (λ e. cc e)

written_is_verified_example :
    verify_narinfo toy
      (public_key toy test_key)
      hello_path
      hello_hash
      (pos 8)
      (codes "aaa-hello" ∷ codes "bbb-glibc" ∷ [])
      hello_narinfo.sig
    ≡ none
written_is_verified_example =
    written_is_verified toy_files toy toy_config hello_path (codes "aaa") hello_info toy-IsSound
      hello_written hello_is_written key_file test_key refl key_read test_seed refl refl

push_receipts-IsServed_example :
    (ni : Narinfo) × Names map_registry map_registry-IsFaithful read_hello false hello_receipt ni
    × IsServed toy_server map_registry-IsFaithful read_hello false
        (native_push_receipts map_registry read_hello false true [] (hello_receipt ∷ [])).1
        head_method
        ni
push_receipts-IsServed_example =
    push_receipts-IsServed toy_server map_registry-IsFaithful read_hello false true []
      (hello_receipt ∷ []) (hello-Publishable, tt) hello-TagsDiffer hello_is_pushed hello_receipt
      (inl refl) head_method (λ e. cc e)

abbrev hello_layer : Descriptor
hello_layer = record { digest = codes "sha256:d"; size = pos 6; media_type = codes "m" }

abbrev hello_image : Dict Text Manifest
hello_image = (codes "aaa", package_image hello_layer (annotations_of hello_narinfo)) ∷ []

hello_image_pushed :
    push_nar_package_with map_registry [] hello_layer hello_narinfo (codes "aaa") ≡ some hello_image
unfolding push_nar_package_with sign_narinfo raise text_beq
hello_image_pushed = refl

pull-push_nar_package_with_example :
    pull_oci_native_manifest map_registry hello_image (codes "aaa") ≡ some hello_narinfo
pull-push_nar_package_with_example =
    pull-push_nar_package_with map_registry map_registry-IsFaithful [] hello_layer hello_narinfo
      (codes "aaa") hello_image hello-IsPublishable hello_image_pushed

-- The hash `bbb` is in no manifest.
bbb_missing :
    (caches : List Text)
    → serve_native_narinfo (server_with caches) hello_image (codes "bbb") ≡ none
unfolding serve_native_narinfo lookup text_beq
bbb_missing caches = refl

a-IsSilent :
    (caches : List Text)
    → IsSilent (server_with caches) get_method (codes "/bbb.narinfo") (codes "http://a")
unfolding trim_suffix has_prefix
a-IsSilent caches response e = absurd (cc e)

b-IsSilent :
    (caches : List Text)
    → IsSilent (server_with caches) get_method (codes "/bbb.narinfo") (codes "http://b/")
unfolding trim_suffix has_prefix
b-IsSilent caches response e h =
    absurd (omega (arith, ap (λ (r : UpstreamResponse). r.status) (some-injective _ _ e)))

handler_not_found_example :
    handler
      (server_with (codes "http://a" ∷ codes "http://b/" ∷ []))
      hello_image
      get_method
      (narinfo_path_of (codes "bbb"))
    ≡ http_error (codes "Narinfo Not Found") 404
unfolding trim_suffix has_prefix
handler_not_found_example =
    handler_not_found (server_with (codes "http://a" ∷ codes "http://b/" ∷ [])) hello_image
      get_method (codes "bbb") (λ e. cc e) (bbb_missing _) (a-IsSilent [], (b-IsSilent [], tt))

handler_fallback_example :
    handler toy_server hello_image get_method (narinfo_path_of (codes "bbb"))
    ≡ copied 200
        ((codes "Server", codes "c") ∷ [])
        (record { bytes = codes "http://c/bbb.narinfo"; is_whole = true })
unfolding trim_suffix has_prefix
handler_fallback_example =
    handler_fallback toy_server hello_image get_method (codes "bbb")
      (codes "http://a" ∷ codes "http://b/" ∷ []) (codes "http://c/") [] _ (λ e. cc e)
      (bbb_missing _) refl (a-IsSilent [], (b-IsSilent [], tt)) refl refl

hello_sum : All (λ c. c < 256) (codes "0123456789abcdef0123456789abcdef")
hello_sum = ground arith

new_layer_fast-write_nar_and_narinfo_example :
    new_layer_fast map_registry (codes "m") hello_written.narinfo
    ≡ success (record {
      digest = codes "sha256:" ++ hex (codes "0123456789abcdef0123456789abcdef");
      size = pos 6;
      media_type = codes "m";
    })
new_layer_fast-write_nar_and_narinfo_example =
    new_layer_fast-write_nar_and_narinfo toy_files toy toy_config hello_path (codes "aaa")
      hello_info map_registry (codes "m") hello_written hello_is_written hello_sum refl

-- The form is answered with a key.
abbrev typed_key : Text
typed_key = codes "cache-1:AAAA\n"

abbrev configured : Dict Text Manifest
configured =
    (
      codes "cache-config",
      config_image hello_layer ((codes "aeroflare.public-key", typed_key) ∷ []),
    )
    ∷ []

key_is_saved :
    configure_run map_registry hello_layer
      (λ old. submitted typed_key)
      []
      (some (codes "ghcr.io", codes "me/cache"))
      (some (codes "t0"))
    ≡ success configured
unfolding configure_run push_config_manifest
key_is_saved = refl

handler-configure_run_example :
    handler toy_server configured get_method (codes "/public-key")
    ≡ answered (whole_response (codes "text/plain") (codes "cache-1:AAAA\n"))
unfolding trim_space
handler-configure_run_example =
    handler-configure_run toy_server map_registry-IsFaithful hello_layer
      (λ old. submitted typed_key) [] configured (some (codes "ghcr.io", codes "me/cache"))
      (some (codes "t0")) b'c' (codes "ache-1:AAAA\n") refl key_is_saved get_method (λ e. cc e)
