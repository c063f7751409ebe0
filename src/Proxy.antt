-- ===== src/Proxy.antt =====
-- pkg/proxy/proxy_server.go: what the proxy answers. A response is what is written to it; that the
-- server sends no body to a HEAD request is left to net/http.
pub mod Handler
pub mod Start
pub mod Served
pub mod Published
pub mod Fallback
pub mod Nar
pub mod Whole
use aeroflare.Base.{
  ℕ, zero, suc, Bool, Option, none, some, List, [], ◌∷◌, ◌++◌, if◌then◌else◌, ◌==◌, length, Text,
  codes, has_suffix, cut_at, Dict, nat_eq, text_eq,
}
use aeroflare.Backend.{before_cut}
use aeroflare.Oci.{Registry, Manifest, Descriptor, value_of}
use aeroflare.Narinfo.{optional_line}
use aeroflare.Decimal.{ℤ, pos, negsuc, format_int}

pub data Method : Type 0 where
  get_method head_method other_method : Method

-- What is copied from a registry or an upstream, and whether the copy ran to its end.
pub record Stream : Type 0 where
  pub bytes : Text
  pub is_whole : Bool

pub record Response : Type 0 where
  pub status : ℕ
  pub headers : Dict Text Text
  pub body : Text

-- A handler returns, or it aborts the connection behind a part of the body.
pub data Answer : Type 0 where
  answered aborted : Response → Answer

pub record UpstreamResponse : Type 0 where
  pub status : ℕ
  pub headers : Dict Text Text
  pub stream : Stream

-- The labels of an image config, at the four places where `configLabels` looks.
pub record ConfigFile : Type 0 where
  pub config_labels : Dict Text Text
  pub config_labels_lower : Dict Text Text
  pub labels : Dict Text Text
  pub labels_lower : Dict Text Text

-- `ProxyServer` with what it reaches: the registry, the config of an image, a blob by its digest,
-- the upstream caches, and encoding/json for the status.
pub record Server (R : Type 0) : Type 0 where
  pub registry : Registry R
  pub repository : Text
  pub upstream_caches : List Text
  pub config_file : Manifest → Option ConfigFile
  pub open_blob : Text → Option Stream
  pub upstream_do : Method → Text → Option UpstreamResponse
  pub encode_status : Text → List Text → Text

-- `pkg`.
pub record Package : Type 0 where
  pub manifest : Manifest
  pub labels : Dict Text Text
  pub nar : Descriptor

abbrev pub store_path_key : Text
store_path_key = codes "aeroflare.storepath"

abbrev pub package_of : Manifest → List Descriptor → Option Package
package_of m [] = none
package_of m (nar ∷ layers) = some (record {
  manifest = m;
  labels = if value_of store_path_key m.annotations == [] then m.labels else m.annotations;
  nar = nar;
})

abbrev pub first_labels : List (Dict Text Text) → Dict Text Text
first_labels [] = []
first_labels ([] ∷ ds) = first_labels ds
first_labels ((e ∷ d) ∷ ds) = e ∷ d

-- `configLabels` on the decoded file.
abbrev pub config_labels_of : ConfigFile → Dict Text Text
config_labels_of cfg =
    first_labels (cfg.config_labels ∷ cfg.labels ∷ cfg.config_labels_lower ∷ cfg.labels_lower ∷ [])

abbrev pub with_store_path : Option (Dict Text Text) → Option (Dict Text Text)
with_store_path none = none
with_store_path (some labels) = if value_of store_path_key labels == [] then none else some labels

-- The lines that `serveNativeNarinfo` writes.
abbrev pub references_line : Text → Text
references_line [] = codes "References: "
references_line (c ∷ refs) = codes "References: " ++ (c ∷ refs)

unfoldable pub label_lines : Dict Text Text → List Text
unfolding value_of
label_lines labels =
    (codes "StorePath: " ++ value_of (codes "aeroflare.storepath") labels)
    ∷ (codes "URL: " ++ value_of (codes "aeroflare.url") labels)
    ∷ (codes "Compression: " ++ value_of (codes "aeroflare.compression") labels)
    ∷ (codes "FileHash: " ++ value_of (codes "aeroflare.filehash") labels)
    ∷ (codes "FileSize: " ++ value_of (codes "aeroflare.filesize") labels)
    ∷ (codes "NarHash: " ++ value_of (codes "aeroflare.narhash") labels)
    ∷ (codes "NarSize: " ++ value_of (codes "aeroflare.narsize") labels)
    ∷ references_line (value_of (codes "aeroflare.references") labels)
    ∷ (optional_line "Deriver: " (value_of (codes "aeroflare.deriver") labels)
        ++ (optional_line "System: " (value_of (codes "aeroflare.system") labels)
            ++ optional_line "Sig: " (value_of (codes "aeroflare.sig") labels)))

-- A body with its type and its length.
unfoldable pub whole_response : Text → Text → Response
unfolding format_int
whole_response content_type body = record {
  status = 200;
  headers =
      (codes "Content-Type", content_type)
      ∷ (codes "Content-Length", format_int (pos (length body)))
      ∷ [];
  body = body;
}

-- net/http's Error.
unfoldable pub http_error : Text → ℕ → Answer
http_error message code = answered (record {
  status = code;
  headers =
      (codes "Content-Type", codes "text/plain; charset=utf-8")
      ∷ (codes "X-Content-Type-Options", codes "nosniff")
      ∷ [];
  body = message ++ (b'\n' ∷ []);
})

abbrev pub copied : ℕ → Dict Text Text → Stream → Answer
copied status headers stream =
    let response : Response = record { status = status; headers = headers; body = stream.bytes } in
    if stream.is_whole then answered response else aborted response

abbrev pub content_length : ℤ → Dict Text Text
content_length (pos zero) = []
content_length (pos (suc n)) = (codes "Content-Length", format_int (pos (suc n))) ∷ []
content_length (negsuc n) = []

abbrev pub nar_headers : Text → Descriptor → Dict Text Text
nar_headers content_type nar = (codes "Content-Type", content_type) ∷ content_length nar.size

-- The tag of a NAR request: what stands in front of the first `.nar` of its name.
abbrev pub nar_tag : Text → Text
nar_tag name = before_cut name (cut_at (codes ".nar") name)

abbrev pub nar_content_type : Text → Text
nar_content_type name =
    if has_suffix name (codes ".xz")
    then codes "application/x-xz"
    else codes "application/x-nix-nar"
