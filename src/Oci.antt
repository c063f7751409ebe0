-- ===== src/Oci.antt =====
-- pkg/oci: the manifest of a package, its annotations, and how they are read. The registry, which
-- go-containerregistry talks to, is the record Registry.
pub mod Metadata
pub mod Pulled
use aeroflare.Base.{
  ◌≡◌, ◌≢◌, Bool, Option, none, some, List, [], ◌∷◌, ◌++◌, if◌then◌else◌, Text, codes, trim_space,
  strip_prefix, cut, split, to_lower, Dict, lookup, insert, Outcome, success, failure, nat_eq,
  text_eq,
}
use aeroflare.Decimal.{ℤ, parse_int}
use aeroflare.Narinfo.{Narinfo, scan_lines, to_string}
use mathlib.Core.Option
use aeroflare.Hash.{bad_character, index_out_of_range, decode_base32, hex, DecodeError}

-- The part of `v1.Descriptor` that is read.
pub record Descriptor : Type 0 where
  pub digest : Text
  pub size : ℤ
  pub media_type : Text

-- The fields of a manifest that the program writes or reads.
pub record Manifest : Type 0 where
  pub annotations : Dict Text Text
  pub labels : Dict Text Text
  pub layers : List Descriptor
  pub artifact_type : Text

-- One registry and repository. `name.NewTag` says whether a tag makes a reference, `v1.NewHash`
-- whether a text is a digest; `put` is `Pusher.Push`, and `manifest` gives the manifest of a tag as
-- encoding/json reads it.
pub record Registry (R : Type 0) : Type 0 where
  pub is_tag : Text → Bool
  pub is_digest : Text → Bool
  pub put : R → Text → Manifest → Option R
  pub manifest : R → Text → Option Manifest

-- What is relied on of a registry: the manifest that is pushed is the one that is read, and other
-- tags are left as they are.
pub record IsFaithful {R : Type 0} (registry : Registry R) : Type 0 where
  pub manifest-put :
      (r : R) (tag : Text) (m : Manifest) (after : R)
      → registry.put r tag m ≡ some after
      → registry.manifest after tag ≡ some m
  pub manifest-put_ne :
      (r : R) (tag other : Text) (m : Manifest) (after : R)
      → other ≢ tag
      → registry.put r tag m ≡ some after
      → registry.manifest after other ≡ registry.manifest r other

-- What `NewLayerFast` fails with. `crashed` is the panic of `DecodeBase32`.
pub data LayerError : Type 0 where
  unsupported_hash bad_encoding bad_digest crashed : LayerError

abbrev pub or_octets : Text → Text
or_octets [] = codes "application/octet-stream"
or_octets (c ∷ media_type) = c ∷ media_type

-- Go's read of a key of a map of strings.
abbrev pub or_empty : Option Text → Text
or_empty none = []
or_empty (some v) = v

unfoldable pub value_of : Text → Dict Text Text → Text
unfolding lookup
value_of key d = or_empty (lookup key d)

-- One round of the loop of `ParseAeroflareMetadata`.
abbrev pub add_annotation : Dict Text Text → Option (Text × Text) → Option (Dict Text Text)
add_annotation annotations none = none
add_annotation annotations (some (key, value)) =
    some (insert (codes "aeroflare." ++ to_lower (trim_space key)) (trim_space value) annotations)

abbrev pub add_trimmed : Dict Text Text → Text → Option (Dict Text Text)
add_trimmed annotations [] = some annotations
add_trimmed annotations (c ∷ line) = add_annotation annotations (cut b':' (c ∷ line))

unfoldable pub metadata_line : Dict Text Text → Text → Option (Dict Text Text)
unfolding trim_space cut insert to_lower
metadata_line annotations line = add_trimmed annotations (trim_space line)

unfoldable pub metadata_lines : Dict Text Text → List Text → Option (Dict Text Text)
unfolding metadata_line
metadata_lines annotations [] = some annotations
metadata_lines annotations (l ∷ ls) = elim (metadata_line annotations l) [
  | none ↦ none
  | some grown ↦ metadata_lines grown ls
]

-- `ParseAeroflareMetadata`: `none` is its error, for a line without a colon or one that is too long.
unfoldable pub parse_aeroflare_metadata : Text → Option (Dict Text Text)
unfolding metadata_lines scan_lines
parse_aeroflare_metadata content = elim (scan_lines content) [
  | none ↦ none
  | some ls ↦ metadata_lines [] ls
]

-- The second map is written over the first.
unfoldable pub merged : Dict Text Text → Dict Text Text → Dict Text Text
unfolding insert
merged d [] = d
merged d ((key, v) ∷ ds) = merged (insert key v d) ds

-- The references of `PullOCINativeManifest`.
abbrev pub pulled_references : Text → List Text
pulled_references [] = []
pulled_references (c ∷ text) = split b' ' (c ∷ text)

abbrev pub narinfo_of : Dict Text Text → Narinfo
narinfo_of anns = record {
  store_path = value_of (codes "aeroflare.storepath") anns;
  url = value_of (codes "aeroflare.url") anns;
  compression = value_of (codes "aeroflare.compression") anns;
  file_hash = value_of (codes "aeroflare.filehash") anns;
  file_size = parse_int (value_of (codes "aeroflare.filesize") anns);
  nar_hash = value_of (codes "aeroflare.narhash") anns;
  nar_size = parse_int (value_of (codes "aeroflare.narsize") anns);
  references = pulled_references (value_of (codes "aeroflare.references") anns);
  deriver = value_of (codes "aeroflare.deriver") anns;
  system = value_of (codes "aeroflare.system") anns;
  sig = value_of (codes "aeroflare.sig") anns;
}

-- The image of `PushConfigManifest`. Its layer is the text `{}`, of which go-containerregistry
-- makes the descriptor.
abbrev pub config_image : Descriptor → Dict Text Text → Manifest
config_image empty_layer annotations = record {
  annotations = annotations;
  labels = [];
  layers = empty_layer ∷ [];
  artifact_type = codes "application/vnd.aeroflare.cache-config.v1";
}

-- The image of `PushNarPackageWith`.
abbrev pub package_image : Descriptor → Dict Text Text → Manifest
package_image layer annotations = record {
  annotations = annotations;
  labels = [];
  layers = layer ∷ [];
  artifact_type = codes "application/vnd.aeroflare.nar.v1";
}

module _ {R : Type 0} (registry : Registry R) where
  -- `FetchAeroflareAnnotations`.
  unfoldable pub fetch_aeroflare_annotations : R → Text → Option (Dict Text Text)
  unfolding merged
  fetch_aeroflare_annotations r tag =
      if registry.is_tag tag
      then Option.map (λ m. merged (merged [] m.annotations) m.labels) (registry.manifest r tag)
      else none

  -- `PullOCINativeManifest`.
  unfoldable pub pull_oci_native_manifest : R → Text → Option Narinfo
  unfolding fetch_aeroflare_annotations value_of split parse_int
  pull_oci_native_manifest r tag = Option.map narinfo_of (fetch_aeroflare_annotations r tag)

  -- `NewLayerFast`: the descriptor of the layer, whose file is read only when it is uploaded.
  abbrev pub described : Text → ℤ → Text → Outcome LayerError Descriptor
  described digest size media_type =
      if registry.is_digest digest
      then success (record { digest = digest; size = size; media_type = or_octets media_type })
      else failure bad_digest

  abbrev pub layer_of_bytes : ℤ → Text → Outcome DecodeError Text → Outcome LayerError Descriptor
  layer_of_bytes size media_type (success bytes) =
      described (codes "sha256:" ++ hex bytes) size media_type
  layer_of_bytes size media_type (failure bad_character) = failure bad_encoding
  layer_of_bytes size media_type (failure index_out_of_range) = failure crashed

  abbrev pub layer_of_hash : ℤ → Text → Option Text → Outcome LayerError Descriptor
  layer_of_hash size media_type none = failure unsupported_hash
  layer_of_hash size media_type (some encoded) =
      layer_of_bytes size media_type (decode_base32 encoded)

  unfoldable pub new_layer_fast : Text → Narinfo → Outcome LayerError Descriptor
  unfolding strip_prefix decode_base32 hex
  new_layer_fast media_type ni =
      layer_of_hash ni.file_size media_type (strip_prefix ni.file_hash (codes "sha256:"))

  abbrev pub push_image : R → Text → Manifest → Option R
  push_image r tag image = if registry.is_tag tag then registry.put r tag image else none

  abbrev pub push_annotated : R → Descriptor → Text → Option (Dict Text Text) → Option R
  push_annotated r layer tag none = none
  push_annotated r layer tag (some annotations) = push_image r tag (package_image layer annotations)

  -- `PushNarPackageWith`: the registry after it, or an error.
  unfoldable pub push_nar_package_with : R → Descriptor → Narinfo → Text → Option R
  unfolding parse_aeroflare_metadata to_string
  push_nar_package_with r layer ni tag =
      push_annotated r layer tag (parse_aeroflare_metadata (to_string ni))

  -- `PushConfigManifest`.
  unfoldable pub push_config_manifest : Descriptor → R → Dict Text Text → Option R
  push_config_manifest empty_layer r annotations =
      push_image r (codes "cache-config") (config_image empty_layer annotations)
