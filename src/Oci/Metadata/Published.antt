-- ===== src/Oci/Metadata/Published.antt =====
-- The annotations that `ParseAeroflareMetadata` of pkg/oci/oci.go makes of the text of a narinfo.
use aeroflare.Base.{
  ◌≡◌, refl, sym, ap, ◌∙◌, Option, none, some, List, [], ◌∷◌, ◌++◌, append-nil, text_beq, Text,
  codes, join, lower, to_lower, Dict, insert, text_eq, nat_eq,
}
use aeroflare.Oci.Metadata.{
  optional_entry, annotations_of, IsPublishable, optional_insert, read_field, format_int-IsTrimmed,
  read_optional_field, read_none, is_key, key_lem,
}
use aeroflare.Narinfo.Lines.{scan_lines-unlines}
use aeroflare.Narinfo.RoundTrip.{lines_of-IsLine}
use aeroflare.Decimal.{format_int}
use aeroflare.Oci.{metadata_lines, parse_aeroflare_metadata}
use aeroflare.Narinfo.{Narinfo, optional_line, lines_of, to_string}

abbrev required_entries : Narinfo → Dict Text Text
required_entries n =
    (codes "aeroflare.storepath", n.store_path)
    ∷ (codes "aeroflare.url", n.url)
    ∷ (codes "aeroflare.compression", n.compression)
    ∷ (codes "aeroflare.filehash", n.file_hash)
    ∷ (codes "aeroflare.filesize", format_int n.file_size)
    ∷ (codes "aeroflare.narhash", n.nar_hash)
    ∷ (codes "aeroflare.narsize", format_int n.nar_size)
    ∷ (codes "aeroflare.references", join (codes " ") n.references)
    ∷ []

read_required :
    (n : Narinfo) (ls : List Text)
    → IsPublishable n
    → metadata_lines [] (
        (codes "StorePath: " ++ n.store_path)
        ∷ (codes "URL: " ++ n.url)
        ∷ (codes "Compression: " ++ n.compression)
        ∷ (codes "FileHash: " ++ n.file_hash)
        ∷ (codes "FileSize: " ++ format_int n.file_size)
        ∷ (codes "NarHash: " ++ n.nar_hash)
        ∷ (codes "NarSize: " ++ format_int n.nar_size)
        ∷ (codes "References: " ++ join (codes " ") n.references)
        ∷ ls)
      ≡ metadata_lines (required_entries n) ls
unfolding is_key to_lower lower insert text_beq
read_required n ls h =
    read_field _ (codes "StorePath") n.store_path _ (key_lem _ _ refl) h.store_path
    ∙ read_field _ (codes "URL") n.url _ (key_lem _ _ refl) h.url
    ∙ read_field _ (codes "Compression") n.compression _ (key_lem _ _ refl) h.compression
    ∙ read_field _ (codes "FileHash") n.file_hash _ (key_lem _ _ refl) h.file_hash
    ∙ read_field _ (codes "FileSize") (format_int n.file_size) _ (key_lem _ _ refl)
        (format_int-IsTrimmed n.file_size)
    ∙ read_field _ (codes "NarHash") n.nar_hash _ (key_lem _ _ refl) h.nar_hash
    ∙ read_field _ (codes "NarSize") (format_int n.nar_size) _ (key_lem _ _ refl)
        (format_int-IsTrimmed n.nar_size)
    ∙ read_field _ (codes "References") (join (codes " ") n.references) ls (key_lem _ _ refl)
        h.references

optional_inserts :
    (n : Narinfo) (deriver system sig : Text)
    → optional_insert (codes "aeroflare.sig") sig (
        optional_insert
          (codes "aeroflare.system")
          system
          (optional_insert (codes "aeroflare.deriver") deriver (required_entries n)))
      ≡ required_entries n
        ++ (optional_entry "aeroflare.deriver" deriver
            ++ (optional_entry "aeroflare.system" system ++ optional_entry "aeroflare.sig" sig))
unfolding insert text_beq
optional_inserts n [] [] [] = refl
optional_inserts n [] [] (g ∷ sig) = refl
optional_inserts n [] (s ∷ system) [] = refl
optional_inserts n [] (s ∷ system) (g ∷ sig) = refl
optional_inserts n (d ∷ deriver) [] [] = refl
optional_inserts n (d ∷ deriver) [] (g ∷ sig) = refl
optional_inserts n (d ∷ deriver) (s ∷ system) [] = refl
optional_inserts n (d ∷ deriver) (s ∷ system) (g ∷ sig) = refl

read_optional :
    (n : Narinfo) (annotations : Dict Text Text)
    → IsPublishable n
    → metadata_lines annotations (
        optional_line "Deriver: " n.deriver
        ++ (optional_line "System: " n.system ++ optional_line "Sig: " n.sig))
      ≡ some (
          optional_insert (codes "aeroflare.sig") n.sig (
            optional_insert
              (codes "aeroflare.system")
              n.system
              (optional_insert (codes "aeroflare.deriver") n.deriver annotations)))
unfolding is_key to_lower lower
read_optional n annotations h =
    read_optional_field annotations "Deriver: " (codes "Deriver") n.deriver
      (optional_line "System: " n.system ++ optional_line "Sig: " n.sig) refl (key_lem _ _ refl)
      h.deriver
    ∙ read_optional_field (optional_insert (codes "aeroflare.deriver") n.deriver annotations)
        "System: " (codes "System") n.system (optional_line "Sig: " n.sig) refl (key_lem _ _ refl)
        h.system
    ∙ ap (metadata_lines _) (sym (append-nil (optional_line "Sig: " n.sig)))
    ∙ read_optional_field _ "Sig: " (codes "Sig") n.sig [] refl (key_lem _ _ refl) h.sig
    ∙ read_none _

-- The annotations of what `String` writes are those of the narinfo.
pub metadata-to_string :
    (n : Narinfo)
    → IsPublishable n
    → parse_aeroflare_metadata (to_string n) ≡ some (annotations_of n)
unfolding parse_aeroflare_metadata to_string lines_of
metadata-to_string n h =
    ap {B = Option (Dict Text Text)}
      (λ (o : Option (List Text)). elim o [ none ↦ none | some ls ↦ metadata_lines [] ls ])
      (scan_lines-unlines (lines_of n) (lines_of-IsLine n h.well_formed))
    ∙ read_required n
        (optional_line "Deriver: " n.deriver
          ++ (optional_line "System: " n.system ++ optional_line "Sig: " n.sig))
        h
    ∙ read_optional n (required_entries n) h
    ∙ ap some (optional_inserts n n.deriver n.system n.sig)
