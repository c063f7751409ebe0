-- ===== src/Oci/Metadata.antt =====
-- The lines of a narinfo as `ParseAeroflareMetadata` of pkg/oci/oci.go reads them.
pub mod Published
use aeroflare.Base.{
  ℕ, ◌≤◌, ◌≡◌, refl, sym, ap, ◌∙◌, ◌≢◌, Bool, true, false, not, ◌&&◌, Option, none, some, List, [],
  ◌∷◌, ◌++◌, append_assoc, arith, ◌==◌, if_false, All, All-append, Text, codes, is_space, trim_left,
  trim_right, trim_space, cut, join, to_lower, IsSolid, trim_right-append, IsTrimmed-of_solid,
  trim_space-IsTrimmed, trim_right-keep, cut-append, IsTrimmed, Dict, insert, text_eq, nat_eq,
}
use aeroflare.Decimal.RoundTrip.{format_int-AtLeastMinus}
use aeroflare.Oci.{metadata_line, add_annotation, add_trimmed, metadata_lines}
use aeroflare.Narinfo.RoundTrip.{IsWellFormed}
use aeroflare.Decimal.{format_int, ℤ}
use aeroflare.Narinfo.{Narinfo, optional_line}
use Prim.Native.String.{String}

-- A narinfo whose fields come back from a line that is trimmed.
pub record IsPublishable (n : Narinfo) : Type 0 where
  pub well_formed : IsWellFormed n
  pub named : n.store_path ≢ []
  pub store_path : IsTrimmed n.store_path
  pub url : IsTrimmed n.url
  pub compression : IsTrimmed n.compression
  pub file_hash : IsTrimmed n.file_hash
  pub nar_hash : IsTrimmed n.nar_hash
  pub references : IsTrimmed (join (codes " ") n.references)
  pub deriver : IsTrimmed n.deriver
  pub system : IsTrimmed n.system
  pub sig : IsTrimmed n.sig

abbrev pub optional_entry : String → Text → Dict Text Text
optional_entry key [] = []
optional_entry key (c ∷ value) = (codes key, c ∷ value) ∷ []

abbrev optional_insert : Text → Text → Dict Text Text → Dict Text Text
optional_insert key [] annotations = annotations
optional_insert key (c ∷ value) annotations = insert key (c ∷ value) annotations

-- The annotations of a narinfo.
abbrev pub annotations_of : Narinfo → Dict Text Text
annotations_of n =
    (codes "aeroflare.storepath", n.store_path)
    ∷ (codes "aeroflare.url", n.url)
    ∷ (codes "aeroflare.compression", n.compression)
    ∷ (codes "aeroflare.filehash", n.file_hash)
    ∷ (codes "aeroflare.filesize", format_int n.file_size)
    ∷ (codes "aeroflare.narhash", n.nar_hash)
    ∷ (codes "aeroflare.narsize", format_int n.nar_size)
    ∷ (codes "aeroflare.references", join (codes " ") n.references)
    ∷ (optional_entry "aeroflare.deriver" n.deriver
        ++ (optional_entry "aeroflare.system" n.system ++ optional_entry "aeroflare.sig" n.sig))

-- A key of the format: its bytes are neither white space nor a colon, and there is one at least.
abbrev IsKey : Text → Type 0
IsKey k = (k ≢ []) × IsSolid k × All (λ c. c ≢ b':') k

trim_value : (v : Text) → IsTrimmed v → trim_space (b' ' ∷ v) ≡ v
unfolding trim_space trim_left is_space
trim_value v h = ap (trim_right is_space) h.front ∙ h.end

-- What is left of a line when it is trimmed, cut at its colon.
trimmed_cut :
    (k v : Text)
    → IsKey k
    → IsTrimmed v
    → (behind : Text) × (cut b':' (trim_right is_space (k ++ (b':' ∷ b' ' ∷ v))) ≡ some (k, behind))
      × (trim_space behind ≡ v)
unfolding is_space
trimmed_cut k [] (full, solid, clean) h = (
  [],
  ap (λ s. cut b':' (trim_right is_space s)) (sym (append_assoc k (b':' ∷ []) (b' ' ∷ [])))
      ∙ ap (cut b':') (
          trim_right-append (k ++ (b':' ∷ [])) (b' ' ∷ [])
            (All-append (λ c. is_space c ≡ false) k (b':' ∷ []) solid (refl, tt)) (refl, tt))
      ∙ cut-append b':' k [] clean,
  trim_space-IsTrimmed [] h,
)
trimmed_cut k (c ∷ v) (full, solid, clean) h = (
  b' ' ∷ c ∷ v,
  ap (cut b':') (
        ap (trim_right is_space) (sym (append_assoc k (b':' ∷ b' ' ∷ []) (c ∷ v)))
        ∙ trim_right-keep (k ++ (b':' ∷ b' ' ∷ [])) c v h.end
        ∙ append_assoc k (b':' ∷ b' ' ∷ []) (c ∷ v))
      ∙ cut-append b':' k (b' ' ∷ c ∷ v) clean,
  trim_value (c ∷ v) h,
)

add_trimmed-cut :
    (annotations : Dict Text Text) (line k v : Text)
    → cut b':' line ≡ some (k, v)
    → add_trimmed annotations line ≡ add_annotation annotations (some (k, v))
unfolding cut
add_trimmed-cut annotations [] k v e = absurd (cc e)
add_trimmed-cut annotations (c ∷ line) k v e = ap (add_annotation annotations) e

-- A key and a value of the narinfo make an annotation.
metadata_line-field :
    (annotations : Dict Text Text) (k v : Text)
    → IsKey k
    → IsTrimmed v
    → metadata_line annotations (k ++ (b':' ∷ b' ' ∷ v))
      ≡ some (insert (codes "aeroflare." ++ to_lower k) v annotations)
unfolding metadata_line trim_space trim_left
metadata_line-field annotations [] v key h = absurd (key.0 refl)
metadata_line-field annotations (c ∷ k) v key h =
    let (behind, e, value) = trimmed_cut (c ∷ k) v key h in
    ap (λ s. add_trimmed annotations (trim_right is_space s))
      (if_false _ _ (c ∷ (k ++ (b':' ∷ b' ' ∷ v))) key.1.0)
    ∙ add_trimmed-cut annotations (trim_right is_space ((c ∷ k) ++ (b':' ∷ b' ' ∷ v))) (c ∷ k)
        behind e
    ∙ ap (λ t. some (insert (codes "aeroflare." ++ to_lower t) (trim_space behind) annotations))
        (trim_space-IsTrimmed (c ∷ k) (IsTrimmed-of_solid (c ∷ k) key.1))
    ∙ ap (λ t. some (insert (codes "aeroflare." ++ to_lower (c ∷ k)) t annotations)) value

read_field :
    (annotations : Dict Text Text) (k v : Text) (ls : List Text)
    → IsKey k
    → IsTrimmed v
    → metadata_lines annotations ((k ++ (b':' ∷ b' ' ∷ v)) ∷ ls)
      ≡ metadata_lines (insert (codes "aeroflare." ++ to_lower k) v annotations) ls
unfolding metadata_lines
read_field annotations k v ls key h =
    ap {B = Option (Dict Text Text)}
      (λ (o : Option (Dict Text Text)). elim o [
        | none ↦ none
        | some grown ↦ metadata_lines grown ls
      ])
      (metadata_line-field annotations k v key h)

IsSolid-of_AtLeastMinus : (s : Text) → All (λ c. b'-' ≤ c) s → IsSolid s
unfolding is_space
IsSolid-of_AtLeastMinus [] h = tt
IsSolid-of_AtLeastMinus (c ∷ s) (h, hs) = (ground arith, IsSolid-of_AtLeastMinus s hs)

format_int-IsTrimmed : (z : ℤ) → IsTrimmed (format_int z)
format_int-IsTrimmed z =
    IsTrimmed-of_solid (format_int z) (IsSolid-of_AtLeastMinus _ (format_int-AtLeastMinus z))

-- The optional lines.
read_optional_field :
    (annotations : Dict Text Text) (key : String) (k v : Text) (ls : List Text)
    → codes key ≡ k ++ (b':' ∷ b' ' ∷ [])
    → IsKey k
    → IsTrimmed v
    → metadata_lines annotations (optional_line key v ++ ls)
      ≡ metadata_lines (optional_insert (codes "aeroflare." ++ to_lower k) v annotations) ls
read_optional_field annotations key k [] ls e is_key h = refl
read_optional_field annotations key k (c ∷ v) ls e is_key h =
    ap (λ line. metadata_lines annotations (line ∷ ls))
      (ap (λ s. s ++ (c ∷ v)) e ∙ append_assoc k (b':' ∷ b' ' ∷ []) (c ∷ v))
    ∙ read_field annotations k (c ∷ v) ls is_key h

read_none : (annotations : Dict Text Text) → metadata_lines annotations [] ≡ some annotations
unfolding metadata_lines
read_none annotations = refl

-- Keys of the format, tested.
is_key : Text → Bool
unfolding is_space
is_key [] = true
is_key (c ∷ k) = not (is_space c) && (not (c == b':') && is_key k)

is_key-IsSolid : (k : Text) → is_key k ≡ true → IsSolid k
unfolding is_key
is_key-IsSolid [] h = tt
is_key-IsSolid (c ∷ k) h = (ground arith, is_key-IsSolid k (ground arith))

is_key_clean : (k : Text) → is_key k ≡ true → All (λ c. c ≢ b':') k
unfolding is_key
is_key_clean [] h = tt
is_key_clean (c ∷ k) h = (ground arith, is_key_clean k (ground arith))

key_lem : (c : ℕ) (k : Text) → is_key (c ∷ k) ≡ true → IsKey (c ∷ k)
key_lem c k h = ((λ e. cc e), is_key-IsSolid (c ∷ k) h, is_key_clean (c ∷ k) h)
