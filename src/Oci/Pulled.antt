-- ===== src/Oci/Pulled.antt =====
-- `PullOCINativeManifest` of pkg/oci/network.go reads what `PushNarPackageWith` pushes.
use mathlib.Core.Option
use aeroflare.Base.{
  ◌≡◌, refl, sym, ap, ◌∙◌, true, false, some, List, [], ◌∷◌, ◌++◌, arith, ◌==◌, text_beq, if_true,
  if_some, All, Text, codes, is_space, split, join, IsSolid, lookup, insert, text_eq, nat_eq,
}
use aeroflare.Oci.Metadata.Published.{metadata-to_string}
use aeroflare.Decimal.RoundTrip.{parse_int-format_int}
use aeroflare.Narinfo.RoundTrip.{IsWellFormed}
use aeroflare.Oci.Metadata.{annotations_of, IsPublishable}
use aeroflare.Narinfo.Fields.{IsWord}
use aeroflare.Oci.{
  value_of, merged, pulled_references, narinfo_of, package_image, push_nar_package_with, Descriptor,
  Registry, fetch_aeroflare_annotations, pull_oci_native_manifest, push_annotated, IsFaithful,
}
use aeroflare.Decimal.{format_int, parse_int}
use aeroflare.Narinfo.{Narinfo}

-- The optional fields as the annotations have them.
abbrev with_optional : Narinfo → Text → Text → Text → Narinfo
with_optional n deriver system sig = record n { deriver = deriver; system = system; sig = sig }

merged-annotations_of :
    (n : Narinfo) (deriver system sig : Text)
    → let d = annotations_of (with_optional n deriver system sig) in merged (merged [] d) [] ≡ d
unfolding merged insert text_beq
merged-annotations_of n [] [] [] = refl
merged-annotations_of n [] [] (g ∷ sig) = refl
merged-annotations_of n [] (s ∷ system) [] = refl
merged-annotations_of n [] (s ∷ system) (g ∷ sig) = refl
merged-annotations_of n (d ∷ deriver) [] [] = refl
merged-annotations_of n (d ∷ deriver) [] (g ∷ sig) = refl
merged-annotations_of n (d ∷ deriver) (s ∷ system) [] = refl
merged-annotations_of n (d ∷ deriver) (s ∷ system) (g ∷ sig) = refl

-- What `narinfo_of` reads, before numbers and references are parsed.
read_values :
    (n : Narinfo) (deriver system sig : Text)
    → narinfo_of (annotations_of (with_optional n deriver system sig))
      ≡ record (with_optional n deriver system sig) {
        file_size = parse_int (format_int n.file_size);
        nar_size = parse_int (format_int n.nar_size);
        references = pulled_references (join (codes " ") n.references);
      }
unfolding value_of lookup text_beq
read_values n [] [] [] = refl
read_values n [] [] (g ∷ sig) = refl
read_values n [] (s ∷ system) [] = refl
read_values n [] (s ∷ system) (g ∷ sig) = refl
read_values n (d ∷ deriver) [] [] = refl
read_values n (d ∷ deriver) [] (g ∷ sig) = refl
read_values n (d ∷ deriver) (s ∷ system) [] = refl
read_values n (d ∷ deriver) (s ∷ system) (g ∷ sig) = refl

split_word : (w : Text) → IsSolid w → split b' ' w ≡ w ∷ []
unfolding split is_space
split_word [] h = refl
split_word (c ∷ w) (first, h) =
    let other : (c == b' ') ≡ false = ground arith in rw (other, split_word w h) refl

split_word_space : (w s : Text) → IsSolid w → split b' ' (w ++ (b' ' ∷ s)) ≡ w ∷ split b' ' s
unfolding split is_space
split_word_space [] s h = refl
split_word_space (c ∷ w) s (first, h) =
    let other : (c == b' ') ≡ false = ground arith in rw (other, split_word_space w s h) refl

split-join :
    (w : Text) (ws : List Text)
    → All IsWord (w ∷ ws)
    → split b' ' (join (codes " ") (w ∷ ws)) ≡ w ∷ ws
unfolding join
split-join w [] (h, _) = split_word w h.1
split-join w (v ∷ ws) (h, hs) =
    split_word_space w (join (codes " ") (v ∷ ws)) h.1 ∙ ap (λ ps. w ∷ ps) (split-join v ws hs)

pulled_references-join :
    (ws : List Text) → All IsWord ws → pulled_references (join (codes " ") ws) ≡ ws
pulled_references-join [] h = unfold join in refl
pulled_references-join ([] ∷ ws) (h, _) = absurd (h.0 refl)
pulled_references-join ((c ∷ w) ∷ []) h = unfold join in split-join (c ∷ w) [] h
pulled_references-join ((c ∷ w) ∷ v ∷ ws) h = unfold join in split-join (c ∷ w) (v ∷ ws) h

-- The annotations of a narinfo give the narinfo back.
narinfo_of-annotations_of : (n : Narinfo) → IsWellFormed n → narinfo_of (annotations_of n) ≡ n
narinfo_of-annotations_of n h =
    read_values n n.deriver n.system n.sig
    ∙ ap
        (λ z. record n {
          file_size = z;
          nar_size = parse_int (format_int n.nar_size);
          references = pulled_references (join (codes " ") n.references);
        })
        (parse_int-format_int n.file_size h.file_size)
    ∙ ap
        (λ z. record n {
          nar_size = z;
          references = pulled_references (join (codes " ") n.references);
        })
        (parse_int-format_int n.nar_size h.nar_size)
    ∙ ap (λ rs. record n { references = rs }) (pulled_references-join n.references h.words)

module _ {R : Type 0} (registry : Registry R) where
  -- What is pushed is an image with the annotations of the narinfo.
  pub push_nar_package_with_inv :
      (r : R) (layer : Descriptor) (n : Narinfo) (tag : Text) {after : R}
      → IsPublishable n
      → push_nar_package_with registry r layer n tag ≡ some after
      → (registry.is_tag tag ≡ true)
        × (registry.put r tag (package_image layer (annotations_of n)) ≡ some after)
  unfolding push_nar_package_with
  push_nar_package_with_inv r layer n tag h e =
      if_some (registry.is_tag tag) (registry.put r tag (package_image layer (annotations_of n)))
        (sym (ap (push_annotated registry r layer tag) (metadata-to_string n h)) ∙ e)

  -- What `PushNarPackageWith` has pushed of a narinfo, `PullOCINativeManifest` gives back.
  pub pull-push_nar_package_with :
      IsFaithful registry
      → (r : R) (layer : Descriptor) (n : Narinfo) (tag : Text) (after : R) → IsPublishable n
      → push_nar_package_with registry r layer n tag ≡ some after
      → pull_oci_native_manifest registry after tag ≡ some n
  unfolding pull_oci_native_manifest fetch_aeroflare_annotations
  pull-push_nar_package_with faithful r layer n tag after h e =
      let (valid, put) = push_nar_package_with_inv r layer n tag h e in
      ap (Option.map narinfo_of) (
        if_true _ _ _ valid
        ∙ ap (Option.map (λ m. merged (merged [] m.annotations) m.labels))
            (faithful.manifest-put r tag _ after put))
      ∙ ap (λ d. some (narinfo_of d)) (merged-annotations_of n n.deriver n.system n.sig)
      ∙ ap some (narinfo_of-annotations_of n h.well_formed)
