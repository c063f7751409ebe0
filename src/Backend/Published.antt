-- ===== src/Backend/Published.antt =====
-- What the registry holds when `PushReceipts` of internal/backend/native.go returns no error.
use aeroflare.Base.{
  ◌≡◌, refl, sym, ap, ◌∙◌, subst, ◌≢◌, inl, inr, Bool, true, false, Option, none, some, List, [],
  ◌∷◌, ◌++◌, arith, if◌then◌else◌, ◌==◌, All, In, Text, codes, >>=-eq-success, success-injective,
  or_fail, or_fail-success, Outcome, success, failure, text_eq, nat_eq,
}
use aeroflare.Oci.Pulled.{push_nar_package_with_inv}
use aeroflare.Oci.Metadata.{annotations_of, IsPublishable}
use aeroflare.Backend.{
  tag_of, layer_error, push_layer_of, publish_narinfo, publish_content, publish_receipt,
  PushReceipt, is_cancelled, narinfo_unreadable, narinfo_invalid, no_nar_path, not_pushed,
  after_error, after_receipt, publish_all, PublishError,
}
use aeroflare.Narinfo.{Narinfo, parse}
use aeroflare.Oci.{
  Registry, IsFaithful, package_image, new_layer_fast, push_nar_package_with, Descriptor,
  LayerError,
}

if_success :
    {E A : Type 0} (b : Bool) (e : E) (o : Outcome E A) {a : A}
    → (if b then failure e else o) ≡ success a
    → (b ≡ false) × (o ≡ success a)
if_success true e o h = cc
if_success false e o h = (refl, h)

layer_error-success :
    (o : Outcome LayerError Descriptor) {layer : Descriptor}
    → layer_error o ≡ success layer
    → o ≡ success layer
layer_error-success (success layer) h = ap success (success-injective h)
layer_error-success (failure e) h = cc

module _ {R : Type 0} (registry : Registry R) (faithful : IsFaithful registry)
    (read_file : Text → Option Text) (cancelled : Bool) where
  after_error-ne-none :
      (e : PublishError) (r : R) (others : Option PublishError × R)
      → (after_error registry read_file cancelled e r others).0 ≢ none
  after_error-ne-none e r others h = ground arith

  -- The narinfo that a receipt names.
  unfoldable pub Names : PushReceipt → Narinfo → Type 0
  Names receipt ni =
      (content : Text) × (read_file receipt.narinfo_path ≡ some content) × (parse content ≡ some ni)

  -- The manifest of a narinfo is in the registry, with a layer of its archive.
  unfoldable pub IsPublished : R → Narinfo → Type 0
  IsPublished r ni =
      (layer : Descriptor) × (new_layer_fast registry
          (codes "application/vnd.aeroflare.nar.v1+" ++ ni.compression) ni
        ≡ success layer)
      × (registry.is_tag (tag_of ni) ≡ true)
      × (registry.manifest r (tag_of ni) ≡ some (package_image layer (annotations_of ni)))

  publish_receipt_inv :
      (r : R) (receipt : PushReceipt) (after : R)
      → publish_receipt registry read_file cancelled r receipt ≡ success after
      → (ni : Narinfo) × Names receipt ni
        × (layer : Descriptor) × (new_layer_fast registry
              (codes "application/vnd.aeroflare.nar.v1+" ++ ni.compression)
              ni
            ≡ success layer)
        × (push_nar_package_with registry r layer ni (tag_of ni) ≡ some after)
  unfolding publish_receipt Names
  publish_receipt_inv r receipt after e =
      let (_, running) = if_success cancelled is_cancelled _ e in
      let (content, read, parsed) =
        >>=-eq-success (or_fail narinfo_unreadable (read_file receipt.narinfo_path))
          (publish_content registry read_file cancelled r receipt) running in
      let (ni, found, published) =
        >>=-eq-success (or_fail narinfo_invalid (parse content))
          (publish_narinfo registry read_file cancelled r receipt) parsed in
      let (_, layered) = if_success (receipt.nar_path == []) no_nar_path _ published in
      let (layer, made, pushed) =
        >>=-eq-success
          (layer_error (
            new_layer_fast registry (codes "application/vnd.aeroflare.nar.v1+" ++ ni.compression)
              ni))
          (push_layer_of registry read_file cancelled r ni) layered in
      (
        ni,
        (
          content,
          or_fail-success narinfo_unreadable _ read,
          or_fail-success narinfo_invalid _ found,
        ),
        layer,
        layer_error-success _ made,
        or_fail-success not_pushed _ pushed,
      )

  after_receipt-none :
      (o : Outcome PublishError R) (r : R) (others : R → Option PublishError × R)
      → (after_receipt registry read_file cancelled o r others).0 ≡ none
      → (after : R) × (o ≡ success after)
        × (after_receipt registry read_file cancelled o r others ≡ others after)
  after_receipt-none (success after) r others h = (after, refl, refl)
  after_receipt-none (failure e) r others h = absurd (after_error-ne-none e r (others r) h)

  -- Every narinfo that a receipt names can be published.
  unfoldable pub Publishable : PushReceipt → Type 0
  Publishable receipt = (ni : Narinfo) → Names receipt ni → IsPublishable ni

  -- A tag that no narinfo of the receipt has.
  unfoldable pub Avoids : Text → PushReceipt → Type 0
  Avoids tag receipt = (ni : Narinfo) → Names receipt ni → tag ≢ tag_of ni

  publish_receipt-keeps :
      (tag : Text) (r : R) (receipt : PushReceipt) (after : R)
      → Publishable receipt
      → Avoids tag receipt
      → publish_receipt registry read_file cancelled r receipt ≡ success after
      → registry.manifest after tag ≡ registry.manifest r tag
  unfolding Publishable Avoids
  publish_receipt-keeps tag r receipt after ok avoids e =
      let (ni, names, layer, made, pushed) = publish_receipt_inv r receipt after e in
      let (valid, put) =
        push_nar_package_with_inv registry r layer ni (tag_of ni) (ok ni names) pushed in
      faithful.manifest-put_ne r (tag_of ni) tag _ after (avoids ni names) put

  publish_all_cons :
      (r : R) (first : PushReceipt) (receipts : List PushReceipt)
      → (publish_all registry read_file cancelled r (first ∷ receipts)).0 ≡ none
      → (after : R) × (publish_receipt registry read_file cancelled r first ≡ success after)
        × (publish_all registry read_file cancelled r (first ∷ receipts)
            ≡ publish_all registry read_file cancelled after receipts)
  unfolding publish_all
  publish_all_cons r first receipts h =
      after_receipt-none (publish_receipt registry read_file cancelled r first) r
        (λ after. publish_all registry read_file cancelled after receipts) h

  publish_all-keeps :
      (tag : Text) (r : R) (receipts : List PushReceipt)
      → All Publishable receipts
      → All (Avoids tag) receipts
      → (publish_all registry read_file cancelled r receipts).0 ≡ none
      → registry.manifest (publish_all registry read_file cancelled r receipts).1 tag
        ≡ registry.manifest r tag
  unfolding publish_all
  publish_all-keeps tag r [] ok avoids h = refl
  publish_all-keeps tag r (receipt ∷ receipts) (ok, oks) (avoids, others) h =
      let (after, e, same) = publish_all_cons r receipt receipts h in
      ap (λ p. registry.manifest (p.1) tag) same
      ∙ publish_all-keeps tag after receipts oks others (sym (ap (λ p. p.0) same) ∙ h)
      ∙ publish_receipt-keeps tag r receipt after ok avoids e

  -- No two of the receipts name narinfos with the same tag.
  unfoldable pub TagsDiffer : List PushReceipt → Type 0
  TagsDiffer [] = Unit
  TagsDiffer (receipt ∷ receipts) =
      ((ni : Narinfo) → Names receipt ni → All (Avoids (tag_of ni)) receipts) × TagsDiffer receipts

  pub publish_all-IsPublished :
      (r : R) (receipts : List PushReceipt)
      → All Publishable receipts
      → TagsDiffer receipts
      → (publish_all registry read_file cancelled r receipts).0 ≡ none
      → (receipt : PushReceipt) → In receipt receipts
      → (ni : Narinfo) × Names receipt ni
        × IsPublished (publish_all registry read_file cancelled r receipts).1 ni
  unfolding publish_all TagsDiffer IsPublished Publishable
  publish_all-IsPublished r [] ok differ h receipt m = absurd m
  publish_all-IsPublished r (first ∷ receipts) (ok, oks) (differ, differs) h receipt (inl e) =
      let (after, done, same) = publish_all_cons r first receipts h in
      let (ni, names, layer, made, pushed) = publish_receipt_inv r first after done in
      let (valid, put) =
        push_nar_package_with_inv registry r layer ni (tag_of ni) (ok ni names) pushed in
      (
        ni,
        subst (λ x. Names x ni) (sym e) names,
        (
          layer,
          made,
          valid,
          ap (λ p. registry.manifest (p.1) (tag_of ni)) same
              ∙ publish_all-keeps (tag_of ni) after receipts oks (differ ni names)
                  (sym (ap (λ p. p.0) same) ∙ h)
              ∙ faithful.manifest-put r (tag_of ni) _ after put,
        ),
      )
  publish_all-IsPublished r (first ∷ receipts) (ok, oks) (differ, differs) h receipt (inr m) =
      let (after, done, same) = publish_all_cons r first receipts h in
      let (ni, names, published) =
        publish_all-IsPublished after receipts oks differs (sym (ap (λ p. p.0) same) ∙ h) receipt
          m in
      (ni, names, subst (λ p. IsPublished (p.1) ni) (sym same) published)
