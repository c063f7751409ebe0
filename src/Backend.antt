-- ===== src/Backend.antt =====
-- internal/backend: what is published once the files of a store path are uploaded. The receipts are
-- published at the same time; a run is the receipts in the order in which they reach the registry.
pub mod Published
use aeroflare.Base.{
  ℕ, zero, suc, Bool, true, false, Option, none, some, List, [], ◌∷◌, ◌++◌, if◌then◌else◌, ◌==◌,
  Text, codes, cut, base, ◌>>=◌, or_fail, Outcome, success, failure, nat_eq, text_eq,
}
use aeroflare.Narinfo.{Narinfo, parse}
use aeroflare.Decimal.{ℤ, pos, negsuc}
use aeroflare.Oci.{Registry, new_layer_fast, push_nar_package_with, Descriptor, LayerError, crashed}

-- `PushReceipt` of internal/backend/backend.go.
pub record PushReceipt : Type 0 where
  pub store_path : Text
  pub narinfo_path : Text
  pub nar_digest : Text
  pub nar_size : ℕ
  pub nar_path : Text
  pub compression : Text
  pub is_root : Bool

-- `workerLimit`.
unfoldable pub worker_limit : ℤ → ℕ → ℕ
worker_limit (pos zero) default = default
worker_limit (pos (suc n)) default = suc n
worker_limit (negsuc n) default = default

-- What a receipt fails with.
pub data PublishError : Type 0 where
  no_pusher is_cancelled narinfo_unreadable narinfo_invalid no_nar_path not_pushed : PublishError
  no_layer : LayerError → PublishError

-- The hash part of a store path, which is the tag of its manifest.
abbrev pub before_cut : Text → Option (Text × Text) → Text
before_cut s none = s
before_cut s (some (front, behind)) = front

unfoldable pub tag_of : Narinfo → Text
unfolding base cut
tag_of ni = before_cut (base ni.store_path) (cut b'-' (base ni.store_path))

abbrev pub layer_error : Outcome LayerError Descriptor → Outcome PublishError Descriptor
layer_error (success layer) = success layer
layer_error (failure e) = failure (no_layer e)

-- The files that are read, whether the context is cancelled, and the registry.
module _ {R : Type 0} (registry : Registry R) (read_file : Text → Option Text)
    (cancelled : Bool) where
  abbrev pub push_layer_of : R → Narinfo → Descriptor → Outcome PublishError R
  push_layer_of r ni layer =
      or_fail not_pushed (push_nar_package_with registry r layer ni (tag_of ni))

  abbrev pub publish_narinfo : R → PushReceipt → Narinfo → Outcome PublishError R
  publish_narinfo r receipt ni =
      if receipt.nar_path == []
      then failure no_nar_path
      else layer_error
          (new_layer_fast registry (codes "application/vnd.aeroflare.nar.v1+" ++ ni.compression) ni)
        >>= push_layer_of r ni

  abbrev pub publish_content : R → PushReceipt → Text → Outcome PublishError R
  publish_content r receipt content =
      or_fail narinfo_invalid (parse content) >>= publish_narinfo r receipt

  -- The function that `PushReceipts` runs for a receipt.
  unfoldable pub publish_receipt : R → PushReceipt → Outcome PublishError R
  unfolding parse new_layer_fast push_nar_package_with tag_of
  publish_receipt r receipt =
      if cancelled
      then failure is_cancelled
      else or_fail narinfo_unreadable (read_file receipt.narinfo_path) >>= publish_content r receipt

  -- A panic ends the process; any other error is kept, the first of them, and the others go on.
  abbrev pub is_crash : PublishError → Bool
  is_crash (no_layer crashed) = true
  is_crash e = false

  abbrev pub after_error : PublishError → R → Option PublishError × R → Option PublishError × R
  after_error e r others = if is_crash e then (some e, r) else (some e, others.1)

  abbrev pub after_receipt :
      Outcome PublishError R → R → (R → Option PublishError × R) → Option PublishError × R
  after_receipt (success after) r others = others after
  after_receipt (failure e) r others = after_error e r (others r)

  unfoldable pub publish_all : R → List PushReceipt → Option PublishError × R
  unfolding publish_receipt
  publish_all r [] = (none, r)
  publish_all r (receipt ∷ receipts) =
      after_receipt (publish_receipt r receipt) r (λ after. publish_all after receipts)

  -- `PushReceipts`, on the receipts in that order.
  unfoldable pub native_push_receipts : Bool → R → List PushReceipt → Option PublishError × R
  unfolding publish_all
  native_push_receipts has_pusher r receipts =
      if has_pusher then publish_all r receipts else (some no_pusher, r)
