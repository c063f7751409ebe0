-- ===== src/Proxy/Published.antt =====
-- What is published by internal/backend is what pkg/proxy serves.
use aeroflare.Base.{
  ◌≡◌, ◌≢◌, Bool, true, false, Option, none, some, List, All, In, In-All, Text, codes, nat_eq,
  text_eq,
}
use aeroflare.Proxy.Served.{narinfo_path_of, handler-annotations_of}
use aeroflare.Proxy.Handler.{handler}
use aeroflare.Narinfo.RoundTrip.{parse-to_string}
use aeroflare.Oci.{IsFaithful}
use aeroflare.Narinfo.{Narinfo, to_string, parse}
use aeroflare.Backend.{PushReceipt, tag_of, native_push_receipts}
use aeroflare.Backend.Published.{
  publish_all-IsPublished, Names, Publishable, TagsDiffer, IsPublished,
}
use aeroflare.Proxy.{Server, whole_response, Method, other_method, answered}

module _ {R : Type 0} (server : Server R) (faithful : IsFaithful server.registry)
    (read_file : Text → Option Text) (cancelled : Bool) where
  -- The narinfo request of a narinfo is answered with its text, which parses as that narinfo.
  unfoldable pub IsServed : R → Method → Narinfo → Type 0
  IsServed r method ni =
      (handler server r method (narinfo_path_of (tag_of ni))
        ≡ answered (whole_response (codes "text/x-nix-narinfo") (to_string ni)))
      × (parse (to_string ni) ≡ some ni)

  -- Let the narinfo files of the receipts parse to narinfos that can be published, under different
  -- tags. When `PushReceipts` gives no error, then the narinfo file of every receipt parses, and a GET or HEAD request for the narinfo of its tag is answered
  -- with the text of that narinfo, which parses as it.
  pub push_receipts-IsServed :
      (has_pusher : Bool) (r : R) (receipts : List PushReceipt)
      → All (Publishable server.registry faithful read_file cancelled) receipts
      → TagsDiffer server.registry faithful read_file cancelled receipts
      → (native_push_receipts server.registry read_file cancelled has_pusher r receipts).0 ≡ none
      → (receipt : PushReceipt) → In receipt receipts
      → (method : Method) → method ≢ other_method
      → (ni : Narinfo) × Names server.registry faithful read_file cancelled receipt ni
        × IsServed
            (native_push_receipts server.registry read_file cancelled has_pusher r receipts).1
            method
            ni
  unfolding native_push_receipts IsServed Publishable IsPublished
  push_receipts-IsServed false r receipts ok differ done receipt m method known = absurd (cc done)
  push_receipts-IsServed true r receipts ok differ done receipt m method known =
      let (ni, names, published) =
        publish_all-IsPublished server.registry faithful read_file cancelled r receipts ok differ
          done receipt m in
      let (layer, made, valid, found) = published in
      let h =
        In-All (Publishable server.registry faithful read_file cancelled) receipt receipts ok m in
      (
        ni,
        names,
        (
          handler-annotations_of server _ method ni layer (tag_of ni) known (h ni names).named
              found,
          parse-to_string ni (h ni names).well_formed,
        ),
      )
