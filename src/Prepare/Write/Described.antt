-- ===== src/Prepare/Write/Described.antt =====
-- The layer of an archive, from the narinfo that was written with it.
use aeroflare.Base.{
  ◌<◌, ◌≡◌, refl, sym, ap, ◌∙◌, true, Option, none, some, ◌++◌, if_true, length, All, Text, codes,
  strip_prefix, strip_prefix-append, success, nat_eq, text_eq,
}
use aeroflare.Prepare.Store.{PathInfo}
use aeroflare.Prepare.Write.{
  hash_text, unsigned_narinfo, signed_with, write_nar_and_narinfo, Files, WriteConfig, Written,
}
use aeroflare.Narinfo.{Narinfo}
use aeroflare.Hash.{encode_base32, hex}
use aeroflare.Signing.{Suite, PrivateKey}
use aeroflare.Decimal.{pos}
use aeroflare.Hash.RoundTrip.{decode_base32-encode_base32}
use aeroflare.Prepare.Write.Signed.{write_nar_and_narinfo_inv, IsWritten}
use aeroflare.Oci.{Registry, new_layer_fast, layer_of_hash, layer_of_bytes, or_octets}

signed_file :
    (suite : Suite) (key : Option PrivateKey) (ni : Narinfo)
    → ((signed_with suite key ni).file_hash ≡ ni.file_hash)
      × ((signed_with suite key ni).file_size ≡ ni.file_size)
signed_file suite none ni = (refl, refl)
signed_file suite (some key) ni = (refl, refl)

module _ (files : Files) (suite : Suite) (cfg : WriteConfig) (path hash : Text)
    (found : PathInfo) where
  IsWritten-file :
      (w : Written) (nar packed : Text)
      → IsWritten files suite cfg path hash found w nar packed
      → (w.narinfo.file_hash ≡ codes "sha256:" ++ encode_base32 (files.sha256 w.nar_file))
        × (w.narinfo.file_size ≡ pos (length w.nar_file))
  unfolding IsWritten unsigned_narinfo
  IsWritten-file w nar packed (same, _, file) =
      let (h, n) =
        signed_file suite cfg.signing_key (unsigned_narinfo files cfg path hash found nar packed) in
      (
        ap (λ n. n.file_hash) same ∙ h ∙ ap (hash_text files) (sym file),
        ap (λ n. n.file_size) same ∙ n ∙ ap (λ s. pos (length s)) (sym file),
      )

  -- From a narinfo that `writeNarAndNarinfo` has written, `NewLayerFast` describes the file of the
  -- NAR that was written with it, which it does not read: its digest is the SHA-256 of the file in
  -- hexadecimal, and its size is that of the file, if the sum is made of bytes and its text is taken
  -- for a digest.
  pub new_layer_fast-write_nar_and_narinfo :
      {R : Type 0} (registry : Registry R) (media_type : Text) (w : Written)
      → write_nar_and_narinfo files suite cfg path hash found ≡ some w
      → All (λ c. c < 256) (files.sha256 w.nar_file)
      → registry.is_digest (codes "sha256:" ++ hex (files.sha256 w.nar_file)) ≡ true
      → new_layer_fast registry media_type w.narinfo
        ≡ success (record {
          digest = codes "sha256:" ++ hex (files.sha256 w.nar_file);
          size = pos (length w.nar_file);
          media_type = or_octets media_type;
        })
  unfolding new_layer_fast
  new_layer_fast-write_nar_and_narinfo registry media_type w e clean valid =
      let (nar, packed, written) = write_nar_and_narinfo_inv files suite cfg path hash found w e in
      let (hashed, sized) = IsWritten-file w nar packed written in
      let sum = files.sha256 w.nar_file in
      ap (λ o. layer_of_hash registry w.narinfo.file_size media_type o)
        (ap (λ h. strip_prefix h (codes "sha256:")) hashed
          ∙ strip_prefix-append (codes "sha256:") (encode_base32 sum))
      ∙ ap (layer_of_bytes registry w.narinfo.file_size media_type)
          (decode_base32-encode_base32 sum clean)
      ∙ if_true _ _ _ valid
      ∙ ap
          (λ z. success (record {
            digest = codes "sha256:" ++ hex sum;
            size = z;
            media_type = or_octets media_type;
          }))
          sized
