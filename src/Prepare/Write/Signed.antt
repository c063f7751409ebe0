-- ===== src/Prepare/Write/Signed.antt =====
-- What `writeNarAndNarinfo` of pkg/prepare/prepare/prepare.go writes, and that its signature holds.
use aeroflare.Base.{
  ◌≡◌, refl, sym, ap, ◌∙◌, subst, Option, none, some, ◌++◌, if_some, length, Text, codes, success,
  nat_eq, text_eq,
}
use aeroflare.Signing.Verified.{verify_narinfo-sign_narinfo}
use aeroflare.Narinfo.{to_string, Narinfo}
use aeroflare.Prepare.Store.{PathInfo}
use aeroflare.Prepare.Write.{
  Files, nar_file_name, unsigned_narinfo, signed_with, write_packed, write_dump,
  write_nar_and_narinfo, Dump, WriteConfig, Written, joined_blocks,
}
use aeroflare.Signing.{Suite, IsSound, parse_private_key, public_key, verify_narinfo, PrivateKey}
use mathlib.Core.List.Perm
use mathlib.Core.Option.{some-injective}

signed_names :
    (suite : Suite) (key : Option PrivateKey) (ni : Narinfo)
    → ((signed_with suite key ni).store_path ≡ ni.store_path)
      × ((signed_with suite key ni).url ≡ ni.url)
signed_names suite none ni = (refl, refl)
signed_names suite (some key) ni = (refl, refl)

module _ (files : Files) (suite : Suite) (cfg : WriteConfig) (path hash : Text)
    (found : PathInfo) where
  -- The narinfo that is written for some content of the NAR and of its file.
  unfoldable pub IsWritten : Written → Text → Text → Type 0
  IsWritten w nar packed =
      (w.narinfo
        ≡ signed_with suite cfg.signing_key (unsigned_narinfo files cfg path hash found nar packed))
      × (w.narinfo_file ≡ to_string w.narinfo)
      × (w.nar_file ≡ packed)

  write_packed_inv :
      (nar : Text) (o : Option Text) (w : Written)
      → write_packed files suite cfg path hash found nar o ≡ some w
      → (packed : Text) × IsWritten w nar packed
  unfolding IsWritten
  write_packed_inv nar none w e = cc
  write_packed_inv nar (some packed) w e =
      let made = some-injective _ _ (if_some _ (some _) e).1 in
      (
        packed,
        (
          sym (ap (λ w. w.narinfo) made),
          sym (ap (λ w. w.narinfo_file) made) ∙ ap (λ w. to_string w.narinfo) made,
          sym (ap (λ w. w.nar_file) made),
        ),
      )

  write_dump_inv :
      (o : Option Dump) (w : Written)
      → write_dump files suite cfg path hash found o ≡ some w
      → (nar : Text) × (packed : Text) × IsWritten w nar packed
  write_dump_inv none w e = cc
  write_dump_inv (some stream) w e =
      let (packed, written) =
        write_packed_inv (joined_blocks stream.blocks)
          (files.compress cfg.compression stream.blocks) w (if_some _ _ e).1 in
      (joined_blocks stream.blocks, packed, written)

  pub write_nar_and_narinfo_inv :
      (w : Written)
      → write_nar_and_narinfo files suite cfg path hash found ≡ some w
      → (nar : Text) × (packed : Text) × IsWritten w nar packed
  unfolding write_nar_and_narinfo
  write_nar_and_narinfo_inv w e =
      write_dump_inv (files.dump path) w (if_some _ _ (if_some _ _ e).1).1

  -- Signing changes nothing but the signature.
  pub IsWritten-names :
      (w : Written) (nar packed : Text)
      → IsWritten w nar packed
      → (w.narinfo.store_path ≡ path)
        × (w.narinfo.url ≡ codes "nar/" ++ nar_file_name hash cfg.compression)
  unfolding IsWritten unsigned_narinfo
  IsWritten-names w nar packed (same, _, _) =
      let (p, u) =
        signed_names suite cfg.signing_key
          (unsigned_narinfo files cfg path hash found nar packed) in
      (ap (λ n. n.store_path) same ∙ p, ap (λ n. n.url) same ∙ u)

  -- When `writeNarAndNarinfo` writes with a key that was read and is that of a seed of 32 bytes, the
  -- signature in the narinfo is accepted for its fields by the public key.
  pub written_is_verified :
      IsSound suite
      → (w : Written) → write_nar_and_narinfo files suite cfg path hash found ≡ some w
      → (text : Text) (key : PrivateKey) → cfg.signing_key ≡ some key
      → parse_private_key suite text ≡ success key
      → (seed : Text) → length seed ≡ 32
      → key.key ≡ suite.new_key_from_seed seed
      → let n = w.narinfo in
        verify_narinfo suite
          (public_key suite key)
          n.store_path
          n.nar_hash
          n.nar_size
          n.references
          n.sig
        ≡ none
  unfolding IsWritten
  written_is_verified sound w e text key has parsed seed full of_seed =
      let (nar, packed, written) = write_nar_and_narinfo_inv w e in
      let (same, _, _) = written in
      let n = unsigned_narinfo files cfg path hash found nar packed in
      subst
        (λ n.
          verify_narinfo suite (public_key suite key) n.store_path n.nar_hash n.nar_size
            n.references n.sig
          ≡ none)
        (sym (same ∙ ap (λ o. signed_with suite o n) has))
        (verify_narinfo-sign_narinfo suite sound text key parsed seed full of_seed n.store_path
          n.nar_hash n.nar_size (Perm.refl n.references))
