-- ===== src/Signing/Verified.antt =====
-- pkg/prepare/signing/signing.go: what is signed is verified.
use aeroflare.Base.{
  ℕ, ◌≡◌, refl, sym, ap, ◌∙◌, subst, ◌≢◌, Bool, true, false, Option, none, some, List, [], ◌∷◌,
  arith, if◌then◌else◌, ◌==◌, text_beq, text_beq_refl, if_true, length, All, Text, codes,
  trim_space, cut, dir, join, cut-append, sort_of_perm, >>=-eq-success, or_fail, or_fail-success,
  success, text_eq, nat_eq,
}
use aeroflare.Decimal.{format_int, ℤ}
use aeroflare.Signing.{
  parse_private_key, sign, verify, Suite, PrivateKey, key_of_bytes, named_private, private_parts,
  no_colon, public_key, absolute_ref, fingerprint, sign_narinfo, verify_narinfo, bad_base64,
  check_decoded, check_parts, IsSound,
}
use mathlib.Core.List.{Perm}
use mathlib.Core.List.Perm
use mathlib.Core.Option.{some-injective}

key_of_bytes-name :
    (suite : Suite) (name seed : Text) (pk : PrivateKey)
    → key_of_bytes suite name seed ≡ success pk
    → name ≡ pk.name
key_of_bytes-name suite name seed pk h = ground arith

-- One step of `cut` keeps the separator out of the part in front of it.
cut_step :
    (b c : ℕ) (s : Text) (test : Bool) (rest : Option (Text × Text)) (h t : Text)
    → (test ≡ false → c ≢ b)
    → ((h' t' : Text) → rest ≡ some (h', t') → All (λ x. x ≢ b) h')
    → if◌then◌else◌ {A = Option (Text × Text)} test
        (some ([], s))
        (elim rest [ none ↦ none | some (k, r) ↦ some (c ∷ k, r) ])
      ≡ some (h, t)
    → All (λ x. x ≢ b) h
cut_step b c s true rest h t other ih e =
    subst (λ (p, _). All (λ x. x ≢ b) p) (some-injective _ _ e) tt
cut_step b c s false none h t other ih e = absurd (cc e)
cut_step b c s false (some (k, r)) h t other ih e =
    subst (λ (p, _). All (λ x. x ≢ b) p) (some-injective _ _ e) (other refl, ih k r refl)

cut_head : (b : ℕ) (s h t : Text) → cut b s ≡ some (h, t) → All (λ c. c ≢ b) h
unfolding cut
cut_head b [] h t e = absurd (cc e)
cut_head b (c ∷ s) h t e =
    cut_step b c s (c == b) (cut b s) h t (λ f same. ground arith) (cut_head b s) e

named_private-name :
    (suite : Suite) (name encoded : Text) (pk : PrivateKey)
    → named_private suite name encoded ≡ success pk
    → name ≡ pk.name
named_private-name suite [] encoded pk h = cc
named_private-name suite (c ∷ name) encoded pk h =
    let (seed, decoded, e) =
      >>=-eq-success (or_fail bad_base64 (suite.decode encoded)) (key_of_bytes suite (c ∷ name))
        h in
    key_of_bytes-name suite (c ∷ name) seed pk e

-- A key that was read has no colon in its name.
parse_private_key-name :
    (suite : Suite) (s : Text) (pk : PrivateKey)
    → parse_private_key suite s ≡ success pk
    → All (λ c. c ≢ b':') pk.name
unfolding parse_private_key
parse_private_key-name suite s pk h =
    let ((name, encoded), parts, e) =
      >>=-eq-success (or_fail no_colon (cut b':' (trim_space s))) (private_parts suite) h in
    subst (All (λ c. c ≢ b':')) (named_private-name suite name encoded pk e)
      (cut_head b':' (trim_space s) name encoded (or_fail-success no_colon _ parts))

-- The order of the references is not part of what is signed.
fingerprint-perm :
    (sp nar_hash : Text) (size : ℤ) {refs refs' : List Text}
    → Perm refs refs'
    → fingerprint sp nar_hash size refs ≡ fingerprint sp nar_hash size refs'
unfolding fingerprint
fingerprint-perm sp nar_hash size p =
    ap
      (λ sorted.
        join (codes ";")
          (codes "1" ∷ sp ∷ nar_hash ∷ format_int size ∷ join (codes ",") sorted ∷ []))
      (sort_of_perm (Perm.map (absolute_ref (dir sp)) p))

-- A signature with a key whose name has no colon is accepted with the public half.
verify-sign_named :
    (suite : Suite)
    → IsSound suite
    → (pk : PrivateKey) (message seed : Text) → length seed ≡ 32
    → pk.key ≡ suite.new_key_from_seed seed
    → All (λ c. c ≢ b':') pk.name
    → verify suite (public_key suite pk) message (sign suite pk message) ≡ none
unfolding verify sign
verify-sign_named suite sound pk message seed size of_seed clean =
    let signature = suite.ed25519_sign pk.key message in
    ap (check_parts suite (public_key suite pk) message)
      (cut-append b':' pk.name (suite.encode signature) clean)
    ∙ if_true (text_beq pk.name pk.name) _ _ (text_beq_refl pk.name)
    ∙ ap (check_decoded suite (public_key suite pk) message) (sound.decode-encode signature)
    ∙ if_true (suite.ed25519_verify (suite.public pk.key) message signature) _ _ (
        subst
          (λ key.
            suite.ed25519_verify (suite.public key) message (suite.ed25519_sign key message) ≡ true)
          (sym of_seed) (sound.verify-sign seed message size))

-- For a private key that was read and is that of a seed of 32 bytes, `VerifyNarinfo` with its
-- public key accepts what `SignNarinfo` returns for the same path, hash and size, also when the
-- references come in another order.
pub verify_narinfo-sign_narinfo :
    (suite : Suite)
    → IsSound suite
    → (s : Text) (pk : PrivateKey) → parse_private_key suite s ≡ success pk
    → (seed : Text) → length seed ≡ 32
    → pk.key ≡ suite.new_key_from_seed seed
    → (sp nar_hash : Text) (size : ℤ) {refs refs' : List Text} → Perm refs refs'
    → verify_narinfo suite
        (public_key suite pk)
        sp
        nar_hash
        size
        refs'
        (sign_narinfo suite pk sp nar_hash size refs)
      ≡ none
unfolding verify_narinfo sign_narinfo
verify_narinfo-sign_narinfo suite sound s pk parsed seed full of_seed sp nar_hash size {refs} p =
    subst
      (λ message.
        verify suite (public_key suite pk) message
          (sign suite pk (fingerprint sp nar_hash size refs))
        ≡ none)
      (fingerprint-perm sp nar_hash size p)
      (verify-sign_named suite sound pk _ seed full of_seed
        (parse_private_key-name suite s pk parsed))
