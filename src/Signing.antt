-- ===== src/Signing.antt =====
-- pkg/prepare/signing/signing.go: key files, fingerprints and signatures. crypto/ed25519 and
-- encoding/base64 are the fields of a record.
pub mod Verified
pub mod Parsed
use aeroflare.Base.{
  ◌≡◌, Bool, true, false, Option, none, some, List, [], ◌∷◌, ◌++◌, map, if◌then◌else◌, ◌==◌, length,
  All, Text, codes, is_space, trim_space, cut, dir, join, sort, ◌>>=◌, or_fail, Outcome, success,
  failure, text_eq, nat_eq,
}
use aeroflare.Decimal.{format_int, ℤ}

pub record Suite : Type 0 where
  pub new_key_from_seed : Text → Text
  pub public : Text → Text
  pub ed25519_sign : Text → Text → Text
  pub ed25519_verify : Text → Text → Text → Bool
  pub encode : Text → Text
  pub decode : Text → Option Text

-- What the program relies on of its libraries.
pub record IsSound (suite : Suite) : Type 0 where
  -- encoding/base64: `DecodeString` reads what `EncodeToString` writes.
  pub decode-encode : (s : Text) → suite.decode (suite.encode s) ≡ some s
  -- crypto/ed25519: `Verify` with the public key of a seed accepts what `Sign` returns.
  pub verify-sign :
      (seed message : Text)
      → length seed ≡ 32
      → let key = suite.new_key_from_seed seed in
        suite.ed25519_verify (suite.public key) message (suite.ed25519_sign key message) ≡ true
  -- It writes no white space.
  pub encode-IsSolid : (s : Text) → All (λ c. is_space c ≡ false) (suite.encode s)

-- `PrivateKey`, and `PublicKey` with the same fields.
pub record PrivateKey : Type 0 where
  pub name : Text
  pub key : Text

pub record PublicKey : Type 0 where
  pub name : Text
  pub key : Text

pub data KeyError : Type 0 where
  no_colon no_name bad_base64 bad_length other_name bad_signature : KeyError

-- The key of a seed of 32 bytes, or one of 64 bytes with its public half.
abbrev pub key_of_bytes : Suite → Text → Text → Outcome KeyError PrivateKey
key_of_bytes suite name seed =
    if length seed == 32
    then success (record { name = name; key = suite.new_key_from_seed seed })
    else if length seed == 64
    then success (record { name = name; key = seed })
    else failure bad_length

abbrev pub named_private : Suite → Text → Text → Outcome KeyError PrivateKey
named_private suite [] encoded = failure no_name
named_private suite (c ∷ name) encoded =
    or_fail bad_base64 (suite.decode encoded) >>= key_of_bytes suite (c ∷ name)

abbrev pub private_parts : Suite → Text × Text → Outcome KeyError PrivateKey
private_parts suite (name, encoded) = named_private suite name encoded

-- `ParsePrivateKey`.
unfoldable pub parse_private_key : Suite → Text → Outcome KeyError PrivateKey
unfolding cut trim_space
parse_private_key suite s = or_fail no_colon (cut b':' (trim_space s)) >>= private_parts suite

-- `PrivateKey.PublicKey`.
abbrev pub public_key : Suite → PrivateKey → PublicKey
public_key suite pk = record { name = pk.name; key = suite.public pk.key }

abbrev pub public_of_bytes : Text → Text → Outcome KeyError PublicKey
public_of_bytes name key =
    if length key == 32 then success (record { name = name; key = key }) else failure bad_length

abbrev pub named_public : Suite → Text → Text → Outcome KeyError PublicKey
named_public suite [] encoded = failure no_name
named_public suite (c ∷ name) encoded =
    or_fail bad_base64 (suite.decode encoded) >>= public_of_bytes (c ∷ name)

abbrev pub public_parts : Suite → Text × Text → Outcome KeyError PublicKey
public_parts suite (name, encoded) = named_public suite name encoded

-- `ParsePublicKey`.
unfoldable pub parse_public_key : Suite → Text → Outcome KeyError PublicKey
unfolding cut trim_space
parse_public_key suite s = or_fail no_colon (cut b':' (trim_space s)) >>= public_parts suite

-- `PublicKey.String`.
unfoldable pub print_public_key : Suite → PublicKey → Text
print_public_key suite pk = pk.name ++ (b':' ∷ suite.encode pk.key)

abbrev pub is_abs : Text → Bool
is_abs [] = false
is_abs (c ∷ path) = c == b'/'

abbrev pub absolute_ref : Text → Text → Text
absolute_ref store_dir ref = if is_abs ref then ref else store_dir ++ codes "/" ++ ref

-- `Fingerprint`.
unfoldable pub fingerprint : Text → Text → ℤ → List Text → Text
unfolding dir sort join format_int
fingerprint store_path nar_hash nar_size references = join (codes ";") (
    codes "1"
    ∷ store_path
    ∷ nar_hash
    ∷ format_int nar_size
    ∷ join (codes ",") (sort (map (absolute_ref (dir store_path)) references))
    ∷ [])

-- `Sign`.
unfoldable pub sign : Suite → PrivateKey → Text → Text
sign suite pk message = pk.name ++ (b':' ∷ suite.encode (suite.ed25519_sign pk.key message))

-- `SignNarinfo`.
unfoldable pub sign_narinfo : Suite → PrivateKey → Text → Text → ℤ → List Text → Text
unfolding sign fingerprint
sign_narinfo suite pk store_path nar_hash nar_size references =
    sign suite pk (fingerprint store_path nar_hash nar_size references)

-- `Verify`: no error, or the error.
abbrev pub check_signature : Suite → PublicKey → Text → Text → Option KeyError
check_signature suite pk message signature =
    if suite.ed25519_verify pk.key message signature then none else some bad_signature

abbrev pub check_decoded : Suite → PublicKey → Text → Option Text → Option KeyError
check_decoded suite pk message none = some bad_base64
check_decoded suite pk message (some signature) = check_signature suite pk message signature

abbrev pub check_parts : Suite → PublicKey → Text → Option (Text × Text) → Option KeyError
check_parts suite pk message none = some no_colon
check_parts suite pk message (some (name, encoded)) =
    if name == pk.name
    then check_decoded suite pk message (suite.decode encoded)
    else some other_name

unfoldable pub verify : Suite → PublicKey → Text → Text → Option KeyError
unfolding cut
verify suite pk message sig = check_parts suite pk message (cut b':' sig)

-- `VerifyNarinfo`.
unfoldable pub verify_narinfo :
    Suite → PublicKey → Text → Text → ℤ → List Text → Text → Option KeyError
unfolding verify fingerprint
verify_narinfo suite pk store_path nar_hash nar_size references sig =
    verify suite pk (fingerprint store_path nar_hash nar_size references) sig
