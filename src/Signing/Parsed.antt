-- ===== src/Signing/Parsed.antt =====
-- Key files of pkg/prepare/signing/signing.go are read as they are written.
use aeroflare.Base.{
  ℕ, ◌≡◌, refl, ap, ◌∙◌, ◌≢◌, true, some, [], ◌∷◌, ◌++◌, arith, ◌==◌, if_true, if_false, length,
  All, All-append, Text, is_space, trim_left, trim_right, trim_space, cut, IsSolid, IsWhite,
  trim_right-append, cut-append, ◌>>=◌, or_fail, success, nat_eq,
}
use aeroflare.Signing.{
  parse_private_key, parse_public_key, print_public_key, Suite, IsSound, PublicKey, key_of_bytes,
  private_parts, public_of_bytes, public_parts, no_colon, bad_base64,
}

-- The name and the encoded bytes of a key, with white space behind them.
cut-trim_space :
    (name encoded white : Text)
    → (name ≡ [] → ⊥)
    → IsSolid name
    → All (λ c. c ≢ b':') name
    → IsSolid encoded
    → IsWhite white
    → cut b':' (trim_space ((name ++ (b':' ∷ encoded)) ++ white)) ≡ some (name, encoded)
unfolding trim_space trim_left is_space
cut-trim_space [] encoded white full solid clean coded spaces = absurd (full refl)
cut-trim_space (c ∷ name) encoded white full (first, solid) clean coded spaces =
    let text = name ++ (b':' ∷ encoded) in
    ap (λ s. cut b':' (trim_right is_space s)) (if_false _ _ (c ∷ (text ++ white)) first)
    ∙ ap (cut b':') (
        trim_right-append (c ∷ text) white
          (first, All-append _ name (b':' ∷ encoded) solid (refl, coded)) spaces)
    ∙ cut-append b':' (c ∷ name) encoded clean

is_length : (s : Text) (n : ℕ) → length s ≡ n → (length s == n) ≡ true
is_length s n h = ground arith

-- `ParsePrivateKey` reads the text of a key name, a colon, a seed of 32 bytes in base64 and white
-- space as the key of that seed under that name, if the name is not empty and has neither a colon
-- nor white space.
pub parse_private_key-seed :
    (suite : Suite)
    → IsSound suite
    → (name seed white : Text) → (name ≡ [] → ⊥)
    → IsSolid name
    → All (λ c. c ≢ b':') name
    → length seed ≡ 32
    → IsWhite white
    → parse_private_key suite ((name ++ (b':' ∷ suite.encode seed)) ++ white)
      ≡ success (record { name = name; key = suite.new_key_from_seed seed })
unfolding parse_private_key
parse_private_key-seed suite sound [] seed white full solid clean full_key spaces =
    absurd (full refl)
parse_private_key-seed suite sound (c ∷ name) seed white full solid clean full_key spaces =
    ap (λ parts. or_fail no_colon parts >>= private_parts suite)
      (cut-trim_space (c ∷ name) (suite.encode seed) white full solid clean
        (sound.encode-IsSolid seed) spaces)
    ∙ ap (λ bytes. or_fail bad_base64 bytes >>= key_of_bytes suite (c ∷ name))
        (sound.decode-encode seed)
    ∙ if_true (length seed == 32) _ _ (is_length seed 32 full_key)

print_parsed :
    (suite : Suite)
    → IsSound suite
    → (name key white : Text) → (name ≡ [] → ⊥)
    → IsSolid name
    → All (λ c. c ≢ b':') name
    → length key ≡ 32
    → IsWhite white
    → parse_public_key suite ((name ++ (b':' ∷ suite.encode key)) ++ white)
      ≡ success (record { name = name; key = key })
unfolding parse_public_key
print_parsed suite sound [] key white full solid clean full_key spaces = absurd (full refl)
print_parsed suite sound (c ∷ name) key white full solid clean full_key spaces =
    ap (λ parts. or_fail no_colon parts >>= public_parts suite)
      (cut-trim_space (c ∷ name) (suite.encode key) white full solid clean
        (sound.encode-IsSolid key) spaces)
    ∙ ap (λ bytes. or_fail bad_base64 bytes >>= public_of_bytes (c ∷ name))
        (sound.decode-encode key)
    ∙ if_true (length key == 32) _ _ (is_length key 32 full_key)

-- `ParsePublicKey` reads from what `PublicKey.String` prints, with white space behind it, the same
-- key, if it has 32 bytes and its name is not empty and has neither a colon nor white space.
pub parse_public_key-print_public_key :
    (suite : Suite)
    → IsSound suite
    → (pk : PublicKey) (white : Text) → (pk.name ≡ [] → ⊥)
    → IsSolid pk.name
    → All (λ c. c ≢ b':') pk.name
    → length pk.key ≡ 32
    → IsWhite white
    → parse_public_key suite (print_public_key suite pk ++ white) ≡ success pk
unfolding parse_public_key print_public_key
parse_public_key-print_public_key suite sound pk white full solid clean full_key spaces =
    print_parsed suite sound pk.name pk.key white full solid clean full_key spaces
