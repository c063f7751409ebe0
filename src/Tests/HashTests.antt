-- ===== src/Tests/HashTests.antt =====
-- The base 32 of Nix on a text that is no encoding.
use aeroflare.Base.{
  ◌+◌, ◌*◌, ◌/◌, ◌≡◌, refl, ◌≢◌, ◌↔◌, [], ◌∷◌, arith, length, codes, success, failure,
}
use aeroflare.Hash.RoundTrip.{decode_base32-encode_base32}
use aeroflare.Hash.Bounds.{decode_base32_crashes}
use aeroflare.Hash.{base32_index, decode_base32, index_out_of_range, encode_base32}

decode_base32_crashes_example :
    (decode_base32 (b'1' ∷ []) ≡ failure index_out_of_range)
    ↔ ((base32_index b'1' ≢ 0xff) × (length (codes "") * 5 / 8 ≡ (length (codes "") + 1) * 5 / 8))
decode_base32_crashes_example = decode_base32_crashes b'1' []

decode_base32-encode_base32_example :
    decode_base32 (encode_base32 (1 ∷ 2 ∷ 255 ∷ [])) ≡ success (1 ∷ 2 ∷ 255 ∷ [])
decode_base32-encode_base32_example =
    decode_base32-encode_base32 (1 ∷ 2 ∷ 255 ∷ []) (omega arith, (omega arith, (omega arith, tt)))

encoded : encode_base32 (1 ∷ 2 ∷ 255 ∷ []) ≡ codes "gy0h1"
unfolding encode_base32
encoded = refl

decoded : decode_base32 (codes "gy0h1") ≡ success (1 ∷ 2 ∷ 255 ∷ [])
unfolding decode_base32 base32_index
decoded = refl

-- A text of one character has no byte to be written to.
out_of_range : decode_base32 (codes "1") ≡ failure index_out_of_range
unfolding decode_base32 base32_index
out_of_range = refl
