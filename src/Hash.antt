-- ===== src/Hash.antt =====
-- pkg/prepare/hash/hash.go: the base32 of Nix, read and written. A byte is a number below 256.
pub mod Bounds
pub mod Bits
pub mod Masked
pub mod RoundTrip
use aeroflare.Base.{
  ℕ, zero, suc, ◌+◌, ◌-◌, ◌*◌, ◌/◌, ◌%◌, ◌^◌, ◌&&◌, [], ◌∷◌, ltb, leb, if◌then◌else◌, ◌==◌, length,
  Text, codes, ◌>>=◌, Outcome, success, failure, nat_eq,
}
use Prim.Native.Nat.{bit_and, bit_or}

-- `base32Chars`.
abbrev pub base32_chars : Text
base32_chars = codes "0123456789abcdfghijklmnpqrsvwxyz"

-- `base32Index`: the position of a byte in the alphabet, or 0xFF.
unfoldable pub index_from : ℕ → Text → ℕ → ℕ
index_from i [] c = 0xff
index_from i (d ∷ chars) c = let later = index_from (i + 1) chars c in if d == c then i else later

unfoldable pub base32_index : ℕ → ℕ
unfolding index_from
base32_index c = index_from 0 base32_chars c

-- An element of a slice whose index is in range.
abbrev pub byte_at : Text → ℕ → ℕ
byte_at [] i = 0
byte_at (c ∷ s) zero = c
byte_at (c ∷ s) (suc i) = byte_at s i

abbrev pub set_byte : Text → ℕ → ℕ → Text
set_byte [] i v = []
set_byte (c ∷ s) zero v = v ∷ s
set_byte (c ∷ s) (suc i) v = c ∷ set_byte s i v

-- Shifts of a `byte`.
abbrev pub shift_left : ℕ → ℕ → ℕ
shift_left c k = c * 2 ^ k % 256

abbrev pub shift_right : ℕ → ℕ → ℕ
shift_right c k = c / 2 ^ k

-- The character of bit position `m * 5`, which `EncodeBase32` writes at `outputLen - m - 1`.
unfoldable pub char_at : Text → ℕ → ℕ
char_at bytes m =
    let i = m * 5 / 8 in
    let j = m * 5 % 8 in
    let low = shift_right (byte_at bytes i) j in
    byte_at base32_chars (
      bit_and
        (if leb (length bytes) (i + 1)
          then low
          else bit_or low (shift_left (byte_at bytes (i + 1)) (8 - j)))
        0x1f)

unfoldable pub chars_from : Text → ℕ → Text
unfolding char_at
chars_from bytes zero = []
chars_from bytes (suc m) = char_at bytes m ∷ chars_from bytes m

-- `EncodeBase32`.
unfoldable pub encode_base32 : Text → Text
unfolding chars_from
encode_base32 [] = []
encode_base32 (c ∷ bytes) = chars_from (c ∷ bytes) ((length (c ∷ bytes) * 8 - 1) / 5 + 1)

-- What a call of `DecodeBase32` comes to: bytes, an error, or a panic of the runtime.
pub data DecodeError : Type 0 where
  bad_character index_out_of_range : DecodeError

abbrev pub or_byte : ℕ → ℕ → Text → Text
or_byte i v out = set_byte out i (bit_or (byte_at out i) v)

-- The two writes of a round.
abbrev pub write_digit : ℕ → ℕ → ℕ → Text → Text
write_digit digit i j out =
    let written = or_byte i (shift_left digit j) out in
    if ltb (i + 1) (length out) && ltb 3 j
    then or_byte (i + 1) (shift_right digit (8 - j)) written
    else written

-- A round of the loop, on the number of characters behind this one.
unfoldable pub decode_digit : ℕ → ℕ → Text → Outcome DecodeError Text
decode_digit digit m out =
    if digit == 0xff
    then failure bad_character
    else if leb (length out) (m * 5 / 8)
    then failure index_out_of_range
    else success (write_digit digit (m * 5 / 8) (m * 5 % 8) out)

unfoldable pub decode_from : Text → Text → Outcome DecodeError Text
unfolding decode_digit
decode_from [] out = success out
decode_from (c ∷ s) out = decode_digit (base32_index c) (length s) out >>= decode_from s

abbrev pub zeros : ℕ → Text
zeros zero = []
zeros (suc n) = 0 ∷ zeros n

-- `DecodeBase32`: a text that is empty gives no bytes.
unfoldable pub decode_base32 : Text → Outcome DecodeError Text
unfolding decode_from
decode_base32 s = decode_from s (zeros (length s * 5 / 8))

-- encoding/hex's EncodeToString.
abbrev pub hex_chars : Text
hex_chars = codes "0123456789abcdef"

unfoldable pub hex : Text → Text
hex [] = []
hex (c ∷ bytes) = byte_at hex_chars (c / 16) ∷ byte_at hex_chars (c % 16) ∷ hex bytes
