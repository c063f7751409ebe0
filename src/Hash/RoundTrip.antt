-- ===== src/Hash/RoundTrip.antt =====
-- What `EncodeBase32` writes, `DecodeBase32` reads.
use Prim.Native.Nat.{bit_and, bit_or}
use aeroflare.Base.{
  ℕ, zero, suc, ◌+◌, ◌-◌, ◌*◌, ◌/◌, ◌%◌, ◌≤◌, ◌<◌, ◌≡◌, refl, sym, ap, ◌∙◌, subst, ◌≢◌, Bool, true,
  false, ◌&&◌, [], ◌∷◌, arith, ltb, leb, if◌then◌else◌, if_true, if_false, leb-false, not_same,
  leb-true, length, All, Text, ◌>>=◌, success, nat_eq, text_eq,
}
use aeroflare.Hash.Masked.{masked, digit_from, write_first, digit_from-below, index-digit_from}
use aeroflare.Hash.{
  write_digit, byte_at, shift_left, shift_right, or_byte, base32_index, chars_from, zeros, char_at,
  encode_base32, decode_digit, decode_from, decode_base32,
}

suc_next : (i : ℕ) → suc i + 1 ≡ suc (i + 1)
suc_next i = omega arith

leb-suc : (a b : ℕ) → leb (suc a) (suc b) ≡ leb a b
leb-suc a b = ground arith

ltb-suc : (a b : ℕ) → ltb (suc a) (suc b) ≡ ltb a b
ltb-suc a b = ground arith

-- A digit that lies behind the first byte.
digit_from-suc :
    (i j b : ℕ) (bytes : Text) → digit_from (suc i) j (b ∷ bytes) ≡ digit_from i j bytes
digit_from-suc i j b bytes =
    let low = shift_right (byte_at bytes i) j in
    ap
      (λ k.
        bit_and
          (if leb (suc (length bytes)) k
            then low
            else bit_or low (shift_left (byte_at (b ∷ bytes) k) (8 - j)))
          0x1f)
      (suc_next i)
    ∙ ap
        (λ t.
          bit_and (if t then low else bit_or low (shift_left (byte_at bytes (i + 1)) (8 - j))) 0x1f)
        (leb-suc (length bytes) (i + 1))

if-cons : (x : ℕ) (b : Bool) (s t : Text) → (if b then x ∷ s else x ∷ t) ≡ x ∷ (if b then s else t)
if-cons x true s t = refl
if-cons x false s t = refl

write_digit-suc :
    (d i j x : ℕ) (out : Text) → write_digit d (suc i) j (x ∷ out) ≡ x ∷ write_digit d i j out
write_digit-suc d i j x out =
    let written = or_byte i (shift_left d j) out in
    ap
      (λ k.
        if ltb k (suc (length out)) && ltb 3 j
        then or_byte k (shift_right d (8 - j)) (x ∷ written)
        else x ∷ written)
      (suc_next i)
    ∙ ap
        (λ t.
          if t && ltb 3 j then x ∷ or_byte (i + 1) (shift_right d (8 - j)) written else x ∷ written)
        (ltb-suc (i + 1) (length out))
    ∙ if-cons x (ltb (i + 1) (length out) && ltb 3 j) _ written

masked-behind : (t u b : ℕ) (bytes : Text) → u ≡ 8 + t → masked u (b ∷ bytes) ≡ 0 ∷ masked t bytes
unfolding masked
masked-behind t u b bytes e =
    ap (λ v. v ∷ masked (u - 8) bytes) (if_true _ _ _ (leb-true 8 u (omega arith)))
    ∙ ap (λ k. 0 ∷ masked k bytes) (omega arith)

-- A digit is written behind the bits that are written.
write_digit-masked :
    (bytes : Text)
    → All (λ c. c < 256) bytes
    → (i j : ℕ) → i < length bytes
    → j < 8
    → write_digit (digit_from i j bytes) i j (masked (i * 8 + j + 5) bytes)
      ≡ masked (i * 8 + j) bytes
unfolding masked
write_digit-masked [] clean i j inside h = absurd (omega arith)
write_digit-masked (b ∷ bytes) clean zero j inside h =
    let at : j ≡ 0 * 8 + j = omega arith in
    subst
      (λ k.
        write_digit (digit_from 0 j (b ∷ bytes)) 0 j (masked (k + 5) (b ∷ bytes))
        ≡ masked k (b ∷ bytes))
      at (write_first b bytes clean j h)
write_digit-masked (b ∷ bytes) (byte, clean) (suc i) j inside h =
    let out = masked (i * 8 + j + 5) bytes in
    ap (λ d. write_digit d (suc i) j (masked (suc i * 8 + j + 5) (b ∷ bytes)))
      (digit_from-suc i j b bytes)
    ∙ ap (write_digit (digit_from i j bytes) (suc i) j)
        (masked-behind (i * 8 + j + 5) (suc i * 8 + j + 5) b bytes (omega arith))
    ∙ write_digit-suc (digit_from i j bytes) i j 0 out
    ∙ ap (λ s. 0 ∷ s) (write_digit-masked bytes clean i j (omega arith) h)
    ∙ sym (masked-behind (i * 8 + j) (suc i * 8 + j) b bytes (omega arith))

masked-full : (t : ℕ) (bytes : Text) → length bytes * 8 ≤ t → masked t bytes ≡ zeros (length bytes)
unfolding masked
masked-full t [] h = refl
masked-full t (b ∷ bytes) h =
    ap (λ v. v ∷ masked (t - 8) bytes) (if_true _ _ _ (leb-true 8 t (omega arith)))
    ∙ ap (λ s. 0 ∷ s) (masked-full (t - 8) bytes (omega arith))

masked-none : (bytes : Text) → masked 0 bytes ≡ bytes
unfolding masked
masked-none [] = refl
masked-none (b ∷ bytes) =
    ap (λ v. v ∷ masked 0 bytes) (omega arith) ∙ ap (λ s. b ∷ s) (masked-none bytes)

length-masked : (t : ℕ) (bytes : Text) → length (masked t bytes) ≡ length bytes
unfolding masked
length-masked t [] = refl
length-masked t (b ∷ bytes) = ap suc (length-masked (t - 8) bytes)

length-chars_from : (bytes : Text) (m : ℕ) → length (chars_from bytes m) ≡ m
unfolding chars_from
length-chars_from bytes zero = refl
length-chars_from bytes (suc m) = ap suc (length-chars_from bytes m)

differs : (d : ℕ) → d < 32 → d ≢ 0xff
differs d h e = omega (arith, e)

module _ (bytes : Text) (clean : All (λ c. c < 256) bytes) where
  -- A round of `DecodeBase32` on the character that `EncodeBase32` writes at that place.
  decode_digit-char_at :
      (m : ℕ)
      → m * 5 < length bytes * 8
      → decode_digit (base32_index (char_at bytes m)) m (masked (suc m * 5) bytes)
        ≡ success (masked (m * 5) bytes)
  unfolding decode_digit char_at
  decode_digit-char_at m inside =
      let i = m * 5 / 8 in
      let j = m * 5 % 8 in
      let d = digit_from i j bytes in
      let out = masked (suc m * 5) bytes in
      ap (λ c. decode_digit c m out) (index-digit_from i j bytes)
      ∙ if_false _ _ _ (not_same d 0xff (differs d (digit_from-below i j bytes)))
      ∙ if_false _ _ _ (
          leb-false i (length out)
            (subst (λ n. i < n) (sym (length-masked (suc m * 5) bytes)) (omega arith)))
      ∙ ap (λ t. success (write_digit d i j (masked t bytes))) (omega arith)
      ∙ ap success (write_digit-masked bytes clean i j (omega arith) (omega arith))
      ∙ ap (λ t. success (masked t bytes)) (omega arith)

  decode_from-chars_from :
      (m : ℕ)
      → m * 5 < length bytes * 8 + 5
      → decode_from (chars_from bytes m) (masked (m * 5) bytes) ≡ success bytes
  unfolding decode_from chars_from
  decode_from-chars_from zero inside = ap success (masked-none bytes)
  decode_from-chars_from (suc m) inside =
      let out = masked (suc m * 5) bytes in
      ap
        (λ k.
          decode_digit (base32_index (char_at bytes m)) k out >>= decode_from (chars_from bytes m))
        (length-chars_from bytes m)
      ∙ ap (λ o. o >>= decode_from (chars_from bytes m)) (decode_digit-char_at m (omega arith))
      ∙ decode_from-chars_from m (omega arith)

-- `DecodeBase32` reads from what `EncodeBase32` writes of some bytes the same bytes.
pub decode_base32-encode_base32 :
    (bytes : Text) → All (λ c. c < 256) bytes → decode_base32 (encode_base32 bytes) ≡ success bytes
unfolding decode_base32 encode_base32 decode_from
decode_base32-encode_base32 [] clean = refl
decode_base32-encode_base32 (b ∷ bytes) clean =
    let all = b ∷ bytes in
    let m = (length all * 8 - 1) / 5 + 1 in
    let exact : m * 5 / 8 ≡ length all = omega arith in
    ap (λ n. decode_from (chars_from all m) (zeros (n * 5 / 8))) (length-chars_from all m)
    ∙ ap (λ n. decode_from (chars_from all m) (zeros n)) exact
    ∙ ap (decode_from (chars_from all m)) (sym (masked-full (m * 5) all (omega arith)))
    ∙ decode_from-chars_from all clean m (omega arith)
