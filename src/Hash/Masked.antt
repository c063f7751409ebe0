-- ===== src/Hash/Masked.antt =====
-- The digits that `EncodeBase32` reads, and the bytes while `DecodeBase32` writes them.
use native.Mathlib.Decide.{dec_lt}
use Prim.Native.Nat.{bit_and, bit_or}
use aeroflare.Base.{
  ℕ, zero, suc, ◌+◌, ◌-◌, ◌*◌, ◌/◌, ◌%◌, ◌^◌, ◌<◌, ◌≡◌, refl, sym, ap, ◌∙◌, subst, inl, inr, Bool,
  true, false, ◌&&◌, [], ◌∷◌, arith, ltb, leb, if◌then◌else◌, nat_beq_iff, ◌==◌, Bool-cases,
  if_true, if_false, leb-false, length, All, Text, nat_eq, text_eq,
}
use aeroflare.Hash.Bits.{bit_and-mask, bit_or-shifts, positions}
use aeroflare.Hash.{byte_at, shift_left, shift_right, write_digit, base32_chars, base32_index}

-- The bits of a byte from `t` on.
abbrev pub kept_bits : ℕ → ℕ → ℕ
kept_bits t b = if leb 8 t then 0 else b / 2 ^ t * 2 ^ t

-- The bytes with the bits of the positions from `t` on.
unfoldable pub masked : ℕ → Text → Text
masked t [] = []
masked t (b ∷ bytes) = kept_bits t b ∷ masked (t - 8) bytes

-- The digit that is read at bit `j` of byte `i`.
abbrev pub digit_from : ℕ → ℕ → Text → ℕ
digit_from i j bytes =
    bit_and
      (if leb (length bytes) (i + 1)
        then shift_right (byte_at bytes i) j
        else bit_or (shift_right (byte_at bytes i) j) (shift_left (byte_at bytes (i + 1)) (8 - j)))
      0x1f

pub digit_from-below : (i j : ℕ) (bytes : Text) → digit_from i j bytes < 32
digit_from-below i j bytes = subst (λ d. d < 32) (sym (bit_and-mask _)) (omega arith)

digit_from-last : (j b : ℕ) → digit_from 0 j (b ∷ []) ≡ b / 2 ^ j % 32
digit_from-last j b = bit_and-mask (shift_right b j)

digit_from-two :
    (j b next : ℕ) (bytes : Text)
    → j < 8
    → b < 256
    → digit_from 0 j (b ∷ next ∷ bytes) ≡ (b / 2 ^ j + next % 2 ^ j * 2 ^ (8 - j)) % 32
digit_from-two j b next bytes h byte =
    ap (λ v. bit_and v 0x1f) (if_false _ _ _ (leb-false 1 (suc (suc (length bytes))) (omega arith)))
    ∙ bit_and-mask (bit_or (shift_right b j) (shift_left next (8 - j)))
    ∙ ap (λ v. v % 32) (bit_or-shifts j b next h byte)

-- A test of the numbers from `n - 1` down to 0.
holds_to : (ℕ → Bool) → ℕ → Bool
holds_to test zero = true
holds_to test (suc n) = if test n then holds_to test n else false

holds_to-at : (test : ℕ → Bool) (n k : ℕ) → k < n → holds_to test n ≡ true → test k ≡ true
unfolding holds_to
holds_to-at test zero k below e = absurd (omega arith)
holds_to-at test (suc n) k below e = elim (Bool-cases (test n)) [
  | inl good ↦
      let below_n = sym (if_true (test n) (holds_to test n) false good) ∙ e in
      elim (dec_lt k n) [
        | yes lt ↦ holds_to-at test n k lt below_n
        | no not_lt ↦ let last : k ≡ n = omega arith in ap test last ∙ good
      ]
  | inr bad ↦ absurd (cc (sym (if_false (test n) (holds_to test n) false bad) ∙ e))
]

-- The bits of a digit that go to the byte in which it starts.
merges : ℕ → ℕ → Bool
merges j b = bit_or (kept_bits (j + 5) b) (shift_left (b / 2 ^ j % 32) j) == kept_bits j b

-- The upper bits of a digit, in the next byte.
continues : ℕ → ℕ → Bool
continues j b = bit_or (kept_bits j b) (b % 2 ^ j) == b

merges_table : (j : ℕ) → j < 8 → holds_to (merges j) 256 ≡ true
unfolding holds_to merges
merges_table =
    positions (λ j. holds_to (merges j) 256 ≡ true) refl refl refl refl refl refl refl refl

merged_byte :
    (j b : ℕ)
    → j < 8
    → b < 256
    → bit_or (kept_bits (j + 5) b) (shift_left (b / 2 ^ j % 32) j) ≡ kept_bits j b
unfolding merges
merged_byte j b h byte =
    (nat_beq_iff _ (kept_bits j b)).0 (holds_to-at (merges j) 256 b byte (merges_table j h))

continues_table : (j : ℕ) → j < 8 → holds_to (continues j) 256 ≡ true
unfolding holds_to continues
continues_table =
    positions (λ j. holds_to (continues j) 256 ≡ true) refl refl refl refl refl refl refl refl

continued_byte : (j b : ℕ) → j < 8 → b < 256 → bit_or (kept_bits j b) (b % 2 ^ j) ≡ b
unfolding continues
continued_byte j b h byte =
    (nat_beq_iff _ b).0 (holds_to-at (continues j) 256 b byte (continues_table j h))

-- The index of a digit's character is the digit.
finds : ℕ → Bool
finds d = base32_index (byte_at base32_chars d) == d

finds_table : holds_to finds 32 ≡ true
unfolding holds_to finds base32_index
finds_table = refl

index_of_digit : (d : ℕ) → d < 32 → base32_index (byte_at base32_chars d) ≡ d
unfolding finds
index_of_digit d h = (nat_beq_iff _ d).0 (holds_to-at finds 32 d h finds_table)

pub index-digit_from :
    (i j : ℕ) (bytes : Text)
    → base32_index (byte_at base32_chars (digit_from i j bytes)) ≡ digit_from i j bytes
index-digit_from i j bytes = index_of_digit (digit_from i j bytes) (digit_from-below i j bytes)

-- A digit as the two bytes see it.
digit : ℕ → ℕ → ℕ → ℕ
digit j b next = (b / 2 ^ j + next % 2 ^ j * 2 ^ (8 - j)) % 32

digit-low :
    (b next : ℕ)
    → b < 256
    → (j : ℕ) → j < 8
    → shift_left (digit j b next) j ≡ shift_left (b / 2 ^ j % 32) j
unfolding digit
digit-low b next byte =
    positions (λ j. shift_left (digit j b next) j ≡ shift_left (b / 2 ^ j % 32) j) (omega arith)
      (omega arith) (omega arith) (omega arith) (omega arith) (omega arith) (omega arith)
      (omega arith)

digit-high :
    (b next : ℕ)
    → b < 256
    → (j : ℕ) → j < 4
    → shift_right (digit (j + 4) b next) (8 - (j + 4)) ≡ next % 2 ^ (j + 1)
unfolding digit
digit-high b next byte zero h = omega arith
digit-high b next byte (suc zero) h = omega arith
digit-high b next byte (suc (suc zero)) h = omega arith
digit-high b next byte (suc (suc (suc zero))) h = omega arith
digit-high b next byte (suc (suc (suc (suc j)))) h = absurd (omega arith)

ltb-true : (a b : ℕ) → a < b → ltb a b ≡ true
ltb-true a b h = ground arith

two_bytes :
    (d j x y : ℕ) (rest : Text)
    → write_digit d 0 j (x ∷ y ∷ rest) ≡ (
        if ltb 3 j
        then bit_or x (shift_left d j) ∷ bit_or y (shift_right d (8 - j)) ∷ rest
        else bit_or x (shift_left d j) ∷ y ∷ rest)
two_bytes d j x y rest =
    ap
      (λ b.
        if b && ltb 3 j
        then bit_or x (shift_left d j) ∷ bit_or y (shift_right d (8 - j)) ∷ rest
        else bit_or x (shift_left d j) ∷ y ∷ rest)
      (ltb-true 1 (suc (suc (length rest))) (omega arith))

-- Where the digit lies in two bytes, the second is made whole if the digit reaches it.
two_masked :
    (b next : ℕ) (rest : Text)
    → b < 256
    → next < 256
    → (j : ℕ) → j < 8
    → (if ltb 3 j
        then kept_bits j b
          ∷ bit_or (kept_bits (j + 5 - 8) next) (shift_right (digit j b next) (8 - j))
          ∷ masked (j + 5 - 8 - 8) rest
        else kept_bits j b ∷ kept_bits (j + 5 - 8) next ∷ masked (j + 5 - 8 - 8) rest)
      ≡ kept_bits j b ∷ kept_bits (j - 8) next ∷ masked (j - 8 - 8) rest
two_masked b next rest byte next_byte =
    let high : (j : ℕ)
        → j < 4
        → bit_or (kept_bits (j + 1) next) (shift_right (digit (j + 4) b next) (8 - (j + 4)))
          ≡ kept_bits 0 next =
      λ j h.
        ap (bit_or (kept_bits (j + 1) next)) (digit-high b next byte j h)
        ∙ continued_byte (j + 1) next (omega arith) next_byte
        ∙ omega arith in
    positions
      (λ j.
        (if ltb 3 j
          then kept_bits j b
            ∷ bit_or (kept_bits (j + 5 - 8) next) (shift_right (digit j b next) (8 - j))
            ∷ masked (j + 5 - 8 - 8) rest
          else kept_bits j b ∷ kept_bits (j + 5 - 8) next ∷ masked (j + 5 - 8 - 8) rest)
        ≡ kept_bits j b ∷ kept_bits (j - 8) next ∷ masked (j - 8 - 8) rest)
      refl refl refl refl (ap (λ v. kept_bits 4 b ∷ v ∷ masked 0 rest) (high 0 (omega arith)))
      (ap (λ v. kept_bits 5 b ∷ v ∷ masked 0 rest) (high 1 (omega arith)))
      (ap (λ v. kept_bits 6 b ∷ v ∷ masked 0 rest) (high 2 (omega arith)))
      (ap (λ v. kept_bits 7 b ∷ v ∷ masked 0 rest) (high 3 (omega arith)))

-- A digit is written in the first byte.
pub write_first :
    (b : ℕ) (rest : Text)
    → All (λ c. c < 256) (b ∷ rest)
    → (j : ℕ) → j < 8
    → write_digit (digit_from 0 j (b ∷ rest)) 0 j (masked (j + 5) (b ∷ rest)) ≡ masked j (b ∷ rest)
unfolding masked digit
write_first b [] (byte, _) j h =
    ap (λ d. bit_or (kept_bits (j + 5) b) (shift_left d j) ∷ []) (digit_from-last j b)
    ∙ ap (λ v. v ∷ []) (merged_byte j b h byte)
write_first b (next ∷ rest) (byte, (next_byte, bytes)) j h =
    let out = masked (j + 5) (b ∷ next ∷ rest) in
    let later = masked (j + 5 - 8 - 8) rest in
    let second = kept_bits (j + 5 - 8) next in
    ap (λ d. write_digit d 0 j out) (digit_from-two j b next rest h byte)
    ∙ two_bytes (digit j b next) j (kept_bits (j + 5) b) second later
    ∙ ap
        (λ v.
          if ltb 3 j
          then v ∷ bit_or second (shift_right (digit j b next) (8 - j)) ∷ later
          else v ∷ second ∷ later)
        (ap (bit_or (kept_bits (j + 5) b)) (digit-low b next byte j h) ∙ merged_byte j b h byte)
    ∙ two_masked b next rest byte next_byte j h
