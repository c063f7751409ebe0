-- ===== src/Hash/Bounds.antt =====
-- When `DecodeBase32` of pkg/prepare/hash/hash.go writes outside of its output.
use Prim.Native.Nat.{bit_or}
use native.Mathlib.Decide.{dec_lt}
use aeroflare.Base.{
  ℕ, zero, suc, ◌+◌, ◌-◌, ◌*◌, ◌/◌, ◌%◌, ◌≤◌, ◌<◌, ◌≡◌, refl, sym, ap, ◌∙◌, ◌≢◌, ◌↔◌, ◌⊎◌, inl, inr,
  [], ◌∷◌, arith, nat_beq_iff, ◌==◌, Bool-cases, if_true, if_false, leb-false, not_same, leb-true,
  length, Text, ◌>>=◌, Outcome, success, failure, nat_eq,
}
use aeroflare.Hash.{
  base32_index, byte_at, set_byte, shift_left, shift_right, or_byte, write_digit, decode_digit,
  decode_from, zeros, decode_base32, bad_character, index_out_of_range, DecodeError,
}

length-set_byte : (s : Text) (i v : ℕ) → length (set_byte s i v) ≡ length s
length-set_byte [] i v = refl
length-set_byte (c ∷ s) zero v = refl
length-set_byte (c ∷ s) (suc i) v = ap suc (length-set_byte s i v)

length-zeros : (n : ℕ) → length (zeros n) ≡ n
length-zeros zero = refl
length-zeros (suc n) = ap suc (length-zeros n)

length-write_digit : (digit i j : ℕ) (out : Text) → length (write_digit digit i j out) ≡ length out
length-write_digit digit i j out = ground (
  arith,
  length-set_byte out i (bit_or (byte_at out i) (shift_left digit j)),
  length-set_byte (or_byte i (shift_left digit j) out) (i + 1)
      (bit_or (byte_at (or_byte i (shift_left digit j) out) (i + 1)) (shift_right digit (8 - j))),
)

-- A round whose index is in range goes on with as many bytes, or ends at a bad character.
decode_digit-in_range :
    (digit m : ℕ) (out : Text)
    → m * 5 / 8 < length out
    → (decode_digit digit m out ≡ failure bad_character)
      ⊎ ((next : Text) × (decode_digit digit m out ≡ success next) × (length next ≡ length out))
unfolding decode_digit
decode_digit-in_range digit m out h = elim (Bool-cases (digit == 0xff)) [
  | inl bad ↦ inl (if_true _ _ _ bad)
  | inr good ↦ inr (
    write_digit digit (m * 5 / 8) (m * 5 % 8) out,
    if_false _ _ _ good ∙ if_false _ _ _ (leb-false (m * 5 / 8) (length out) h),
    length-write_digit digit (m * 5 / 8) (m * 5 % 8) out,
  )
]

-- A text whose first index is in range stays in range.
decode_from-in_range :
    (s out : Text)
    → length s * 5 ≤ length out * 8 + 4
    → decode_from s out ≢ failure index_out_of_range
unfolding decode_from
decode_from-in_range [] out h e = cc e
decode_from-in_range (c ∷ s) out h e =
    elim (decode_digit-in_range (base32_index c) (length s) out (omega arith)) [
      | inl bad ↦ cc (sym (ap (λ o. o >>= decode_from s) bad) ∙ e)
      | inr (next, goes, same) ↦
          decode_from-in_range s next (omega (arith, same))
            (sym (ap (λ o. o >>= decode_from s) goes) ∙ e)
    ]

module _ (digit : ℕ) (s : Text) (out : Text) (sized : length out ≡ (length s + 1) * 5 / 8) where
  first_round : Outcome DecodeError Text
  first_round = decode_digit digit (length s) out >>= decode_from s

  crash_of_equal :
      digit ≢ 0xff
      → length s * 5 / 8 ≡ (length s + 1) * 5 / 8
      → first_round ≡ failure index_out_of_range
  unfolding first_round decode_digit
  crash_of_equal good same =
      ap (λ o. o >>= decode_from s)
        (if_false _ _ _ (not_same digit 0xff good)
          ∙ if_true _ _ _ (leb-true (length out) (length s * 5 / 8) (omega (arith, sized, same))))

  good_of_crash : first_round ≡ failure index_out_of_range → digit ≢ 0xff
  unfolding first_round decode_digit
  good_of_crash e bad = cc (
      sym (
        ap (λ o. o >>= decode_from s)
          (if_true (digit == 0xff) (failure bad_character) _ ((nat_beq_iff digit 0xff).1 bad)))
      ∙ e)

  equal_of_crash :
      first_round ≡ failure index_out_of_range → length s * 5 / 8 ≡ (length s + 1) * 5 / 8
  unfolding first_round
  equal_of_crash e = elim (dec_lt (length s * 5 / 8) (length out)) [
    | yes below ↦ absurd (elim (decode_digit-in_range digit (length s) out below) [
      | inl bad ↦ cc (sym (ap (λ o. o >>= decode_from s) bad) ∙ e)
      | inr (next, goes, same) ↦
          decode_from-in_range s next (omega (arith, same))
            (sym (ap (λ o. o >>= decode_from s) goes) ∙ e)
    ])
    | no above ↦ omega (arith, sized)
  ]

-- `DecodeBase32` panics exactly when the first character is of the alphabet and its index, which
-- is the largest, is not below the length of the output.
pub decode_base32_crashes :
    (c : ℕ) (s : Text)
    → (decode_base32 (c ∷ s) ≡ failure index_out_of_range)
      ↔ ((base32_index c ≢ 0xff) × (length s * 5 / 8 ≡ (length s + 1) * 5 / 8))
unfolding decode_base32 decode_from first_round
decode_base32_crashes c s =
    let out = zeros (length (c ∷ s) * 5 / 8) in
    let sized : length out ≡ (length s + 1) * 5 / 8 = length-zeros _ ∙ omega arith in
    (
      λ e. (
        good_of_crash (base32_index c) s out sized e,
        equal_of_crash (base32_index c) s out sized e,
      ),
      λ h. crash_of_equal (base32_index c) s out sized h.0 h.1,
    )
