-- ===== src/Decimal/RoundTrip.antt =====
-- Every int64 is read back from its decimal print.
use native.Mathlib.Nat.{pow-suc}
use aeroflare.Base.{
  ℕ, zero, suc, ◌+◌, ◌/◌, ◌%◌, ◌^◌, ◌≤◌, ◌<◌, ◌≡◌, refl, ◌∙◌, ◌≢◌, inl, inr, [], ◌∷◌, arith, ◌==◌,
  Bool-cases, length, All, Text, nat_eq,
}
use aeroflare.Decimal.{
  ℤ, max_uint64, IsInt64, format_uint, format_int, scan_uint, parse_int, pos, negsuc, number,
  digits, parse_uint, positive, negative,
}

-- The last digit of `n` is read after the digits before it.
scan_last :
    (n : ℕ) (out : Text)
    → n ≤ max_uint64
    → scan_uint ((b'0' + n % 10) ∷ out) (n / 10) ≡ scan_uint out n
unfolding scan_uint
scan_last n out fits = ground arith

-- Reading the digits of `n` is reading on from `n`.
scan-digits :
    (fuel n : ℕ) (out : Text)
    → n < fuel
    → n ≤ max_uint64
    → scan_uint (digits fuel n out) 0 ≡ scan_uint out n
unfolding digits
scan-digits zero n out small fits = absurd (omega arith)
scan-digits (suc fuel) n out small fits =
    ground (arith, scan_last n out, scan-digits fuel (n / 10) ((b'0' + n % 10) ∷ out))

digits-ne-nil : (fuel n : ℕ) (out : Text) → out ≢ [] → digits fuel n out ≢ []
unfolding digits
digits-ne-nil zero n out h = h
digits-ne-nil (suc fuel) n out h =
    ground (arith, digits-ne-nil fuel (n / 10) ((b'0' + n % 10) ∷ out) (λ e. cc e))

parse_uint-scan : (s : Text) → s ≢ [] → parse_uint s ≡ scan_uint s 0
unfolding parse_uint
parse_uint-scan [] h = absurd (h refl)
parse_uint-scan (c ∷ s) h = refl

format_uint-ne-nil : (n : ℕ) → format_uint n ≢ []
unfolding format_uint digits
format_uint-ne-nil n = ground (arith, digits-ne-nil n (n / 10) ((b'0' + n % 10) ∷ []) (λ e. cc e))

parse_uint-format_uint : (n : ℕ) → n ≤ max_uint64 → parse_uint (format_uint n) ≡ number n
unfolding format_uint scan_uint
parse_uint-format_uint n fits =
    parse_uint-scan (format_uint n) (format_uint-ne-nil n)
    ∙ ground (arith, scan-digits (suc n) n [])

abbrev AtLeastZero : Text → Type 0
AtLeastZero = All (λ c. b'0' ≤ c)

digits-AtLeastZero : (fuel n : ℕ) (out : Text) → AtLeastZero out → AtLeastZero (digits fuel n out)
unfolding digits
digits-AtLeastZero zero n out h = h
digits-AtLeastZero (suc fuel) n out h = elim (Bool-cases (n == 0)) [
  | inl stop ↦ rw stop h
  | inr more ↦ rw more (digits-AtLeastZero fuel (n / 10) ((b'0' + n % 10) ∷ out) (omega arith, h))
]

format_uint-AtLeastZero : (n : ℕ) → AtLeastZero (format_uint n)
unfolding format_uint
format_uint-AtLeastZero n = elim (Bool-cases (n == 0)) [
  | inl zero_print ↦ rw zero_print (omega arith, tt)
  | inr more ↦ rw more (digits-AtLeastZero n (n / 10) ((b'0' + n % 10) ∷ []) (omega arith, tt))
]

-- A text that starts with no sign is read as an unsigned number.
parse_int_unsigned : (s : Text) → s ≢ [] → AtLeastZero s → parse_int s ≡ positive (parse_uint s)
unfolding parse_int
parse_int_unsigned [] ne h = absurd (ne refl)
parse_int_unsigned (c ∷ s) ne (h, _) = ground arith

-- What `FormatInt` writes, `ParseInt` reads, over the whole range of int64.
pub parse_int-format_int : (z : ℤ) → IsInt64 z → parse_int (format_int z) ≡ z
unfolding format_int positive
parse_int-format_int (pos n) fits =
    parse_int_unsigned (format_uint n) (format_uint-ne-nil n) (format_uint-AtLeastZero n)
    ∙ ground (arith, parse_uint-format_uint n)
parse_int-format_int (negsuc n) fits =
    unfold parse_int negative in ground (arith, parse_uint-format_uint (n + 1))

-- A print has at most 20 bytes.
digits-length :
    (k fuel n : ℕ) (out : Text) → n < 10 ^ k → length (digits fuel n out) ≤ k + length out
unfolding digits
digits-length k zero n out small = omega arith
digits-length zero (suc fuel) n out small = ground arith
digits-length (suc k) (suc fuel) n out small =
    let less : n / 10 < 10 ^ k = omega (arith, pow-suc 10 k) in
    let rest = digits-length k fuel (n / 10) ((b'0' + n % 10) ∷ out) less in ground (arith, rest)

format_uint-length : (n : ℕ) → n ≤ max_uint64 → length (format_uint n) ≤ 20
unfolding format_uint
format_uint-length n fits =
    let short = digits-length 20 (suc n) n [] (omega arith) in ground (arith, short)

pub format_int-length : (z : ℤ) → IsInt64 z → length (format_int z) ≤ 21
unfolding format_int
format_int-length (pos n) fits = omega (arith, format_uint-length n (omega arith))
format_int-length (negsuc n) fits = omega (arith, format_uint-length (n + 1) (omega arith))

AtLeastMinus_of_AtLeastZero : (s : Text) → AtLeastZero s → All (λ c. b'-' ≤ c) s
AtLeastMinus_of_AtLeastZero [] h = tt
AtLeastMinus_of_AtLeastZero (c ∷ s) (h, hs) = (omega arith, AtLeastMinus_of_AtLeastZero s hs)

-- A print holds no byte below the minus sign.
pub format_int-AtLeastMinus : (z : ℤ) → All (λ c. b'-' ≤ c) (format_int z)
unfolding format_int
format_int-AtLeastMinus (pos n) =
    AtLeastMinus_of_AtLeastZero (format_uint n) (format_uint-AtLeastZero n)
format_int-AtLeastMinus (negsuc n) = (
  omega arith,
  AtLeastMinus_of_AtLeastZero (format_uint (n + 1)) (format_uint-AtLeastZero (n + 1)),
)
