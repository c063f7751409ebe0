-- ===== src/Decimal.antt =====
-- `strconv` on decimal integers: `FormatInt(x, 10)`, and `ParseInt(s, 10, 64)` where the program
-- drops its error and goes on with the value that comes with it.
pub mod RoundTrip
use aeroflare.Base.{
  ℕ, zero, suc, ◌+◌, ◌-◌, ◌*◌, ◌/◌, ◌%◌, ◌^◌, ◌≤◌, ◌≡◌, refl, ◌||◌, [], ◌∷◌, ltb, if◌then◌else◌,
  ◌==◌, Text, codes, nat_eq,
}

-- Go's int64: `negsuc n` is -(n + 1).
pub data ℤ : Type 0 where
  pos : ℕ → ℤ
  negsuc : ℕ → ℤ

abbrev pub max_int64 : ℕ
max_int64 = 2 ^ 63 - 1

abbrev pub max_uint64 : ℕ
max_uint64 = 2 ^ 64 - 1

-- The range of int64.
abbrev pub IsInt64 : ℤ → Type 0
IsInt64 (pos n) = n ≤ max_int64
IsInt64 (negsuc n) = n ≤ max_int64

-- The digits of a positive number in front of those written; each round takes the last one.
digits : ℕ → ℕ → Text → Text
digits zero n out = out
digits (suc fuel) n out =
    let rest = digits fuel (n / 10) ((b'0' + n % 10) ∷ out) in if n == 0 then out else rest

unfoldable pub format_uint : ℕ → Text
unfolding digits
format_uint n = if n == 0 then b'0' ∷ [] else digits (suc n) n []

unfoldable pub format_int : ℤ → Text
unfolding format_uint
format_int (pos n) = format_uint n
format_int (negsuc n) = b'-' ∷ format_uint (n + 1)

-- `ParseUint`: the number, a byte that is no digit, or a number above the range, whichever is
-- met first.
pub data Scanned : Type 0 where
  number : ℕ → Scanned
  syntax_error range_error : Scanned

unfoldable pub scan_uint : Text → ℕ → Scanned
scan_uint [] n = number n
scan_uint (c ∷ s) n =
    let d = c - b'0' in
    let rest = scan_uint s (n * 10 + d) in
    if ltb c b'0' || ltb b'9' c
    then syntax_error
    else if ltb max_uint64 (n * 10 + d)
    then range_error
    else rest

parse_uint : Text → Scanned
unfolding scan_uint
parse_uint [] = syntax_error
parse_uint (c ∷ s) = scan_uint (c ∷ s) 0

positive : Scanned → ℤ
positive (number n) = if ltb max_int64 n then pos max_int64 else pos n
positive syntax_error = pos 0
positive range_error = pos max_int64

negative : Scanned → ℤ
negative (number zero) = pos 0
negative (number (suc n)) = if ltb max_int64 n then negsuc max_int64 else negsuc n
negative syntax_error = pos 0
negative range_error = negsuc max_int64

-- The value of `ParseInt(s, 10, 64)`, its error dropped: 0 on a syntax error, the nearest bound
-- out of range.
unfoldable pub parse_int : Text → ℤ
unfolding parse_uint positive negative
parse_int [] = pos 0
parse_int (c ∷ s) =
    if c == b'-'
    then negative (parse_uint s)
    else if c == b'+'
    then positive (parse_uint s)
    else positive (parse_uint (c ∷ s))

minus_42 : parse_int (format_int (negsuc 41)) ≡ negsuc 41
unfolding parse_int format_int
minus_42 = refl

clamped : parse_int (codes "9223372036854775808") ≡ pos max_int64
unfolding parse_int
clamped = refl

no_number : parse_int (codes "12x") ≡ pos 0
unfolding parse_int
no_number = refl
