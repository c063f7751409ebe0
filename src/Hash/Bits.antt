-- ===== src/Hash/Bits.antt =====
-- The operations on the bits of bytes that pkg/prepare/hash/hash.go uses, as arithmetic.
use Prim.Native.Nat.{bit_and, bit_or, digits, max, min, bit_and-bitwise, bit_or-bitwise}
use aeroflare.Base.{
  ℕ, zero, suc, ◌+◌, ◌-◌, ◌*◌, ◌/◌, ◌%◌, ◌^◌, ◌≤◌, ◌<◌, ◌≡◌, refl, ap, ◌∙◌, subst, arith, nat_eq,
  text_eq,
}
use aeroflare.Hash.{shift_left, shift_right}

half_odd : (m : ℕ) → (m * 2 + 1) / 2 ≡ m
half_odd m = omega arith

min_bit : (a m : ℕ) → min (a % 2) ((m * 2 + 1) % 2) ≡ a % 2
min_bit a m = omega arith

-- A mask of the low bits is a remainder.
Masks : ℕ → ℕ → Type 0
Masks mask p = (n a : ℕ) → a ≤ n → digits (λ b. 0) min n a mask ≡ a % p

Masks-one : Masks 0 1
unfolding Masks
Masks-one zero zero h = refl
Masks-one zero (suc a) h = absurd (omega arith)
Masks-one (suc n) zero h = refl
Masks-one (suc n) (suc a) h = omega (arith, Masks-one n (suc a / 2) (omega arith))

Masks-double :
    (mask p q : ℕ)
    → ((a : ℕ) → a / 2 % p * 2 + a % 2 ≡ a % q)
    → Masks mask p
    → Masks (mask * 2 + 1) q
unfolding Masks
Masks-double mask p q e h zero zero le = omega (arith, e 0, h 0 0 le)
Masks-double mask p q e h zero (suc a) le = absurd (omega arith)
Masks-double mask p q e h (suc n) zero le = omega (arith, e 0, h 0 0 (omega arith))
Masks-double mask p q e h (suc n) (suc a) le =
    let low = h n (suc a / 2) (omega arith) in
    ap (λ m. digits (λ b. 0) min n (suc a / 2) m * 2 + min (suc a % 2) ((mask * 2 + 1) % 2))
      (half_odd mask)
    ∙ ap (λ v. v * 2 + min (suc a % 2) ((mask * 2 + 1) % 2)) low
    ∙ ap (λ b. suc a / 2 % p * 2 + b) (min_bit (suc a) mask)
    ∙ e (suc a)

double_product : (c p : ℕ) → c * (p + p) ≡ c * p + c * p
double_product c p = grind arith

half_double : (q : ℕ) → (q + q) / 2 ≡ q
half_double q = omega arith

max_bit : (a q : ℕ) → max (a % 2) ((q + q) % 2) ≡ a % 2
max_bit a q = omega arith

-- The bits of two numbers that have none in common.
Adds : ℕ → Type 0
Adds p = (n a c : ℕ) → a ≤ n → a < p → digits (λ b. b) max n a (c * p) ≡ a + c * p

Adds-one : Adds 1
unfolding Adds
Adds-one zero zero c le below = omega arith
Adds-one (suc n) zero c le below = omega arith
Adds-one n (suc a) c le below = absurd (omega arith)

Adds-double : (p : ℕ) → Adds p → Adds (p + p)
unfolding Adds
Adds-double p h zero zero c le below = omega arith
Adds-double p h zero (suc a) c le below = absurd (omega arith)
Adds-double p h (suc n) zero c le below = omega arith
Adds-double p h (suc n) (suc a) c le below =
    let rest = h n (suc a / 2) c (omega arith) (omega arith) in
    ap (λ m. digits (λ b. b) max n (suc a / 2) (m / 2) * 2 + max (suc a % 2) (m % 2))
      (double_product c p)
    ∙ ap (λ m. digits (λ b. b) max n (suc a / 2) m * 2 + max (suc a % 2) ((c * p + c * p) % 2))
        (half_double (c * p))
    ∙ ap (λ v. v * 2 + max (suc a % 2) ((c * p + c * p) % 2)) rest
    ∙ ap (λ b. (suc a / 2 + c * p) * 2 + b) (max_bit (suc a) (c * p))
    ∙ omega (arith, double_product c p)

Masks-31 : Masks 0x1f 32
Masks-31 =
    Masks-double 15 16 32 (λ a. omega arith)
      (Masks-double 7 8 16 (λ a. omega arith)
        (Masks-double 3 4 8 (λ a. omega arith)
          (Masks-double 1 2 4 (λ a. omega arith)
            (Masks-double 0 1 2 (λ a. omega arith) Masks-one))))

-- The five low bits.
pub bit_and-mask : (a : ℕ) → bit_and a 0x1f ≡ a % 32
unfolding Masks
bit_and-mask a = (λ i. bit_and-bitwise a 0x1f i) ∙ Masks-31 a a (omega arith)

bit_or-Adds : (p : ℕ) → Adds p → (a c : ℕ) → a < p → bit_or a (c * p) ≡ a + c * p
unfolding Adds
bit_or-Adds p h a c below = (λ i. bit_or-bitwise a (c * p) i) ∙ h a a c (omega arith) below

pub bit_or-zero : (a : ℕ) → bit_or 0 a ≡ a
bit_or-zero a = λ i. bit_or-bitwise 0 a i

Adds-pow : (k : ℕ) → Adds (2 ^ k)
Adds-pow zero = Adds-one
Adds-pow (suc k) = subst Adds (omega arith) (Adds-double (2 ^ k) (Adds-pow k))

-- A property of the positions in a byte.
pub positions :
    (P : ℕ → Type 0) → P 0 → P 1 → P 2 → P 3 → P 4 → P 5 → P 6 → P 7 → (j : ℕ) → j < 8 → P j
positions P p0 p1 p2 p3 p4 p5 p6 p7 zero h = p0
positions P p0 p1 p2 p3 p4 p5 p6 p7 (suc zero) h = p1
positions P p0 p1 p2 p3 p4 p5 p6 p7 (suc (suc zero)) h = p2
positions P p0 p1 p2 p3 p4 p5 p6 p7 (suc (suc (suc zero))) h = p3
positions P p0 p1 p2 p3 p4 p5 p6 p7 (suc (suc (suc (suc zero)))) h = p4
positions P p0 p1 p2 p3 p4 p5 p6 p7 (suc (suc (suc (suc (suc zero))))) h = p5
positions P p0 p1 p2 p3 p4 p5 p6 p7 (suc (suc (suc (suc (suc (suc zero)))))) h = p6
positions P p0 p1 p2 p3 p4 p5 p6 p7 (suc (suc (suc (suc (suc (suc (suc zero))))))) h = p7
positions P p0 p1 p2 p3 p4 p5 p6 p7 (suc (suc (suc (suc (suc (suc (suc (suc j)))))))) h =
    absurd (omega arith)

shift_left-mod : (next j : ℕ) → j < 8 → shift_left next (8 - j) ≡ next % 2 ^ j * 2 ^ (8 - j)
shift_left-mod next =
    positions (λ j. shift_left next (8 - j) ≡ next % 2 ^ j * 2 ^ (8 - j)) (omega arith)
      (omega arith) (omega arith) (omega arith) (omega arith) (omega arith) (omega arith)
      (omega arith)

shift_right-below : (b : ℕ) → b < 256 → (j : ℕ) → j < 8 → shift_right b j < 2 ^ (8 - j)
shift_right-below b byte =
    positions (λ j. shift_right b j < 2 ^ (8 - j)) (omega arith) (omega arith) (omega arith)
      (omega arith) (omega arith) (omega arith) (omega arith) (omega arith)

-- What `EncodeBase32` takes of two bytes: the bits of the first from `j` on, and the bits of the
-- second below `j`.
pub bit_or-shifts :
    (j b next : ℕ)
    → j < 8
    → b < 256
    → bit_or (shift_right b j) (shift_left next (8 - j))
      ≡ shift_right b j + next % 2 ^ j * 2 ^ (8 - j)
bit_or-shifts j b next h byte =
    ap (bit_or (shift_right b j)) (shift_left-mod next j h)
    ∙ bit_or-Adds (2 ^ (8 - j)) (Adds-pow (8 - j)) (shift_right b j) (next % 2 ^ j)
        (shift_right-below b byte j h)
