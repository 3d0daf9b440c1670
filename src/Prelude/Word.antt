-- ===== src/Prelude/Word.antt =====
-- Words of 8 and 32 bits as native numbers, and the laws of `&`, `|` and `^` at variables: each
-- operation is known by its lowest binary digit and its value on the halves.
use Prim.Native.Nat.{digits, bitwise, bit_and-bitwise, bit_or-bitwise, bit_xor-bitwise, differ}
use native.Mathlib.Nat.{pow-suc, one-le-pow}
use low_level.Prelude.{
  ℕ, zero, suc, ◌+◌, ◌-◌, ◌*◌, ◌/◌, ◌%◌, ◌^◌, ◌≤◌, ◌<◌, min, max, ◌≡◌, refl, ap, ap₂, ◌∙◌, arith,
  bit_and, bit_or, bit_xor,
}

-- The casts `(uint8_t)` and `(uint32_t)`.
abbrev pub u8 : ℕ → ℕ
u8 n = n % 2 ^ 8

abbrev pub u32 : ℕ → ℕ
u32 n = n % 2 ^ 32

-- `x << k` on the mathematical value; the width of the type cuts it off afterwards.
infixl 75 ◌<<◌ ◌>>◌
abbrev pub ◌<<◌ : ℕ → ℕ → ℕ
x << k = x * 2 ^ k

abbrev pub ◌>>◌ : ℕ → ℕ → ℕ
x >> k = x / 2 ^ k

-- How the native operations unfold: fuel beyond the first number changes nothing.
module _ (z : ℕ → ℕ) (f : ℕ → ℕ → ℕ) where
  more_fuel : (m n a b : ℕ) → a ≤ m → a ≤ n → digits z f m a b ≡ digits z f n a b
  more_fuel zero zero a b h k = refl
  more_fuel zero (suc n) zero b h k = refl
  more_fuel zero (suc n) (suc a) b h k = elim h [ ]
  more_fuel (suc m) zero zero b h k = refl
  more_fuel (suc m) zero (suc a) b h k = elim k [ ]
  more_fuel (suc m) (suc n) zero b h k = refl
  more_fuel (suc m) (suc n) (suc a) b h k =
      ap (λ (t : ℕ). t * 2 + f (suc a % 2) (b % 2))
        (more_fuel m n (suc a / 2) (b / 2) (omega arith) (omega arith))

  bitwise_halves :
      (a b : ℕ)
      → bitwise z f (suc a) b ≡ bitwise z f (suc a / 2) (b / 2) * 2 + f (suc a % 2) (b % 2)
  bitwise_halves a b =
      ap (λ (t : ℕ). t * 2 + f (suc a % 2) (b % 2))
        (more_fuel a (suc a / 2) (suc a / 2) (b / 2) (omega arith) (omega arith))

pub bit_and_halves : (a b : ℕ) → bit_and a b ≡ bit_and (a / 2) (b / 2) * 2 + min (a % 2) (b % 2)
bit_and_halves zero b = omega (arith, bit_and-bitwise 0 b, bit_and-bitwise 0 (b / 2))
bit_and_halves (suc a) b = simp bit_and-bitwise (bitwise_halves (λ _. 0) min a b)

pub bit_or_halves : (a b : ℕ) → bit_or a b ≡ bit_or (a / 2) (b / 2) * 2 + max (a % 2) (b % 2)
bit_or_halves zero b = omega (arith, bit_or-bitwise 0 b, bit_or-bitwise 0 (b / 2))
bit_or_halves (suc a) b = simp bit_or-bitwise (bitwise_halves (λ y. y) max a b)

differ-digits : (p q : ℕ) → p < 2 → q < 2 → differ p q ≡ (p + q) % 2
differ-digits zero q h k = omega arith
differ-digits (suc zero) zero h k = refl
differ-digits (suc zero) (suc zero) h k = refl
differ-digits (suc zero) (suc (suc q)) h k = absurd (omega arith)
differ-digits (suc (suc p)) q h k = absurd (omega arith)

pub bit_xor_halves : (a b : ℕ) → bit_xor a b ≡ bit_xor (a / 2) (b / 2) * 2 + (a % 2 + b % 2) % 2
bit_xor_halves zero b = omega (arith, bit_xor-bitwise 0 b, bit_xor-bitwise 0 (b / 2))
bit_xor_halves (suc a) b = omega (
  arith,
  bit_xor-bitwise (suc a) b,
  bit_xor-bitwise (suc a / 2) (b / 2),
  bitwise_halves (λ y. y) differ a b,
  differ-digits (suc a % 2) (b % 2) (omega arith) (omega arith),
)

-- Only equal numbers cancel out.
pub bit_xor-eq-zero : (n a b : ℕ) → a ≤ n → bit_xor a b ≡ 0 → a ≡ b
bit_xor-eq-zero n zero b h e = omega (arith, bit_xor-bitwise 0 b)
bit_xor-eq-zero zero (suc a) b h e = elim h [ ]
bit_xor-eq-zero (suc n) (suc a) b h e =
    let split = bit_xor_halves (suc a) b in
    omega (arith, split, bit_xor-eq-zero n (suc a / 2) (b / 2) (omega arith) (omega (arith, split)))

pub bit_xor_bound : (k a b : ℕ) → a < 2 ^ k → b < 2 ^ k → bit_xor a b < 2 ^ k
bit_xor_bound zero zero zero h h' = omega arith
bit_xor_bound zero zero (suc b) h h' = absurd (omega arith)
bit_xor_bound zero (suc a) b h h' = absurd (omega arith)
bit_xor_bound (suc k) a b h h' = omega (
  arith,
  pow-suc 2 k,
  bit_xor_halves a b,
  bit_xor_bound k (a / 2) (b / 2) (omega (arith, pow-suc 2 k)) (omega (arith, pow-suc 2 k)),
)

pub bit_and-zero : (n a : ℕ) → a ≤ n → bit_and a 0 ≡ 0
bit_and-zero n zero h = refl
bit_and-zero zero (suc a) h = elim h [ ]
bit_and-zero (suc n) (suc a) h =
    omega (arith, bit_and_halves (suc a) 0, bit_and-zero n (suc a / 2) (omega arith))

pub bit_or-zero : (n a : ℕ) → a ≤ n → bit_or a 0 ≡ a
bit_or-zero n zero h = refl
bit_or-zero zero (suc a) h = elim h [ ]
bit_or-zero (suc n) (suc a) h =
    omega (arith, bit_or_halves (suc a) 0, bit_or-zero n (suc a / 2) (omega arith))

pub zero-bit_or : (b : ℕ) → bit_or 0 b ≡ b
zero-bit_or b = bit_or-bitwise 0 b

pub bit_or_comm : (n a b : ℕ) → a ≤ n → bit_or a b ≡ bit_or b a
bit_or_comm n zero b h = omega (arith, bit_or-bitwise 0 b, bit_or-zero b b (omega arith))
bit_or_comm zero (suc a) b h = elim h [ ]
bit_or_comm (suc n) (suc a) b h = omega (
  arith,
  bit_or_halves (suc a) b,
  bit_or_halves b (suc a),
  bit_or_comm n (suc a / 2) (b / 2) (omega arith),
)

-- `x & x` is `x`.
pub bit_and_self : (n a : ℕ) → a ≤ n → bit_and a a ≡ a
bit_and_self n zero h = refl
bit_and_self zero (suc a) h = elim h [ ]
bit_and_self (suc n) (suc a) h =
    omega (arith, bit_and_halves (suc a) (suc a), bit_and_self n (suc a / 2) (omega arith))

mul-pow-suc : (q k : ℕ) → q * 2 ^ suc k ≡ 2 * (q * 2 ^ k)
mul-pow-suc q k = omega (arith, ap (λ (t : ℕ). q * t) (pow-suc 2 k))

-- Fields that do not overlap add up under `|`.
pub bit_or-eq-add : (k q r : ℕ) → r < 2 ^ k → bit_or (q * 2 ^ k) r ≡ q * 2 ^ k + r
bit_or-eq-add zero q r h = ground (arith, bit_or-zero (q * 1) (q * 1) (omega arith))
bit_or-eq-add (suc k) q r h =
    let double : q * 2 ^ suc k ≡ 2 * (q * 2 ^ k) = mul-pow-suc q k in
    omega (
      arith,
      double,
      pow-suc 2 k,
      bit_or_halves (q * 2 ^ suc k) r,
      ap (λ t. bit_or t (r / 2)) (half_double double),
      bit_or-eq-add k q (r / 2) (omega (arith, pow-suc 2 k)),
    )
  where
    half_double : {m n : ℕ} → m ≡ 2 * n → m / 2 ≡ n
    half_double e = omega arith

-- The same with the high field on the right.
pub bit_or-add_high : (k q r : ℕ) → r < 2 ^ k → bit_or r (q * 2 ^ k) ≡ r + q * 2 ^ k
bit_or-add_high k q r h =
    omega (arith, bit_or_comm r r (q * 2 ^ k) (omega arith), bit_or-eq-add k q r h)

bit_and_low : (k q r : ℕ) → r < 2 ^ k → bit_and (q * 2 ^ k + r) (2 ^ k - 1) ≡ r
bit_and_low zero q r h = ground (arith, bit_and-zero (q * 1 + r) (q * 1 + r) (omega arith))
bit_and_low (suc k) q r h =
    let double : q * 2 ^ suc k ≡ 2 * (q * 2 ^ k) = mul-pow-suc q k in
    let ones : (2 ^ suc k - 1) / 2 ≡ 2 ^ k - 1 = omega (arith, pow-suc 2 k, one-le-pow k 2) in
    let half : (q * 2 ^ suc k + r) / 2 ≡ q * 2 ^ k + r / 2 = omega arith in
    omega (
      arith,
      double,
      pow-suc 2 k,
      one-le-pow k 2,
      bit_and_halves (q * 2 ^ suc k + r) (2 ^ suc k - 1),
      ap₂ bit_and half ones,
      bit_and_low k q (r / 2) (omega (arith, pow-suc 2 k)),
    )

-- A mask of `k` ones is a remainder.
pub bit_and_mask : (k a : ℕ) → bit_and a (2 ^ k - 1) ≡ a % 2 ^ k
bit_and_mask k a = ground (arith, one-le-pow k 2, bit_and_low k (a / 2 ^ k) (a % 2 ^ k))

-- One step of building a word from its fields, the next field above the word so far ...
pub bit_or-high_step :
    {t r s : ℕ} (k q : ℕ)
    → t ≡ r
    → r < 2 ^ k
    → q * 2 ^ k < 2 ^ 32
    → r + q * 2 ^ k ≡ s
    → bit_or t (u32 (q << k)) ≡ s
bit_or-high_step {t} {r} k q e fits bound sum =
    let cast : u32 (q << k) ≡ q * 2 ^ k = omega arith in
    ap₂ bit_or e cast ∙ bit_or-add_high k q r fits ∙ sum

-- ... or the next field below the fields so far.
pub bit_or-low_step :
    {t u s : ℕ} (k q r : ℕ) → t ≡ q * 2 ^ k → u ≡ r → r < 2 ^ k → q * 2 ^ k + r ≡ s → bit_or t u ≡ s
bit_or-low_step k q r e e' fits sum = ap₂ bit_or e e' ∙ bit_or-eq-add k q r fits ∙ sum
