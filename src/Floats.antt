-- ===== src/Floats.antt =====
-- ProperMachine/src/floats.h: a float of IEEE 754 binary32 is a value of a type of which only its bit
-- patterns are known. The functions are the fields of a record, since their bodies are not written
-- yet; the constants of floats.c are not filled in, and not modelled.
pub mod Order
pub mod Examples
use low_level.Prelude.{
  ℕ, zero, suc, ◌+◌, ◌-◌, ◌*◌, ◌/◌, ◌%◌, ◌^◌, ◌<◌, ◌≡◌, Bool, true, false, ◌&&◌, ltb, leb, ◌==◌,
  if◌then◌else◌,
}

-- The layout: 1 sign, 8 exponent, 23 mantissa.
abbrev pub sign : ℕ → ℕ
sign bits = bits / 2 ^ 31

abbrev pub exponent : ℕ → ℕ
exponent bits = bits / 2 ^ 23 % 2 ^ 8

abbrev pub mantissa : ℕ → ℕ
mantissa bits = bits % 2 ^ 23

-- Exponent bits all 1 and mantissa nonzero.
unfoldable pub nan_bits : ℕ → Bool
nan_bits bits = exponent bits == 255 && ltb 0 (mantissa bits)

-- The absolute difference of the bit patterns.
unfoldable pub bits_apart : ℕ → ℕ → ℕ
bits_apart a b = if leb a b then b - a else a - b

abbrev pub IsFinite : ℕ → Type 0
IsFinite bits = (bits < 2 ^ 32) × (exponent bits < 255)

-- The magnitude of a value with these exponent and mantissa bits, times 2^149.
unfoldable pub value : ℕ → ℕ → ℕ
value zero m = m
value (suc e) m = (2 ^ 23 + m) * 2 ^ e

abbrev pub scaled : ℕ → ℕ
scaled bits = value (exponent bits) (mantissa bits)

-- The functions of the header, and what it says of them. A uint32_t is a number below 2^32.
pub record FloatsApi (Float : Type 0) : Type 0 where
  pub float_bits : Float → ℕ
  pub bits_float : ℕ → Float
  pub my_isnan : Float → Bool
  pub float_sign_bit : Float → ℕ
  pub ulp_diff : Float → Float → ℕ
  pub bits_bound : (f : Float) → float_bits f < 2 ^ 32
  pub bits_float_law : (f : Float) → bits_float (float_bits f) ≡ f
  pub float_bits_law : (bits : ℕ) → bits < 2 ^ 32 → float_bits (bits_float bits) ≡ bits
  pub isnan_law : (f : Float) → my_isnan f ≡ nan_bits (float_bits f)
  pub sign_bit_law : (f : Float) → float_sign_bit f ≡ sign (float_bits f)
  pub ulp_diff_law :
      (a b : Float)
      → IsFinite (float_bits a)
      → IsFinite (float_bits b)
      → float_sign_bit a ≡ float_sign_bit b
      → ulp_diff a b ≡ bits_apart (float_bits a) (float_bits b)
