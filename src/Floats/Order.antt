-- ===== src/Floats/Order.antt =====
-- The order of the magnitudes of floats is that of their bit patterns: for positive floats the order
-- of the floats, as ProperMachine/src/floats.h says, for negative ones its reverse.
use native.Mathlib.Nat.{pow-suc, mul-lt-mul_of_pos_right, mul-le-mul_left, mul-le-mul_right}
use low_level.Prelude.{
  ℕ, zero, suc, ◌+◌, ◌*◌, ◌^◌, ◌≤◌, ◌<◌, ◌≡◌, ◌↔◌, sym, ap, ◌∙◌, true, arith, dec_lt,
}
use low_level.Floats.{
  FloatsApi, sign, exponent, mantissa, nan_bits, bits_apart, IsFinite, value, scaled,
}

pow_pos : (n : ℕ) → 0 < 2 ^ n
pow_pos zero = omega arith
pow_pos (suc n) = omega (arith, pow-suc 2 n, pow_pos n)

pow_mono : (m n : ℕ) → m ≤ n → 2 ^ m ≤ 2 ^ n
pow_mono m zero h = let e : m ≡ 0 = omega arith in rw e (omega arith)
pow_mono m (suc n) h = elim (dec_lt n m) [
  | yes at_end ↦ let e : m ≡ suc n = omega arith in rw e (omega arith)
  | no before ↦ omega (arith, pow-suc 2 n, pow_mono m n (omega arith))
]

value_mantissa : (e m m' : ℕ) → m < m' → value e m < value e m'
unfolding value
value_mantissa zero m m' lt = lt
value_mantissa (suc e) m m' lt = mul-lt-mul_of_pos_right (omega arith) (pow_pos e)

value_exponent : (e e' m m' : ℕ) → e < e' → m < 2 ^ 23 → value e m < value e' m'
unfolding value
value_exponent e zero m m' lt small = absurd (omega arith)
value_exponent zero (suc e') m m' lt small =
    let least : (2 ^ 23 + m') * 1 ≤ (2 ^ 23 + m') * 2 ^ e' =
      mul-le-mul_left (2 ^ 23 + m') (pow_pos e') in
    omega (arith, least)
value_exponent (suc e) (suc e') m m' lt small =
    let below : (2 ^ 23 + m) * 2 ^ e < 2 ^ 24 * 2 ^ e =
      mul-lt-mul_of_pos_right (omega arith) (pow_pos e) in
    let least : 2 ^ 23 * 2 ^ e' ≤ (2 ^ 23 + m') * 2 ^ e' =
      mul-le-mul_right (2 ^ e') (omega arith) in
    let step : 2 ^ suc e ≤ 2 ^ e' = pow_mono (suc e) e' (omega arith) in
    omega (arith, below, least, step, pow-suc 2 e)

scaled_mono : (a b : ℕ) → IsFinite a → IsFinite b → sign a ≡ sign b → a < b → scaled a < scaled b
scaled_mono a b fa fb same lt = elim (dec_lt (exponent a) (exponent b)) [
  | yes up ↦ value_exponent (exponent a) (exponent b) (mantissa a) (mantissa b) up (omega arith)
  | no level ↦
      let e : exponent a ≡ exponent b = omega (arith, fa.0, fb.0) in
      let m : mantissa a < mantissa b = omega (arith, fa.0, fb.0, e) in
      rw e (value_mantissa (exponent b) (mantissa a) (mantissa b) m)
]

-- For finite floats of one sign the magnitudes are ordered as the bit patterns are, and bits_apart is
-- 0 exactly if the magnitudes are equal.
pub bits_apart-scaled :
    (a b : ℕ)
    → IsFinite a
    → IsFinite b
    → sign a ≡ sign b
    → ((scaled a < scaled b) ↔ (a < b)) × ((bits_apart a b ≡ 0) ↔ (scaled a ≡ scaled b))
unfolding bits_apart
bits_apart-scaled a b fa fb same = (
  (
    λ less. elim (dec_lt a b) [
      | yes lt ↦ lt
      | no above ↦ elim (dec_lt b a) [
        | yes gt ↦ absurd (omega (arith, scaled_mono b a fb fa (sym same) gt))
        | no level ↦ let e : a ≡ b = omega arith in absurd (omega (arith, ap (λ n. scaled n) e))
      ]
    ],
    scaled_mono a b fa fb same,
  ),
  (
    λ none_between. let e : a ≡ b = ground arith in ap (λ n. scaled n) e,
    λ equal. elim (dec_lt a b) [
      | yes lt ↦ absurd (omega (arith, scaled_mono a b fa fb same lt))
      | no above ↦ elim (dec_lt b a) [
        | yes gt ↦ absurd (omega (arith, scaled_mono b a fb fa (sym same) gt))
        | no level ↦ ground arith
      ]
    ],
  ),
)

-- A NaN is not finite, and what is neither finite nor a NaN has mantissa 0: an infinity.
pub nan_bits_lem :
    (bits : ℕ) → bits < 2 ^ 32 → (nan_bits bits ≡ true) ↔ ((¬ IsFinite bits) × (0 < mantissa bits))
unfolding nan_bits
nan_bits_lem bits small = (
  λ nan. (λ finite. ground (arith, nan, finite.1), ground (arith, nan)),
  λ (infinite, more).
      let all_ones : exponent bits ≡ 255 = elim (dec_lt (exponent bits) 255) [
        | yes lt ↦ absurd (infinite (small, lt))
        | no top ↦ omega arith
      ] in
      ground (arith, all_ones, more),
)

-- ulp_diff tells finite floats of one sign apart.
pub ulp_diff-eq :
    {Float : Type 0} (api : FloatsApi Float) (a b : Float)
    → IsFinite (api.float_bits a)
    → IsFinite (api.float_bits b)
    → api.float_sign_bit a ≡ api.float_sign_bit b
    → api.ulp_diff a b ≡ 0
    → a ≡ b
unfolding bits_apart
ulp_diff-eq api a b fa fb same none_between =
    let gap = sym (api.ulp_diff_law a b fa fb same) ∙ none_between in
    let e : api.float_bits a ≡ api.float_bits b = ground (arith, gap) in
    sym (api.bits_float_law a) ∙ ap api.bits_float e ∙ api.bits_float_law b
