-- ===== src/Floats/Examples.antt =====
-- The theorems on ProperMachine/src/floats.h at concrete bit patterns.
use low_level.Prelude.{◌<◌, ◌≡◌, ◌↔◌, refl, true, false, arith}
use low_level.Floats.{nan_bits, bits_apart, IsFinite, mantissa, scaled}
use low_level.Floats.Order.{bits_apart-scaled, nan_bits_lem}

-- 1.0 has the bits 0x3f800000, the next float 0x3f800001; 0x7fc00000 is a NaN, 0x7f800000 infinity.
runs :
    (bits_apart 1065353216 1065353217 ≡ 1)
    × (nan_bits 2143289344 ≡ true)
    × (nan_bits 2139095040 ≡ false)
unfolding bits_apart nan_bits
runs = (refl, refl, refl)

bits_apart-scaled_test :
    ((scaled 1065353216 < scaled 1065353217) ↔ (1065353216 < 1065353217))
    × ((bits_apart 1065353216 1065353217 ≡ 0) ↔ (scaled 1065353216 ≡ scaled 1065353217))
bits_apart-scaled_test =
    bits_apart-scaled 1065353216 1065353217 (omega arith, omega arith) (omega arith, omega arith)
      refl

nan_bits_lem_test :
    (nan_bits 2143289344 ≡ true) ↔ ((¬ IsFinite 2143289344) × (0 < mantissa 2143289344))
nan_bits_lem_test = nan_bits_lem 2143289344 (omega arith)
