-- ===== src/Bits/Examples.antt =====
-- Runs of the functions of ProperC/src/bits.c, and their theorems at words.
use low_level.Prelude.{◌%◌, ◌≡◌, ◌↔◌, refl, true, false, some, arith}
use low_level.Bits.{
  count_set_bits, is_power_of_two, set_bit, reverse_bits, clear_bit, toggle_bit,
  count_trailing_zeros,
}
use low_level.Bits.Count.{ones, count_set_bits-ones}
use low_level.Bits.Constants.{digit, TrailingZeros, digit-set_bit, count_trailing_zeros_iff}

runs :
    (count_set_bits 0xffff_ffff ≡ some 32)
    × (is_power_of_two 0x8000_0000 ≡ some true)
    × (is_power_of_two 0 ≡ some false)
unfolding is_power_of_two
runs = (refl, refl, refl)

-- bits.h asks for 0x8000_0000, 0xfe and 0xfe.
constants : (reverse_bits 1 ≡ 5) × (clear_bit 0xff 0 ≡ 5) × (toggle_bit 0xff 0 ≡ 5)
unfolding reverse_bits clear_bit toggle_bit
constants = (refl, refl, refl)

count_set_bits-ones_example : count_set_bits 0xb6 ≡ some (ones 32 0xb6)
count_set_bits-ones_example = count_set_bits-ones 0xb6 (omega arith)

digit-set_bit_test : digit (set_bit 0 4) 4 ≡ 0
digit-set_bit_test = digit-set_bit 0 4 (omega arith) (omega arith)

count_trailing_zeros_iff_test : TrailingZeros 8 (count_trailing_zeros 8) ↔ (8 % 64 ≡ 32)
count_trailing_zeros_iff_test = count_trailing_zeros_iff 8
