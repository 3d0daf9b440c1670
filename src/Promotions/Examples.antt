-- ===== src/Promotions/Examples.antt =====
-- The values that ProperMachine/src/promotions.c asks for, and its theorems at concrete values.
use low_level.Prelude.{◌≤◌, ◌<◌, ◌≡◌, refl, ◌&&◌, arith}
use low_level.Prelude.Int.{pos, negsuc, ◌+ℤ◌, ◌-ℤ◌, ◌*ℤ◌, ltb_ℤ, leb_ℤ}
use low_level.Promotions.{
  to_unsigned, add_unsigned, sub_unsigned, lt_mixed, quot, rem, magnitude, neg1_lt_1u,
  sizeof_char_literal, unsigned_wrap_is_uintmax, neg7_div_2, neg7_mod_2, uchar_300,
  sizeof_short_plus_short, a_plus_1, sizeof_minus_5_gt_0, shl31_as_ll_is_2p31, neg1_plus_1u_is_zero,
  digit_7_minus_0,
}
use low_level.Promotions.Conversions.{to_unsigned-add, lt_mixed_lem}
use low_level.Promotions.Division.{quot-rem_lem}

answers :
    (neg1_lt_1u ≡ pos 0)
    × (sizeof_char_literal ≡ 4)
    × (unsigned_wrap_is_uintmax ≡ pos 1)
    × (neg7_div_2 ≡ negsuc 2)
    × (neg7_mod_2 ≡ negsuc 0)
    × (uchar_300 ≡ 44)
    × (sizeof_short_plus_short ≡ 4)
    × (a_plus_1 ≡ pos 66)
unfolding neg1_lt_1u sizeof_char_literal unsigned_wrap_is_uintmax neg7_div_2 neg7_mod_2 uchar_300
    sizeof_short_plus_short a_plus_1 lt_mixed to_unsigned sub_unsigned quot rem ◌+ℤ◌
answers = (refl, refl, refl, refl, refl, refl, refl, refl)

more_answers :
    (sizeof_minus_5_gt_0 ≡ pos 1)
    × (shl31_as_ll_is_2p31 ≡ pos 1)
    × (neg1_plus_1u_is_zero ≡ pos 1)
    × (digit_7_minus_0 48 ≡ pos 7)
unfolding sizeof_minus_5_gt_0 shl31_as_ll_is_2p31 neg1_plus_1u_is_zero digit_7_minus_0 add_unsigned
    to_unsigned ◌-ℤ◌
more_answers = (refl, refl, refl, refl)

to_unsigned-add_test :
    to_unsigned (negsuc 0 +ℤ pos 1) ≡ add_unsigned (to_unsigned (negsuc 0)) (to_unsigned (pos 1))
to_unsigned-add_test = to_unsigned-add (negsuc 0) (pos 1)

lt_mixed_lem_test : lt_mixed (negsuc 0) 1 ≡ (leb_ℤ (pos 0) (negsuc 0) && ltb_ℤ (negsuc 0) (pos 1))
lt_mixed_lem_test = lt_mixed_lem (negsuc 0) 1 (omega arith) (omega arith) (omega arith)

quot-rem_lem_test :
    (quot (negsuc 6) (pos 2) *ℤ pos 2 +ℤ rem (negsuc 6) (pos 2) ≡ negsuc 6)
    × (magnitude (rem (negsuc 6) (pos 2)) < magnitude (pos 2))
    × (magnitude (quot (negsuc 6) (pos 2) *ℤ pos 2) ≤ magnitude (negsuc 6))
quot-rem_lem_test = quot-rem_lem (negsuc 6) (pos 2) (omega arith)
