-- ===== src/Promotions/Conversions.antt =====
-- The conversion to unsigned int of ProperMachine/src/promotions.c, and unsigned arithmetic.
use low_level.Prelude.{ℕ, ◌-◌, ◌^◌, ◌<◌, ◌≡◌, ◌&&◌, arith}
use low_level.Prelude.Int.{ℤ, pos, negsuc, ◌+ℤ◌, ◌≤ℤ◌, ◌<ℤ◌, ltb_ℤ, leb_ℤ}
use low_level.Promotions.{to_unsigned, add_unsigned, lt_mixed}

-- Converting a sum of ints gives the unsigned sum of the converted ints, which wraps around.
pub to_unsigned-add :
    (a b : ℤ) → to_unsigned (a +ℤ b) ≡ add_unsigned (to_unsigned a) (to_unsigned b)
unfolding to_unsigned add_unsigned ◌+ℤ◌
to_unsigned-add (pos a) (pos b) = ground arith
to_unsigned-add (pos a) (negsuc b) = ground arith
to_unsigned-add (negsuc a) (pos b) = ground arith
to_unsigned-add (negsuc a) (negsuc b) = ground arith

-- An int is less than an unsigned int of at most INT_MAX exactly if it is not negative and less
-- as a number: a negative one never is.
pub lt_mixed_lem :
    (a : ℤ) (b : ℕ)
    → negsuc (2 ^ 31 - 1) ≤ℤ a
    → a <ℤ pos (2 ^ 31)
    → b < 2 ^ 31
    → lt_mixed a b ≡ (leb_ℤ (pos 0) a && ltb_ℤ a (pos b))
unfolding lt_mixed to_unsigned
lt_mixed_lem (pos a) b low high small = ground arith
lt_mixed_lem (negsuc a) b low high small = ground arith
