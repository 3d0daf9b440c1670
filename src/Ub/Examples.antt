-- ===== src/Ub/Examples.antt =====
-- Runs of the functions of ProperC/src/ub.c, and their theorems at the ends of the ranges.
use low_level.Prelude.{◌*◌, ◌^◌, ◌%◌, ◌≡◌, refl, false, some, [], ◌∷◌, arith}
use low_level.Prelude.Int.{ℤ, pos, negsuc, ◌+ℤ◌, ◌-ℤ◌, ◌*ℤ◌}
use low_level.Structs.{u32_from_bytes_le}
use low_level.Ub.{
  int32_max, int32_min, checked, checked_add_i32, checked_mul_i32, avg_no_overflow, safe_lshift,
  load_u32_le,
}
use low_level.Ub.Arithmetic.{
  IsInt32, exact, TruncatedHalf, checked_add_i32-exact, checked_mul_i32-exact,
  avg_no_overflow-TruncatedHalf,
}
use low_level.Ub.Shifts.{safe_lshift_lem, load_u32_le-eq-from_bytes_le}

runs :
    (checked_add_i32 int32_max (pos 1) (pos 99) ≡ some (checked false (pos 99)))
    × (checked_mul_i32 int32_min (negsuc 0) (pos 99) ≡ some (checked false (pos 99)))
    × (avg_no_overflow int32_max int32_max ≡ some int32_max)
    × (safe_lshift 1 32 ≡ 0)
unfolding checked_add_i32 checked_mul_i32 avg_no_overflow safe_lshift ◌+ℤ◌ ◌-ℤ◌ ◌*ℤ◌
runs = (refl, refl, refl, refl)

checked_add_i32-exact_example :
    checked_add_i32 int32_min (negsuc 0) (pos 5) ≡ some (exact (int32_min +ℤ negsuc 0) (pos 5))
checked_add_i32-exact_example =
    checked_add_i32-exact int32_min (negsuc 0) (pos 5) (omega arith) (omega arith)

checked_mul_i32-exact_example :
    checked_mul_i32 (pos 65536) (negsuc 32767) (pos 5)
    ≡ some (exact (pos 65536 *ℤ negsuc 32767) (pos 5))
checked_mul_i32-exact_example =
    checked_mul_i32-exact (pos 65536) (negsuc 32767) (pos 5) (omega arith) (omega arith)

avg_no_overflow-TruncatedHalf_example :
    (m : ℤ) × (avg_no_overflow int32_min (pos 3) ≡ some m)
    × IsInt32 m
    × TruncatedHalf (int32_min +ℤ pos 3) m
avg_no_overflow-TruncatedHalf_example =
    avg_no_overflow-TruncatedHalf int32_min (pos 3) (omega arith) (omega arith)

safe_lshift_lem_test : safe_lshift 3 31 ≡ 3 * 2 ^ 31 % 2 ^ 32
safe_lshift_lem_test = safe_lshift_lem 3 31

load_u32_le-eq-from_bytes_le_example :
    load_u32_le (1 ∷ 2 ∷ 3 ∷ 4 ∷ 5 ∷ []) ≡ u32_from_bytes_le (1 ∷ 2 ∷ 3 ∷ 4 ∷ [])
load_u32_le-eq-from_bytes_le_example = load_u32_le-eq-from_bytes_le 1 2 3 4 (5 ∷ [])
