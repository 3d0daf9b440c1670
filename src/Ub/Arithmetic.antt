-- ===== src/Ub/Arithmetic.antt =====
-- The checked operations of ProperC/src/ub.c against exact integer arithmetic.
use native.Mathlib.Nat.{le_trans, mul-le-mul}
use low_level.Prelude.{
  ℕ, suc, ◌⊎◌, inl, inr, ◌*◌, ◌^◌, ◌≤◌, ◌≡◌, true, false, ◌||◌, some, arith, if◌then◌else◌,
}
use low_level.Prelude.Int.{ℤ, pos, negsuc, ◌+ℤ◌, ◌-ℤ◌, ◌*ℤ◌, ◌≤ℤ◌, ltb_ℤ}
use low_level.Ub.{
  int32_max, int32_min, mul_i64, Checked, checked, checked_add_i32, checked_mul_i32,
  avg_no_overflow, half,
}

abbrev pub IsInt32 : ℤ → Type 0
IsInt32 a = (int32_min ≤ℤ a) × (a ≤ℤ int32_max)

-- What ub.h asks for: the exact value if it is an `int32_t`, and otherwise `*out` as it was.
abbrev pub exact : ℤ → ℤ → Checked
exact value out =
    if ltb_ℤ value int32_min || ltb_ℤ int32_max value then checked false out else checked true value

-- For all `int32_t` arguments `checked_add_i32` overflows nowhere on the way, returns true with
-- the sum if that is an `int32_t`, and otherwise returns false and leaves `*out` as it was.
pub checked_add_i32-exact :
    (a b out : ℤ) → IsInt32 a → IsInt32 b → checked_add_i32 a b out ≡ some (exact (a +ℤ b) out)
unfolding checked_add_i32 ◌+ℤ◌ ◌-ℤ◌
checked_add_i32-exact (pos a) (pos b) out ha hb = ground arith
checked_add_i32-exact (pos a) (negsuc b) out ha hb = ground arith
checked_add_i32-exact (negsuc a) (pos b) out ha hb = ground arith
checked_add_i32-exact (negsuc a) (negsuc b) out ha hb = ground arith

-- Below 2 ^ 31 in size, two factors have a product of at most 2 ^ 62.
product_bound : (x y : ℕ) → x ≤ 2 ^ 31 → y ≤ 2 ^ 31 → x * y ≤ 2 ^ 62
product_bound x y hx hy = le_trans (mul-le-mul hx hy) (omega arith)

mul_i64-some : (a b : ℤ) → IsInt32 a → IsInt32 b → mul_i64 a b ≡ some (a *ℤ b)
unfolding mul_i64 ◌*ℤ◌
mul_i64-some (pos a) (pos b) ha hb = ground (arith, product_bound a b (omega arith) (omega arith))
mul_i64-some (pos a) (negsuc b) ha hb =
    ground (arith, product_bound a (suc b) (omega arith) (omega arith))
mul_i64-some (negsuc a) (pos b) ha hb =
    ground (arith, product_bound (suc a) b (omega arith) (omega arith))
mul_i64-some (negsuc a) (negsuc b) ha hb =
    ground (arith, product_bound (suc a) (suc b) (omega arith) (omega arith))

-- For all `int32_t` arguments `checked_mul_i32` overflows nowhere on the way, returns true with
-- the product if that is an `int32_t`, and otherwise returns false and leaves `*out` as it was.
pub checked_mul_i32-exact :
    (a b out : ℤ) → IsInt32 a → IsInt32 b → checked_mul_i32 a b out ≡ some (exact (a *ℤ b) out)
unfolding checked_mul_i32
checked_mul_i32-exact a b out ha hb = rw (mul_i64-some a b ha hb)

-- `m` is half of `s`, rounded toward zero.
abbrev pub TruncatedHalf : ℤ → ℤ → Type 0
TruncatedHalf s m =
    ((pos 0 ≤ℤ s) × (m +ℤ m ≤ℤ s) × (s ≤ℤ m +ℤ m +ℤ pos 1))
    ⊎ ((s ≤ℤ pos 0) × (s ≤ℤ m +ℤ m) × (m +ℤ m ≤ℤ s +ℤ pos 1))

half-TruncatedHalf : (s : ℤ) → TruncatedHalf s (half s)
unfolding half ◌+ℤ◌
half-TruncatedHalf (pos n) = inl (ground arith, ground arith, ground arith)
half-TruncatedHalf (negsuc n) = inr (ground arith, ground arith, ground arith)

avg_no_overflow-half :
    (a b : ℤ)
    → IsInt32 a
    → IsInt32 b
    → (avg_no_overflow a b ≡ some (half (a +ℤ b))) × IsInt32 (half (a +ℤ b))
unfolding avg_no_overflow ◌+ℤ◌
avg_no_overflow-half (pos a) (pos b) ha hb = (ground arith, (ground arith, ground arith))
avg_no_overflow-half (pos a) (negsuc b) ha hb = (ground arith, (ground arith, ground arith))
avg_no_overflow-half (negsuc a) (pos b) ha hb = (ground arith, (ground arith, ground arith))
avg_no_overflow-half (negsuc a) (negsuc b) ha hb = (ground arith, (ground arith, ground arith))

-- For all `int32_t` arguments `avg_no_overflow` overflows nowhere, and returns an `int32_t`: half
-- of their exact sum, rounded toward zero.
pub avg_no_overflow-TruncatedHalf :
    (a b : ℤ)
    → IsInt32 a
    → IsInt32 b
    → (m : ℤ) × (avg_no_overflow a b ≡ some m) × IsInt32 m × TruncatedHalf (a +ℤ b) m
avg_no_overflow-TruncatedHalf a b ha hb =
    let (returns, range) = avg_no_overflow-half a b ha hb in
    (half (a +ℤ b), returns, range, half-TruncatedHalf (a +ℤ b))
