-- ===== src/Ub.antt =====
-- ProperC/src/ub.c: arithmetic that stays clear of undefined behaviour. A signed integer is an
-- integer of ℤ, and an operation that leaves its type's range is `none`.
pub mod Arithmetic
pub mod Shifts
pub mod Examples
use low_level.Prelude.{
  ℕ, ◌+◌, ◌-◌, ◌*◌, ◌/◌, ◌^◌, Bool, true, false, ◌&&◌, ◌||◌, Option, none, some, List, bit_or, ltb,
  leb, if◌then◌else◌, get_elem?, ◌>>=◌,
}
use low_level.Prelude.Word.{u32, ◌<<◌}
use low_level.Prelude.Int.{ℤ, pos, negsuc, pos_part, neg_part, sub_ℕ, ◌+ℤ◌, ◌-ℤ◌, ◌*ℤ◌, ltb_ℤ}

abbrev pub int32_max : ℤ
int32_max = pos (2 ^ 31 - 1)

abbrev pub int32_min : ℤ
int32_min = negsuc (2 ^ 31 - 1)

abbrev pub int64_max : ℤ
int64_max = pos (2 ^ 63 - 1)

abbrev pub int64_min : ℤ
int64_min = negsuc (2 ^ 63 - 1)

-- A result within the range from `lo` to `hi`, or undefined behaviour. (Of the cast in
-- `avg_no_overflow`, whose result would be up to the compiler, the same is said.)
abbrev pub in_range : ℤ → ℤ → ℤ → Option ℤ
in_range lo hi x = if ltb_ℤ x lo || ltb_ℤ hi x then none else some x

-- `+` and `-` on `int32_t`, `+` and `*` on `int64_t`.
unfoldable pub add_i32 : ℤ → ℤ → Option ℤ
add_i32 a b = in_range int32_min int32_max (a +ℤ b)

unfoldable pub sub_i32 : ℤ → ℤ → Option ℤ
sub_i32 a b = in_range int32_min int32_max (a -ℤ b)

unfoldable pub add_i64 : ℤ → ℤ → Option ℤ
add_i64 a b = in_range int64_min int64_max (a +ℤ b)

unfoldable pub mul_i64 : ℤ → ℤ → Option ℤ
mul_i64 a b = in_range int64_min int64_max (a *ℤ b)

-- The value returned and the value of `*out` afterwards.
pub record Checked : Type 0 where
  pub ok : Bool
  pub out : ℤ

abbrev pub checked : Bool → ℤ → Checked
checked ok out = record { ok = ok; out = out }

-- `b > 0 && a > INT32_MAX - b`: the right side is computed only where the left holds.
too_large : ℤ → ℤ → Option Bool
unfolding sub_i32
too_large a b =
    if ltb_ℤ (pos 0) b then (do limit ← sub_i32 int32_max b; some (ltb_ℤ limit a)) else some false

-- `b < 0 && a < INT32_MIN - b`
too_small : ℤ → ℤ → Option Bool
unfolding sub_i32
too_small a b =
    if ltb_ℤ b (pos 0) then (do limit ← sub_i32 int32_min b; some (ltb_ℤ a limit)) else some false

pub checked_add_i32 : ℤ → ℤ → ℤ → Option Checked
unfolding add_i32 too_large too_small
checked_add_i32 a b out = do
  large ← too_large a b
  small ← if large then some false else too_small a b
  if large || small then some (checked false out) else do sum ← add_i32 a b; some (checked true sum)

-- The cast of `target` to `int32_t` keeps it, since the test has passed.
pub checked_mul_i32 : ℤ → ℤ → ℤ → Option Checked
unfolding mul_i64
checked_mul_i32 a b out = do
  target ← mul_i64 a b
  some (
      if ltb_ℤ target int32_min || ltb_ℤ int32_max target
      then checked false out
      else checked true target)

-- `/ 2` truncates toward zero.
unfoldable pub half : ℤ → ℤ
half (pos n) = pos (n / 2)
half (negsuc n) = sub_ℕ 0 ((n + 1) / 2)

pub avg_no_overflow : ℤ → ℤ → Option ℤ
unfolding add_i64 half
avg_no_overflow a b = do sum ← add_i64 a b; in_range int32_min int32_max (half sum)

pub safe_lshift : ℕ → ℕ → ℕ
safe_lshift x k = if leb 32 k then 0 else u32 (x << k)

pub load_u32_le : List ℕ → Option ℕ
load_u32_le p = do
  p₀ ← get_elem? p 0
  p₁ ← get_elem? p 1
  p₂ ← get_elem? p 2
  p₃ ← get_elem? p 3
  some (bit_or (bit_or (bit_or (u32 (p₀ << 0)) (u32 (p₁ << 8))) (u32 (p₂ << 16))) (u32 (p₃ << 24)))
