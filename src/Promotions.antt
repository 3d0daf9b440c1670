-- ===== src/Promotions.antt =====
-- ProperMachine/src/promotions.c: each of its constants is to hold the value of a C expression that
-- its comment asks for, but none is filled in. The expressions are modelled, by the conversions of
-- C: an unsigned int has 32 bits, a size_t 64. (int)3.99 and sizeof(i++) are not modelled.
pub mod Conversions
pub mod Division
pub mod Examples
use low_level.Prelude.{ℕ, suc, ◌+◌, ◌-◌, ◌/◌, ◌%◌, ◌^◌, Bool, true, false, ltb, ◌==◌, if◌then◌else◌}
use low_level.Prelude.Int.{ℤ, pos, negsuc, sub_ℕ, ◌+ℤ◌, ◌-ℤ◌, pos_part, neg_part}
use low_level.Prelude.Word.{u8, u32, ◌<<◌}

-- A comparison has the type int.
abbrev pub as_int : Bool → ℤ
as_int b = if b then pos 1 else pos 0

-- The conversion to unsigned int: reduction modulo UINT_MAX + 1.
unfoldable pub to_unsigned : ℤ → ℕ
to_unsigned (pos n) = u32 n
to_unsigned (negsuc n) = 2 ^ 32 - 1 - u32 n

abbrev pub uint_max : ℕ
uint_max = 2 ^ 32 - 1

unfoldable pub add_unsigned : ℕ → ℕ → ℕ
add_unsigned a b = u32 (a + b)

unfoldable pub sub_unsigned : ℕ → ℕ → ℕ
sub_unsigned a b = u32 (a + 2 ^ 32 - b)

-- `a < b` for an int `a` and an unsigned int `b`: the int is converted.
unfoldable pub lt_mixed : ℤ → ℕ → Bool
lt_mixed a b = ltb (to_unsigned a) b

abbrev pub magnitude : ℤ → ℕ
magnitude a = pos_part a + neg_part a

-- `a / b` rounds toward zero, and `a % b` has the sign of `a`.
unfoldable pub quot : ℤ → ℤ → ℤ
quot (pos a) (pos b) = pos (a / b)
quot (pos a) (negsuc b) = sub_ℕ 0 (a / suc b)
quot (negsuc a) (pos b) = sub_ℕ 0 (suc a / b)
quot (negsuc a) (negsuc b) = pos (suc a / suc b)

unfoldable pub rem : ℤ → ℤ → ℤ
rem (pos a) b = pos (a % magnitude b)
rem (negsuc a) b = sub_ℕ 0 (suc a % magnitude b)

pub data IntegerType : Type 0 where
  char_type : IntegerType
  short_type : IntegerType
  int_type : IntegerType

-- The sizes on the machine of the repository.
abbrev pub size_of : IntegerType → ℕ
size_of char_type = 1
size_of short_type = 2
size_of int_type = 4

-- The integer promotions: what is smaller than int becomes int.
abbrev pub promoted : IntegerType → IntegerType
promoted t = int_type

-- `sizeof x - n` in size_t.
abbrev pub sub_size : ℕ → ℕ → ℕ
sub_size a b = (a + 2 ^ 64 - b) % 2 ^ 64

unfoldable pub neg1_lt_1u : ℤ
neg1_lt_1u = as_int (lt_mixed (negsuc 0) 1)

-- A character literal has the type int.
unfoldable pub sizeof_char_literal : ℕ
sizeof_char_literal = size_of int_type

unfoldable pub unsigned_wrap_is_uintmax : ℤ
unsigned_wrap_is_uintmax = as_int (sub_unsigned 0 1 == uint_max)

unfoldable pub neg7_div_2 : ℤ
neg7_div_2 = quot (negsuc 6) (pos 2)

unfoldable pub neg7_mod_2 : ℤ
neg7_mod_2 = rem (negsuc 6) (pos 2)

unfoldable pub uchar_300 : ℕ
uchar_300 = u8 300

unfoldable pub sizeof_short_plus_short : ℕ
sizeof_short_plus_short = size_of (promoted short_type)

-- 'A' is 65 in ASCII.
unfoldable pub a_plus_1 : ℤ
a_plus_1 = pos 65 +ℤ pos 1

unfoldable pub sizeof_minus_5_gt_0 : ℤ
sizeof_minus_5_gt_0 = as_int (ltb 0 (sub_size (size_of int_type) 5))

-- The conversion of an unsigned int to long long keeps its value.
unfoldable pub shl31_as_ll_is_2p31 : ℤ
shl31_as_ll_is_2p31 = as_int (u32 (1 << 31) == 2147483648)

unfoldable pub neg1_plus_1u_is_zero : ℤ
neg1_plus_1u_is_zero = as_int (add_unsigned (to_unsigned (negsuc 0)) 1 == 0)

-- The code of a digit, when '0' has the code `zero_code`: the digits are contiguous.
abbrev pub digit_code : ℕ → ℕ → ℤ
digit_code zero_code d = pos (zero_code + d)

unfoldable pub digit_7_minus_0 : ℕ → ℤ
digit_7_minus_0 zero_code = digit_code zero_code 7 -ℤ digit_code zero_code 0
