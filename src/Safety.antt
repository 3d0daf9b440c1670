-- ===== src/Safety.antt =====
-- ProperC/src/safety.c. An array of `char` is a list of codes with 0 for the terminator; source
-- and destination do not overlap. A `size_t` has 64 bits.
pub mod Length
pub mod Loop
pub mod Copy
pub mod Concat
pub mod Examples
use low_level.Prelude.{
  ℕ, zero, suc, ◌+◌, ◌-◌, ◌%◌, ◌^◌, Bool, true, false, Option, none, some, List, [], ◌∷◌, ◌==◌, ltb,
  if◌then◌else◌, get_elem?, store, length, ◌>>=◌,
}

-- `while (*(src + n) != 0) n++;`, a fault past the end of the array. Also `strlen`, which is
-- documented to be the number of bytes in front of the first 0.
unfoldable pub str_length : List ℕ → Option ℕ
str_length [] = none
str_length (c ∷ cs) =
    let rest = (do n ← str_length cs; some (n + 1)) in if c == 0 then some 0 else rest

-- The array `dst` after the call, and the number that is returned.
pub record Bounded : Type 0 where
  pub dst : List ℕ
  pub result : ℕ

-- `dst[i] = i < src_size ? src[i] : 0` for the next `left` indices.
copy_loop : List ℕ → ℕ → ℕ → ℕ → List ℕ → Option (List ℕ)
copy_loop src src_size zero i dst = some dst
copy_loop src src_size (suc left) i dst = do
  c ← if ltb i src_size then get_elem? src i else some 0
  dst' ← store dst i c
  copy_loop src src_size left (i + 1) dst'

pub safe_strcpy : List ℕ → ℕ → List ℕ → Option Bounded
unfolding str_length copy_loop
safe_strcpy dst dstsize src = do
  src_size ← str_length src
  let copy = do
    dst' ← copy_loop src src_size (dstsize - 1) 0 dst
    dst'' ← store dst' (dstsize - 1) 0
    some (record { dst = dst''; result = src_size })
  if dstsize == 0 then some (record { dst = dst; result = src_size }) else copy

-- `dstsize - 1` in `size_t`: the largest number where `dstsize` is 0.
abbrev pub last_index : ℕ → ℕ
last_index dstsize = (dstsize + (2 ^ 64 - 1)) % 2 ^ 64

-- The loop of `safe_strcat`, at index `i` of the destination.
pub append_loop : List ℕ → ℕ → ℕ → ℕ → ℕ → List ℕ → Option (List ℕ)
append_loop src src_len dst_len zero i dst = some dst
append_loop src src_len dst_len (suc left) i dst = do
  c ← if ltb (i - dst_len) src_len then get_elem? src (i - dst_len) else some 0
  dst' ← store dst i c
  append_loop src src_len dst_len left (i + 1) dst'

pub safe_strcat : List ℕ → ℕ → List ℕ → Option Bounded
unfolding str_length append_loop
safe_strcat dst dstsize src = do
  src_len ← str_length src
  dst_len ← str_length dst
  dst' ← append_loop src src_len dst_len (last_index dstsize - dst_len) dst_len dst
  dst'' ← store dst' (last_index dstsize) 0
  let actual = (src_len + dst_len) % 2 ^ 64
  some (record { dst = dst''; result = if ltb actual dstsize then actual else dstsize })

-- The loop of `copy_n_safe`.
byte_loop : List ℕ → ℕ → ℕ → List ℕ → Option (List ℕ)
byte_loop src zero i dst = some dst
byte_loop src (suc left) i dst = do
  b ← get_elem? src i
  dst' ← store dst i b
  byte_loop src left (i + 1) dst'

-- The array `dst` after the call, and the result.
pub record Attempt : Type 0 where
  pub dst : List ℕ
  pub copied : Bool

pub copy_n_safe : List ℕ → ℕ → List ℕ → ℕ → Option Attempt
unfolding byte_loop
copy_n_safe dst dstcap src n =
    let copy = (do dst' ← byte_loop src n 0 dst; some (record { dst = dst'; copied = true })) in
    if ltb dstcap n then some (record { dst = dst; copied = false }) else copy
