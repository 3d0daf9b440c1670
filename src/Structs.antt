-- ===== src/Structs.antt =====
-- ProperC/src/structs.c: words as bytes in both orders, and colours packed into a word.
-- A `uint8_t` is a number below 2 ^ 8, a `uint32_t` one below 2 ^ 32, and an array a list.
pub mod Bytes
pub mod Rgba
pub mod Examples
use low_level.Prelude.{
  ℕ, zero, suc, ◌+◌, ◌-◌, ◌*◌, ◌^◌, Bool, false, true, Option, none, some, List, [], ◌∷◌, bit_and,
  bit_or, ◌==◌, ltb, if◌then◌else◌, get_elem?, store, ◌>>=◌,
}
use low_level.Prelude.Word.{u8, u32, ◌<<◌, ◌>>◌}

-- `object_bytes` is how the machine lays out a `uint32_t`, which C leaves to it. A `char` that
-- equals 1 is the byte 1.
pub is_little_endian : (ℕ → List ℕ) → Option Bool
is_little_endian object_bytes = do first_byte ← get_elem? (object_bytes 1) 0; some (first_byte == 1)

-- `(uint8_t)((v >> (8 * i)) & 0xFF)`
unfoldable pub byte_of : ℕ → ℕ → ℕ
byte_of v i = u8 (bit_and (v >> (8 * i)) 0xff)

-- The loops, at index `i` with `left` rounds to go.
to_bytes_le_loop : ℕ → ℕ → ℕ → List ℕ → Option (List ℕ)
to_bytes_le_loop v zero i out = some out
to_bytes_le_loop v (suc left) i out = do
  out' ← store out i (byte_of v i)
  to_bytes_le_loop v left (i + 1) out'

pub u32_to_bytes_le : ℕ → List ℕ → Option (List ℕ)
unfolding to_bytes_le_loop byte_of
u32_to_bytes_le v out = to_bytes_le_loop v 4 0 out

from_bytes_le_loop : List ℕ → ℕ → ℕ → ℕ → Option ℕ
from_bytes_le_loop bytes zero i new = some new
from_bytes_le_loop bytes (suc left) i new = do
  b ← get_elem? bytes i
  from_bytes_le_loop bytes left (i + 1) (bit_or new (u32 (b << (8 * i))))

unfoldable pub u32_from_bytes_le : List ℕ → Option ℕ
unfolding from_bytes_le_loop
u32_from_bytes_le bytes = from_bytes_le_loop bytes 4 0 0

to_bytes_be_loop : ℕ → ℕ → ℕ → List ℕ → Option (List ℕ)
to_bytes_be_loop v zero i out = some out
to_bytes_be_loop v (suc left) i out = do
  out' ← store out (3 - i) (byte_of v i)
  to_bytes_be_loop v left (i + 1) out'

pub u32_to_bytes_be : ℕ → List ℕ → Option (List ℕ)
unfolding to_bytes_be_loop byte_of
u32_to_bytes_be v out = to_bytes_be_loop v 4 0 out

from_bytes_be_loop : List ℕ → ℕ → ℕ → ℕ → Option ℕ
from_bytes_be_loop bytes zero i new = some new
from_bytes_be_loop bytes (suc left) i new = do
  b ← get_elem? bytes i
  from_bytes_be_loop bytes left (i + 1) (bit_or (u32 (new << 8)) b)

pub u32_from_bytes_be : List ℕ → Option ℕ
unfolding from_bytes_be_loop
u32_from_bytes_be bytes = do first ← get_elem? bytes 0; from_bytes_be_loop bytes 3 1 first

-- `r << 24` is computed in `int`: undefined where the result does not fit 31 bits.
unfoldable pub shift_int : ℕ → ℕ → Option ℕ
shift_int x k = if ltb (x << k) (2 ^ 31) then some (x << k) else none

pub pack_rgba : (r g b a : ℕ) → Option ℕ
unfolding shift_int
pack_rgba r g b a = do
  r' ← shift_int r 24
  g' ← shift_int g 16
  b' ← shift_int b 8
  some (bit_or (bit_or (bit_or (u32 r') (u32 g')) (u32 b')) (u32 a))

-- What the four pointers point at: `none` is NULL.
pub record Channels : Type 0 where
  pub r : Option ℕ
  pub g : Option ℕ
  pub b : Option ℕ
  pub a : Option ℕ

-- `if (p) *p = v;`
unfoldable pub assign : Option ℕ → ℕ → Option ℕ
assign none v = none
assign (some old) v = some v

pub unpack_rgba : ℕ → Channels → Channels
unfolding assign
unpack_rgba rgba out = record {
  r = assign out.r (u8 (rgba >> 24));
  g = assign out.g (u8 (bit_and (rgba >> 16) 0xff));
  b = assign out.b (u8 (bit_and (rgba >> 8) 0xff));
  a = assign out.a (u8 (bit_and rgba 0xff));
}
