-- ===== src/Structs/Examples.antt =====
-- Runs of the functions of ProperC/src/structs.c, and their theorems at words and colours.
use mathlib.Core.List.{reverse}
use mathlib.Core.Option
use low_level.Prelude.{
  ℕ, ◌^◌, ◌<◌, ◌≡◌, ◌↔◌, refl, true, none, some, List, [], ◌∷◌, inr, arith, ◌>>=◌,
}
use low_level.Structs.{
  is_little_endian, u32_to_bytes_le, u32_from_bytes_le, u32_to_bytes_be, u32_from_bytes_be,
  Channels, pack_rgba, unpack_rgba,
}
use low_level.Structs.Bytes.{
  bytes_le, bytes_be, from_bytes_le-to_bytes_le, from_bytes_be-to_bytes_be,
  to_bytes_le-from_bytes_le, to_bytes_be-reverse, is_little_endian_iff,
}
use low_level.Structs.Rgba.{rgba_word, pack_rgba_lem, pack_rgba-eq-none, unpack_rgba_lem}

abbrev buffer : List ℕ
buffer = 9 ∷ 9 ∷ 9 ∷ 9 ∷ []

abbrev four : List ℕ
four = 4 ∷ 3 ∷ 2 ∷ 1 ∷ []

abbrev pointers : Channels
pointers = record { r = none; g = some 0; b = none; a = some 0 }

runs :
    (u32_to_bytes_le 0x01020304 buffer ≡ some four)
    × (u32_from_bytes_be four ≡ some 0x04030201)
    × (pack_rgba 0x11 0x22 0x33 0x44 ≡ some 0x11223344)
    × (unpack_rgba 0xaabbccdd pointers
        ≡ record { r = none; g = some 0xbb; b = none; a = some 0xdd })
unfolding u32_to_bytes_le u32_from_bytes_be pack_rgba unpack_rgba
runs = (refl, refl, refl, refl)

from_bytes_le-to_bytes_le_test :
    (u32_to_bytes_le 0xdeadbeef buffer >>= u32_from_bytes_le) ≡ some 0xdeadbeef
from_bytes_le-to_bytes_le_test = from_bytes_le-to_bytes_le 0xdeadbeef buffer (omega arith) refl

from_bytes_be-to_bytes_be_test :
    (u32_to_bytes_be 0xdeadbeef buffer >>= u32_from_bytes_be) ≡ some 0xdeadbeef
from_bytes_be-to_bytes_be_test = from_bytes_be-to_bytes_be 0xdeadbeef buffer (omega arith) refl

to_bytes_le-from_bytes_le_test :
    (v : ℕ) × (u32_from_bytes_le four ≡ some v)
    × (v < 2 ^ 32)
    × (u32_to_bytes_le v buffer ≡ some four)
to_bytes_le-from_bytes_le_test = to_bytes_le-from_bytes_le four buffer (omega arith) refl refl

to_bytes_be-reverse_test :
    u32_to_bytes_be 7 buffer ≡ (u32_to_bytes_le 7 four >>= λ bytes. some (reverse bytes))
to_bytes_be-reverse_test = to_bytes_be-reverse 7 buffer four refl refl

is_little_endian_iff_test : (is_little_endian bytes_be ≡ some true) ↔ (bytes_be 1 ≡ bytes_le 1)
is_little_endian_iff_test = is_little_endian_iff bytes_be (inr refl)

pack_rgba_lem_test : pack_rgba 127 255 0 9 ≡ some (rgba_word 127 255 0 9)
pack_rgba_lem_test =
    pack_rgba_lem 127 255 0 9 (omega arith) (omega arith) (omega arith) (omega arith)

pack_rgba-eq-none_test : pack_rgba 0xaa 0xbb 0xcc 0xdd ≡ none
pack_rgba-eq-none_test = pack_rgba-eq-none 0xaa 0xbb 0xcc 0xdd (omega arith)

unpack_rgba_lem_test : unpack_rgba (rgba_word 170 187 204 221) pointers ≡ record {
  r = Option.map (λ _. 170) pointers.r;
  g = Option.map (λ _. 187) pointers.g;
  b = Option.map (λ _. 204) pointers.b;
  a = Option.map (λ _. 221) pointers.a;
}
unpack_rgba_lem_test =
    unpack_rgba_lem 170 187 204 221 pointers (omega arith) (omega arith) (omega arith) (omega arith)
