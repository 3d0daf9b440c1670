-- ===== src/Structs/Rgba.antt =====
-- The packed colours of ProperC/src/structs.c.
use mathlib.Core.Option
use low_level.Prelude.{
  ℕ, ◌+◌, ◌*◌, ◌/◌, ◌%◌, ◌^◌, ◌≤◌, ◌<◌, ◌≡◌, refl, ap, Option, none, some, arith, bit_or, bit_and,
}
use low_level.Prelude.Word.{u8, u32, bit_or-low_step, bit_and_mask}
use low_level.Structs.{Channels, assign, shift_int, pack_rgba, unpack_rgba}

-- 0xRRGGBBAA
abbrev pub rgba_word : (r g b a : ℕ) → ℕ
rgba_word r g b a = r * 16777216 + g * 65536 + b * 256 + a

shift_int-some : (x k : ℕ) → x * 2 ^ k < 2 ^ 31 → shift_int x k ≡ some (x * 2 ^ k)
unfolding shift_int
shift_int-some x k fits = ground arith

-- For channels below 256 with the red one below 128, `pack_rgba` is defined and its result is
-- the word 0xRRGGBBAA.
pub pack_rgba_lem :
    (r g b a : ℕ)
    → r < 128
    → g < 256
    → b < 256
    → a < 256
    → pack_rgba r g b a ≡ some (rgba_word r g b a)
unfolding pack_rgba
pack_rgba_lem r g b a hr hg hb ha =
    rw
      (
        shift_int-some r 24 (omega arith),
        shift_int-some g 16 (omega arith),
        shift_int-some b 8 (omega arith),
      )
      (ap some fields)
  where
    two : bit_or (u32 (r * 2 ^ 24)) (u32 (g * 2 ^ 16)) ≡ (r * 2 ^ 8 + g) * 2 ^ 16
    two = bit_or-low_step 24 r (g * 2 ^ 16) (omega arith) (omega arith) (omega arith) (omega arith)

    three :
        bit_or (bit_or (u32 (r * 2 ^ 24)) (u32 (g * 2 ^ 16))) (u32 (b * 2 ^ 8))
        ≡ (r * 2 ^ 16 + g * 2 ^ 8 + b) * 2 ^ 8
    three =
        bit_or-low_step 16 (r * 2 ^ 8 + g) (b * 2 ^ 8) two (omega arith) (omega arith) (omega arith)

    fields :
        bit_or (bit_or (bit_or (u32 (r * 2 ^ 24)) (u32 (g * 2 ^ 16))) (u32 (b * 2 ^ 8))) (u32 a)
        ≡ rgba_word r g b a
    fields = bit_or-low_step 8 (r * 2 ^ 16 + g * 2 ^ 8 + b) a three (omega arith) ha (omega arith)

-- For a red channel of 128 or more `pack_rgba` shifts a bit into the sign of an `int`, which is
-- undefined, whatever the other channels are.
pub pack_rgba-eq-none : (r g b a : ℕ) → 128 ≤ r → pack_rgba r g b a ≡ none
unfolding pack_rgba shift_int
pack_rgba-eq-none r g b a hr = ground arith

assign-eq-map : (p : Option ℕ) {v w : ℕ} → v ≡ w → assign p v ≡ Option.map (λ _. w) p
unfolding assign
assign-eq-map none e = refl
assign-eq-map (some old) e = ap some e

-- For channels below 256 `unpack_rgba` takes the word 0xRRGGBBAA apart: it channel through its pointer where that is not NULL, and nowhere else.
pub unpack_rgba_lem :
    (r g b a : ℕ) (out : Channels)
    → r < 256
    → g < 256
    → b < 256
    → a < 256
    → unpack_rgba (rgba_word r g b a) out ≡ record {
      r = Option.map (λ _. r) out.r;
      g = Option.map (λ _. g) out.g;
      b = Option.map (λ _. b) out.b;
      a = Option.map (λ _. a) out.a;
    }
unfolding unpack_rgba
unpack_rgba_lem r g b a out hr hg hb ha = λ i. record {
  r = assign-eq-map out.r red i;
  g = assign-eq-map out.g green i;
  b = assign-eq-map out.b blue i;
  a = assign-eq-map out.a alpha i;
}
  where
    masked : (n : ℕ) → bit_and n 0xff % 256 ≡ n % 256
    masked n = omega (arith, bit_and_mask 8 n)

    red : u8 (rgba_word r g b a / 2 ^ 24) ≡ r
    red = omega arith

    green : u8 (bit_and (rgba_word r g b a / 2 ^ 16) 0xff) ≡ g
    green = omega (arith, masked (rgba_word r g b a / 2 ^ 16))

    blue : u8 (bit_and (rgba_word r g b a / 2 ^ 8) 0xff) ≡ b
    blue = omega (arith, masked (rgba_word r g b a / 2 ^ 8))

    alpha : u8 (bit_and (rgba_word r g b a) 0xff) ≡ a
    alpha = omega (arith, masked (rgba_word r g b a))
