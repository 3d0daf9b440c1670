-- ===== src/Structs/Bytes.antt =====
-- The byte orders of ProperC/src/structs.c: round trips, and how the two relate.
use mathlib.Core.List.{reverse}
use low_level.Prelude.{
  ℕ, ◌+◌, ◌*◌, ◌/◌, ◌%◌, ◌^◌, ◌<◌, ◌≡◌, refl, ap, ◌∙◌, ◌↔◌, ◌⊎◌, inl, inr, true, false, some, List,
  [], ◌∷◌, arith, bit_or, length, ◌>>=◌,
}
use low_level.Prelude.Word.{u32, ◌<<◌, bit_or-high_step, bit_or-low_step, bit_and_mask}
use low_level.Structs.{
  byte_of, is_little_endian, u32_to_bytes_le, u32_from_bytes_le, u32_to_bytes_be, u32_from_bytes_be,
}

-- The bytes of `v` from the least significant on.
abbrev pub bytes_le : ℕ → List ℕ
bytes_le v = v % 256 ∷ v / 256 % 256 ∷ v / 65536 % 256 ∷ v / 16777216 % 256 ∷ []

abbrev pub bytes_be : ℕ → List ℕ
bytes_be v = v / 16777216 % 256 ∷ v / 65536 % 256 ∷ v / 256 % 256 ∷ v % 256 ∷ []

byte_of-eq-mod : (v i : ℕ) → byte_of v i ≡ v / 2 ^ (8 * i) % 256
unfolding byte_of
byte_of-eq-mod v i = omega (arith, bit_and_mask 8 (v / 2 ^ (8 * i)))

-- Whatever four bytes `out` holds, they are overwritten by those of the word.
to_bytes_le_lem : (v x y z t : ℕ) → u32_to_bytes_le v (x ∷ y ∷ z ∷ t ∷ []) ≡ some (bytes_le v)
unfolding u32_to_bytes_le
to_bytes_le_lem v x y z t = simp byte_of-eq-mod (ground arith)

to_bytes_be_lem : (v x y z t : ℕ) → u32_to_bytes_be v (x ∷ y ∷ z ∷ t ∷ []) ≡ some (bytes_be v)
unfolding u32_to_bytes_be
to_bytes_be_lem v x y z t = simp byte_of-eq-mod (ground arith)

-- Four bytes, and the number that they are the little-endian form of.
abbrev pub join : (a b c d : ℕ) → ℕ
join a b c d = a + b * 256 + c * 65536 + d * 16777216

module _ (a b c d : ℕ) (ha : a < 256) (hb : b < 256) (hc : c < 256) (hd : d < 256) where
  from_bytes_le_lem : u32_from_bytes_le (a ∷ b ∷ c ∷ d ∷ []) ≡ some (join a b c d)
  unfolding u32_from_bytes_le
  from_bytes_le_lem = ap some (
      bit_or-high_step 24 d
        (bit_or-high_step 16 c
          (bit_or-high_step 8 b
            (bit_or-high_step 0 a refl (omega arith) (omega arith) (omega arith)) (omega arith)
            (omega arith) refl)
          (omega arith) (omega arith) refl)
        (omega arith) (omega arith) refl)

  from_bytes_be_lem : u32_from_bytes_be (d ∷ c ∷ b ∷ a ∷ []) ≡ some (join a b c d)
  unfolding u32_from_bytes_be
  from_bytes_be_lem =
      let two : bit_or (u32 (d << 8)) c ≡ d * 2 ^ 8 + c =
        bit_or-low_step 8 d c (omega arith) refl hc refl in
      let three : bit_or (u32 (bit_or (u32 (d << 8)) c << 8)) b ≡ (d * 2 ^ 8 + c) * 2 ^ 8 + b =
        bit_or-low_step 8 (d * 2 ^ 8 + c) b (shifted two (omega arith)) refl hb refl in
      ap some (
        bit_or-low_step 8 ((d * 2 ^ 8 + c) * 2 ^ 8 + b) a (shifted three (omega arith)) refl ha
          (omega arith))
    where
      shifted : {m n : ℕ} → m ≡ n → n * 2 ^ 8 < 2 ^ 32 → u32 (m << 8) ≡ n * 2 ^ 8
      shifted e bound = omega arith

-- The bytes of a word join to the word.
from_bytes_le : (v : ℕ) → v < 2 ^ 32 → u32_from_bytes_le (bytes_le v) ≡ some v
from_bytes_le v fits =
    from_bytes_le_lem _ _ _ _ (omega arith) (omega arith) (omega arith) (omega arith)
    ∙ ap some (omega arith)

from_bytes_be : (v : ℕ) → v < 2 ^ 32 → u32_from_bytes_be (bytes_be v) ≡ some v
from_bytes_be v fits =
    from_bytes_be_lem _ _ _ _ (omega arith) (omega arith) (omega arith) (omega arith)
    ∙ ap some (omega arith)

-- For every word and every four-byte buffer, writing the word in little-endian order and reading
-- the buffer back gives the word.
pub from_bytes_le-to_bytes_le :
    (v : ℕ) (out : List ℕ)
    → v < 2 ^ 32
    → length out ≡ 4
    → (u32_to_bytes_le v out >>= u32_from_bytes_le) ≡ some v
from_bytes_le-to_bytes_le v (x ∷ y ∷ z ∷ t ∷ []) fits size =
    rw (to_bytes_le_lem v x y z t) (from_bytes_le v fits)
from_bytes_le-to_bytes_le v _ fits size = absurd (omega arith)

-- The same in big-endian order.
pub from_bytes_be-to_bytes_be :
    (v : ℕ) (out : List ℕ)
    → v < 2 ^ 32
    → length out ≡ 4
    → (u32_to_bytes_be v out >>= u32_from_bytes_be) ≡ some v
from_bytes_be-to_bytes_be v (x ∷ y ∷ z ∷ t ∷ []) fits size =
    rw (to_bytes_be_lem v x y z t) (from_bytes_be v fits)
from_bytes_be-to_bytes_be v _ fits size = absurd (omega arith)

abbrev pub AreBytes : List ℕ → Type 0
AreBytes [] = Unit
AreBytes (b ∷ bs) = (b < 256) × AreBytes bs

-- Reading any four bytes as a little-endian word gives a word, and writing it to any four-byte
-- buffer gives the four bytes back.
pub to_bytes_le-from_bytes_le :
    (bytes out : List ℕ)
    → AreBytes bytes
    → length bytes ≡ 4
    → length out ≡ 4
    → (v : ℕ) × (u32_from_bytes_le bytes ≡ some v)
      × (v < 2 ^ 32)
      × (u32_to_bytes_le v out ≡ some bytes)
to_bytes_le-from_bytes_le (a ∷ b ∷ c ∷ d ∷ []) (x ∷ y ∷ z ∷ t ∷ []) h size size' = (
  join a b c d,
  from_bytes_le_lem a b c d h.0 h.1.0 h.1.1.0 h.1.1.1.0,
  omega arith,
  to_bytes_le_lem (join a b c d) x y z t ∙ ap some (ground arith),
)
to_bytes_le-from_bytes_le [] _ h size size' = absurd (omega arith)
to_bytes_le-from_bytes_le _ _ h size size' = absurd (omega arith)

-- For every word and any two four-byte buffers, the big-endian writer leaves the bytes of the
-- little-endian one in reverse order.
pub to_bytes_be-reverse :
    (v : ℕ) (out out' : List ℕ)
    → length out ≡ 4
    → length out' ≡ 4
    → u32_to_bytes_be v out ≡ (u32_to_bytes_le v out' >>= λ bytes. some (reverse bytes))
to_bytes_be-reverse v (x ∷ y ∷ z ∷ t ∷ []) (x' ∷ y' ∷ z' ∷ t' ∷ []) size size' =
    rw (to_bytes_le_lem v x' y' z' t', to_bytes_be_lem v x y z t)
to_bytes_be-reverse v [] _ size size' = absurd (omega arith)
to_bytes_be-reverse v _ _ size size' = absurd (omega arith)

-- On a machine that lays out words in one of the two orders, `is_little_endian` returns true
-- exactly if the number 1 is laid out least significant byte first.
pub is_little_endian_iff :
    (object_bytes : ℕ → List ℕ)
    → (object_bytes 1 ≡ bytes_le 1) ⊎ (object_bytes 1 ≡ bytes_be 1)
    → (is_little_endian object_bytes ≡ some true) ↔ (object_bytes 1 ≡ bytes_le 1)
unfolding is_little_endian
is_little_endian_iff object_bytes (inl little) = (λ _. little, λ _. rw little)
is_little_endian_iff object_bytes (inr big) = (λ h. cc (reads_zero h), λ h. cc h)
  where
    reads_zero : is_little_endian object_bytes ≡ some true → some false ≡ some true
    reads_zero h = rw big at h
