-- ===== src/DataStructures/GrowArray.antt =====
-- The growable arrays of ProperDS/src: the structs Vector, Stack and Heap have the same fields and
-- grow by the same policy (`buffer` is the field `data`). `none` is NULL, and an allocated buffer is the list of its slots.
use low_level.Prelude.{
  ℕ, ◌*◌, ◌≤◌, ◌≡◌, refl, Bool, true, false, ◌||◌, Option, none, some, List, [], take, length,
  length-take, arith, ltb, ◌==◌, if◌then◌else◌,
}
use low_level.Prelude.Int.{ℤ}

pub record GrowArray : Type 0 where
  pub buffer : Option (List ℤ)
  pub len : ℕ
  pub cap : ℕ

abbrev pub empty : GrowArray
empty = record { buffer = none; len = 0; cap = 0 }

abbrev pub slots_of : Option (List ℤ) → List ℤ
slots_of none = []
slots_of (some xs) = xs

abbrev pub is_null : Option (List ℤ) → Bool
is_null none = true
is_null (some xs) = false

-- `==` on Booleans.
abbrev pub same : Bool → Bool → Bool
same true b = b
same false true = false
same false false = true

abbrev pub contents : GrowArray → List ℤ
contents v = take v.len (slots_of v.buffer)

-- `len <= cap`, and `data == NULL` exactly when `cap == 0`.
pub record IsGrowArray (v : GrowArray) : Type 0 where
  pub inside : v.len ≤ v.cap
  pub null : is_null v.buffer ≡ (v.cap == 0)
  pub room : length (slots_of v.buffer) ≡ v.cap

-- The first allocation is 4 slots; when full, capacity doubles.
abbrev pub grown : ℕ → ℕ
grown cap = if cap == 0 then 4 else 2 * cap

-- The capacity that one more element asks for.
abbrev pub cap_after : GrowArray → ℕ
cap_after v = if v.len == v.cap then grown v.cap else v.cap

-- Whether there is a slot for one more element: `allocates n` says that a buffer of `n` slots can
-- be had.
abbrev pub has_room : (ℕ → Bool) → GrowArray → Bool
has_room allocates v = ltb v.len v.cap || allocates (grown v.cap)

pub empty-IsGrowArray : IsGrowArray empty
empty-IsGrowArray = record { inside = omega arith; null = refl; room = refl }

pub length-contents : (v : GrowArray) → IsGrowArray v → length (contents v) ≡ v.len
length-contents v h = omega (arith, length-take v.len (slots_of v.buffer), h.inside, h.room)
