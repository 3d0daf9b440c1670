-- ===== src/Memory.antt =====
-- ProperC/src/memory.h, whose functions are not written yet: a copied string, and a growable array
-- of int. Any allocation may fail: that a call fails is in what it returns.
pub mod Calls
pub mod Reference
mod Examples
use low_level.Prelude.{
  ℕ, zero, suc, ◌+◌, ◌-◌, ◌≤◌, ◌<◌, ◌≡◌, ◌⊎◌, Bool, true, false, Option, none, some, List, [], ◌∷◌,
  ◌++◌, take, length, get_elem?,
}
use low_level.Prelude.Int.{ℤ}
use low_level.Interview.Strfns.{Holds}
use low_level.DataStructures.GrowArray.{slots_of}

-- `buffer` is the field `data`; none is NULL.
pub record IntVec : Type 0 where
  pub buffer : Option (List ℤ)
  pub len : ℕ
  pub cap : ℕ

abbrev pub elements : IntVec → List ℤ
elements v = take v.len (slots_of v.buffer)

-- `len <= cap`, and the buffer has `cap` slots.
pub record IsIntVec (v : IntVec) : Type 0 where
  pub inside : v.len ≤ v.cap
  pub room : length (slots_of v.buffer) ≡ v.cap

abbrev pub empty_vec : IntVec
empty_vec = record { buffer = none; len = 0; cap = 0 }

-- The functions of the header. A value `*out` is given and returned.
pub record MemoryApi : Type 0 where
  pub my_strdup : List ℕ → Option (List ℕ)
  pub vec_init : IntVec
  pub vec_push : IntVec → ℤ → Bool × IntVec
  pub vec_pop : IntVec → ℤ → Bool × ℤ × IntVec
  pub vec_get : IntVec → ℕ → ℤ
  pub vec_free : IntVec → IntVec
  pub strdup_law :
      (b s : List ℕ)
      → Holds b s
      → (my_strdup b ≡ none) ⊎ ((copy : List ℕ) × (my_strdup b ≡ some copy) × Holds copy s)
  pub init_law : IsIntVec vec_init × (vec_init.len ≡ 0) × (vec_init.cap ≡ 0)
  pub push_law :
      (v : IntVec) (x : ℤ)
      → IsIntVec v
      → (vec_push v x ≡ (false, v))
        ⊎ ((w : IntVec) × (vec_push v x ≡ (true, w))
            × IsIntVec w
            × (elements w ≡ elements v ++ x ∷ []))
  pub pop_empty : (v : IntVec) (out : ℤ) → IsIntVec v → v.len ≡ 0 → vec_pop v out ≡ (false, out, v)
  pub pop_law :
      (v : IntVec) (out : ℤ)
      → IsIntVec v
      → 0 < v.len
      → (x : ℤ) × (w : IntVec) × (vec_pop v out ≡ (true, x, w))
        × IsIntVec w
        × (get_elem? (elements v) (v.len - 1) ≡ some x)
        × (elements w ≡ take (v.len - 1) (elements v))
  pub get_law :
      (v : IntVec) (i : ℕ) → IsIntVec v → i < v.len → get_elem? (elements v) i ≡ some (vec_get v i)
  pub free_law : (v : IntVec) → IsIntVec v → vec_free v ≡ empty_vec
