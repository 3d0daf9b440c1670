-- ===== src/Interview/DynArr.antt =====
-- ProperInterview/src/dynarr.h: a growable array of int whose calls may fail to allocate.
pub mod Calls
use low_level.Prelude.{
  ℕ, suc, ◌*◌, ◌≤◌, ◌<◌, ◌≡◌, Bool, true, false, ◌||◌, some, List, [], ◌∷◌, ◌++◌, take, drop, set,
  length, get_elem?, ltb, ◌==◌, if◌then◌else◌,
}
use low_level.Prelude.Int.{ℤ}
use low_level.DataStructures.GrowArray.{GrowArray, empty, contents, IsGrowArray}
use low_level.DataStructures.Vector.{Holds}

-- The fields are those of Vector.
abbrev pub DynArr : Type 0
DynArr = GrowArray

-- The first allocation is 8 slots; when full, capacity doubles.
abbrev pub grown : ℕ → ℕ
grown cap = if cap == 0 then 8 else 2 * cap

-- The capacity that one more element asks for, for `len` elements in `cap` slots, and whether there
-- is a slot for it, where `allocates` says that this call gets a larger buffer if it asks for one.
abbrev pub cap_after : ℕ → ℕ → ℕ
cap_after len cap = if len == cap then grown cap else cap

abbrev pub has_room : Bool → ℕ → ℕ → Bool
has_room allocates len cap = ltb len cap || allocates

-- The functions of the header. A precondition is a hypothesis of the law. A value `*out` is given
-- and returned. The first argument of da_push and da_insert_at says whether an allocation of this
-- call succeeds, so that a call may succeed where one before it failed.
pub record DynArrApi : Type 0 where
  pub da_init : DynArr
  pub da_free : DynArr → DynArr
  pub da_push : Bool → DynArr → ℤ → Bool × DynArr
  pub da_pop : DynArr → ℤ → Bool × ℤ × DynArr
  pub da_get : DynArr → ℕ → ℤ
  pub da_set : DynArr → ℕ → ℤ → DynArr
  pub da_insert_at : Bool → DynArr → ℕ → ℤ → Bool × DynArr
  pub da_remove_at : DynArr → ℕ → DynArr
  pub da_len : DynArr → ℕ
  pub da_cap : DynArr → ℕ
  pub init_law : da_init ≡ empty
  pub free_law : (d : DynArr) → IsGrowArray d → da_free d ≡ empty
  pub push_law :
      (allocates : Bool) (d : DynArr) (x : ℤ)
      → IsGrowArray d
      → has_room allocates d.len d.cap ≡ true
      → (d' : DynArr) × (da_push allocates d x ≡ (true, d'))
        × Holds (contents d ++ x ∷ []) (cap_after d.len d.cap) d'
  pub push_fails :
      (allocates : Bool) (d : DynArr) (x : ℤ)
      → IsGrowArray d
      → has_room allocates d.len d.cap ≡ false
      → da_push allocates d x ≡ (false, d)
  pub pop_law :
      (d : DynArr) (xs : List ℤ) (x out : ℤ)
      → IsGrowArray d
      → contents d ≡ xs ++ x ∷ []
      → (d' : DynArr) × (da_pop d out ≡ (true, x, d')) × Holds xs d.cap d'
  pub pop_empty :
      (d : DynArr) (out : ℤ) → IsGrowArray d → d.len ≡ 0 → da_pop d out ≡ (false, out, d)
  pub get_law :
      (d : DynArr) (i : ℕ)
      → IsGrowArray d
      → i < d.len
      → get_elem? (contents d) i ≡ some (da_get d i)
  pub set_law :
      (d : DynArr) (i : ℕ) (x : ℤ)
      → IsGrowArray d
      → i < d.len
      → Holds (set (contents d) i x) d.cap (da_set d i x)
  pub insert_at_law :
      (allocates : Bool) (d : DynArr) (i : ℕ) (x : ℤ)
      → IsGrowArray d
      → i ≤ d.len
      → has_room allocates d.len d.cap ≡ true
      → (d' : DynArr) × (da_insert_at allocates d i x ≡ (true, d'))
        × Holds (take i (contents d) ++ x ∷ drop i (contents d)) (cap_after d.len d.cap) d'
  pub insert_at_fails :
      (allocates : Bool) (d : DynArr) (i : ℕ) (x : ℤ)
      → IsGrowArray d
      → i ≤ d.len
      → has_room allocates d.len d.cap ≡ false
      → (da_insert_at allocates d i x).0 ≡ false
  pub remove_at_law :
      (d : DynArr) (i : ℕ)
      → IsGrowArray d
      → i < d.len
      → Holds (take i (contents d) ++ drop (suc i) (contents d)) d.cap (da_remove_at d i)
  pub len_law : (d : DynArr) → da_len d ≡ d.len
  pub cap_law : (d : DynArr) → da_cap d ≡ d.cap
