-- ===== src/DataStructures/Vector.antt =====
-- ProperDS/src/vector.h: a growable array of int.
pub mod Growth
pub mod Edits
use low_level.Prelude.{
  ℕ, suc, ◌+◌, ◌≤◌, ◌<◌, ◌≡◌, Bool, true, false, ◌&&◌, Option, some, List, [], ◌∷◌, ◌++◌, take,
  drop, set, length, get_elem?, leb, ◌==◌,
}
use low_level.Prelude.Int.{ℤ}
use low_level.DataStructures.GrowArray.{
  GrowArray, empty, is_null, contents, same, IsGrowArray, cap_after, has_room,
}

abbrev pub Vector : Type 0
Vector = GrowArray

-- What a call leaves behind when it succeeds: a valid vector with these elements.
pub record Holds (xs : List ℤ) (cap : ℕ) (v : Vector) : Type 0 where
  pub valid : IsGrowArray v
  pub items : contents v ≡ xs
  pub capacity : v.cap ≡ cap

-- The functions of the header. A precondition is a hypothesis of the law. A call that fails to
-- allocate is only said to return false.
pub record VectorApi (allocates : ℕ → Bool) : Type 0 where
  pub vector_init : Vector
  pub vector_free : Vector → Vector
  pub vector_push : Vector → ℤ → Bool × Vector
  pub vector_pop : Vector → ℤ × Vector
  pub vector_get : Vector → ℕ → ℤ
  pub vector_set : Vector → ℕ → ℤ → Vector
  pub vector_insert_at : Vector → ℕ → ℤ → Bool × Vector
  pub vector_remove_at : Vector → ℕ → Vector
  pub vector_len : Vector → ℕ
  pub vector_cap : Vector → ℕ
  pub vector_validate : Vector → Bool
  pub init_law : vector_init ≡ empty
  pub free_law : (v : Vector) → IsGrowArray v → vector_free v ≡ empty
  pub push_law :
      (v : Vector) (x : ℤ)
      → IsGrowArray v
      → has_room allocates v ≡ true
      → (v' : Vector) × (vector_push v x ≡ (true, v'))
        × Holds (contents v ++ x ∷ []) (cap_after v) v'
  pub push_fails :
      (v : Vector) (x : ℤ)
      → IsGrowArray v
      → has_room allocates v ≡ false
      → (vector_push v x).0 ≡ false
  pub pop_law :
      (v : Vector) (xs : List ℤ) (x : ℤ)
      → IsGrowArray v
      → contents v ≡ xs ++ x ∷ []
      → (v' : Vector) × (vector_pop v ≡ (x, v')) × Holds xs v.cap v'
  pub get_law :
      (v : Vector) (i : ℕ)
      → IsGrowArray v
      → i < v.len
      → get_elem? (contents v) i ≡ some (vector_get v i)
  pub set_law :
      (v : Vector) (i : ℕ) (x : ℤ)
      → IsGrowArray v
      → i < v.len
      → Holds (set (contents v) i x) v.cap (vector_set v i x)
  pub insert_at_law :
      (v : Vector) (i : ℕ) (x : ℤ)
      → IsGrowArray v
      → i ≤ v.len
      → has_room allocates v ≡ true
      → (v' : Vector) × (vector_insert_at v i x ≡ (true, v'))
        × Holds (take i (contents v) ++ x ∷ drop i (contents v)) (cap_after v) v'
  pub insert_at_fails :
      (v : Vector) (i : ℕ) (x : ℤ)
      → IsGrowArray v
      → has_room allocates v ≡ false
      → (vector_insert_at v i x).0 ≡ false
  pub remove_at_law :
      (v : Vector) (i : ℕ)
      → IsGrowArray v
      → i < v.len
      → Holds (take i (contents v) ++ drop (suc i) (contents v)) v.cap (vector_remove_at v i)
  pub len_law : (v : Vector) → vector_len v ≡ v.len
  pub cap_law : (v : Vector) → vector_cap v ≡ v.cap
  pub validate_law :
      (v : Vector) → vector_validate v ≡ (leb v.len v.cap && same (is_null v.buffer) (v.cap == 0))
