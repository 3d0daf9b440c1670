-- ===== src/DataStructures/Stack.antt =====
-- The stack of ProperDS/src/stackqueue.h: last in, first out, in a growable array.
pub mod Order
use low_level.Prelude.{ℕ, ◌<◌, ◌≡◌, Bool, true, false, List, [], ◌∷◌, ◌++◌, ◌==◌}
use low_level.Prelude.Int.{ℤ}
use low_level.DataStructures.GrowArray.{
  GrowArray, empty, contents, IsGrowArray, cap_after, has_room,
}
use low_level.DataStructures.Vector.{Holds}

abbrev pub Stack : Type 0
Stack = GrowArray

-- The functions of the header; the top is the last element. A value `*out` is given and returned.
-- A call that fails to allocate is only said to return false.
pub record StackApi (allocates : ℕ → Bool) : Type 0 where
  pub stack_init : Stack
  pub stack_free : Stack → Stack
  pub stack_push : Stack → ℤ → Bool × Stack
  pub stack_pop : Stack → ℤ → Bool × ℤ × Stack
  pub stack_peek : Stack → ℤ → Bool × ℤ
  pub stack_is_empty : Stack → Bool
  pub init_law : stack_init ≡ empty
  pub free_law : (s : Stack) → IsGrowArray s → stack_free s ≡ empty
  pub push_law :
      (s : Stack) (x : ℤ)
      → IsGrowArray s
      → has_room allocates s ≡ true
      → (s' : Stack) × (stack_push s x ≡ (true, s')) × Holds (contents s ++ x ∷ []) (cap_after s) s'
  pub push_fails :
      (s : Stack) (x : ℤ)
      → IsGrowArray s
      → has_room allocates s ≡ false
      → (stack_push s x).0 ≡ false
  pub pop_law :
      (s : Stack) (xs : List ℤ) (x out : ℤ)
      → IsGrowArray s
      → contents s ≡ xs ++ x ∷ []
      → (s' : Stack) × (stack_pop s out ≡ (true, x, s')) × Holds xs s.cap s'
  pub pop_empty :
      (s : Stack) (out : ℤ) → IsGrowArray s → s.len ≡ 0 → stack_pop s out ≡ (false, out, s)
  pub peek_law :
      (s : Stack) (xs : List ℤ) (x out : ℤ)
      → IsGrowArray s
      → contents s ≡ xs ++ x ∷ []
      → stack_peek s out ≡ (true, x)
  pub peek_empty :
      (s : Stack) (out : ℤ) → IsGrowArray s → s.len ≡ 0 → stack_peek s out ≡ (false, out)
  pub is_empty_law : (s : Stack) → stack_is_empty s ≡ (s.len == 0)
