-- ===== src/DataStructures/Avl/Contract.antt =====
-- The contract of ProperDS/src/avl.h: what the header says of each function.
use low_level.Prelude.{ℕ, ◌≡◌, Bool, ◌&&◌, ◌||◌, List}
use low_level.Prelude.Int.{ℤ, eqb_ℤ}
use low_level.DataStructures.KeySet.{KeySet, not}
use low_level.DataStructures.Bst.{has_key, inorder}
use low_level.DataStructures.Avl.{Avl, null, keys_of, height, IsAvl}

abbrev pub in_tree : Avl → ℤ → Bool
in_tree t k = has_key (keys_of t.root) k

-- While `malloc` succeeds. An insertion answers whether the key is new, a removal whether it was
-- there, and both restore the invariant.
pub record AvlApi : Type 0 where
  pub avl_init : Avl
  pub avl_free : Avl → Avl
  pub avl_insert : Avl → ℤ → Bool × Avl
  pub avl_contains : Avl → ℤ → Bool
  pub avl_remove : Avl → ℤ → Bool × Avl
  pub avl_height : Avl → ℕ
  pub avl_size : Avl → ℕ
  pub avl_inorder : Avl → List ℤ
  pub init_law : avl_init ≡ record { root = null; size = 0 }
  pub free_law : (t : Avl) → avl_free t ≡ record { root = null; size = 0 }
  pub insert_answer : (t : Avl) (k : ℤ) → IsAvl t → (avl_insert t k).0 ≡ not (in_tree t k)
  pub insert_valid : (t : Avl) (k : ℤ) → IsAvl t → IsAvl (avl_insert t k).1
  pub insert_keys :
      (t : Avl) (k j : ℤ) → IsAvl t → in_tree (avl_insert t k).1 j ≡ (eqb_ℤ j k || in_tree t j)
  pub contains_law : (t : Avl) (k : ℤ) → IsAvl t → avl_contains t k ≡ in_tree t k
  pub remove_answer : (t : Avl) (k : ℤ) → IsAvl t → (avl_remove t k).0 ≡ in_tree t k
  pub remove_valid : (t : Avl) (k : ℤ) → IsAvl t → IsAvl (avl_remove t k).1
  pub remove_keys :
      (t : Avl) (k j : ℤ)
      → IsAvl t
      → in_tree (avl_remove t k).1 j ≡ (not (eqb_ℤ j k) && in_tree t j)
  pub height_law : (t : Avl) → IsAvl t → avl_height t ≡ height t.root
  pub size_law : (t : Avl) → avl_size t ≡ t.size
  pub inorder_law : (t : Avl) → IsAvl t → avl_inorder t ≡ inorder (keys_of t.root)

abbrev pub api_set : AvlApi → KeySet ℤ eqb_ℤ Avl
api_set api = record {
  Valid = IsAvl;
  has = in_tree;
  insert = api.avl_insert;
  contains = api.avl_contains;
  remove = api.avl_remove;
  insert_answer = api.insert_answer;
  insert_valid = api.insert_valid;
  insert_has = api.insert_keys;
  contains_answer = api.contains_law;
  remove_answer = api.remove_answer;
  remove_valid = api.remove_valid;
  remove_has = api.remove_keys;
}
