-- ===== src/DataStructures/Bst.antt =====
-- ProperDS/src/bst.h: an unbalanced search tree of unique int keys. A pointer to a node is the
-- tree below it, NULL the tree without nodes.
pub mod Inorder
pub mod Calls
pub mod Members
use low_level.Prelude.{ℕ, suc, ◌+◌, ◌≡◌, Bool, true, false, ◌&&◌, ◌||◌, List, [], ◌∷◌, ◌++◌, ◌==◌}
use low_level.Prelude.Int.{ℤ, ◌≤ℤ◌, ltb_ℤ, eqb_ℤ}
use low_level.DataStructures.KeySet.{not}

pub data BstNode : Type 0 where
  null : BstNode
  node : (key : ℤ) (left right : BstNode) → BstNode

pub record Bst : Type 0 where
  pub root : BstNode
  pub size : ℕ

abbrev pub empty : Bst
empty = record { root = null; size = 0 }

unfoldable pub all_keys : (ℤ → Bool) → BstNode → Bool
all_keys test null = true
all_keys test (node k l r) = test k && all_keys test l && all_keys test r

-- All keys to the left strictly smaller, all keys to the right strictly larger.
unfoldable pub ordered : BstNode → Bool
ordered null = true
ordered (node k l r) =
    all_keys (λ x. ltb_ℤ x k) l && all_keys (λ x. ltb_ℤ k x) r && ordered l && ordered r

unfoldable pub node_count : BstNode → ℕ
node_count null = 0
node_count (node k l r) = suc (node_count l + node_count r)

unfoldable pub has_key : BstNode → ℤ → Bool
has_key null x = false
has_key (node k l r) x = eqb_ℤ x k || has_key l x || has_key r x

-- The invariant, as the checker of the header tests it.
abbrev pub validate : Bst → Bool
validate t = ordered t.root && node_count t.root == t.size

-- The keys from left to right.
unfoldable pub inorder : BstNode → List ℤ
inorder null = []
inorder (node k l r) = inorder l ++ k ∷ inorder r

abbrev pub IsBst : Bst → Type 0
IsBst t = validate t ≡ true

abbrev pub has : Bst → ℤ → Bool
has t k = has_key t.root k

-- The functions of the header, while `malloc` succeeds. A value `*out` is given and returned.
pub record BstApi : Type 0 where
  pub bst_init : Bst
  pub bst_free : Bst → Bst
  pub bst_insert : Bst → ℤ → Bool × Bst
  pub bst_contains : Bst → ℤ → Bool
  pub bst_remove : Bst → ℤ → Bool × Bst
  pub bst_min : Bst → ℤ → Bool × ℤ
  pub bst_max : Bst → ℤ → Bool × ℤ
  pub bst_size : Bst → ℕ
  pub bst_inorder : Bst → List ℤ
  pub bst_validate : Bst → Bool
  pub init_law : bst_init ≡ empty
  pub free_law : (t : Bst) → IsBst t → bst_free t ≡ empty
  pub insert_new :
      (t : Bst) (k : ℤ)
      → IsBst t
      → has t k ≡ false
      → (t' : Bst) × (bst_insert t k ≡ (true, t'))
        × IsBst t'
        × ((j : ℤ) → has t' j ≡ (eqb_ℤ j k || has t j))
  pub insert_present : (t : Bst) (k : ℤ) → IsBst t → has t k ≡ true → bst_insert t k ≡ (false, t)
  pub contains_law : (t : Bst) (k : ℤ) → IsBst t → bst_contains t k ≡ has t k
  pub remove_present :
      (t : Bst) (k : ℤ)
      → IsBst t
      → has t k ≡ true
      → (t' : Bst) × (bst_remove t k ≡ (true, t'))
        × IsBst t'
        × ((j : ℤ) → has t' j ≡ (not (eqb_ℤ j k) && has t j))
  pub remove_absent :
      (t : Bst) (k : ℤ)
      → IsBst t
      → has t k ≡ false
      → (t' : Bst) × (bst_remove t k ≡ (false, t')) × IsBst t' × ((j : ℤ) → has t' j ≡ has t j)
  pub min_law :
      (t : Bst) (out j : ℤ)
      → IsBst t
      → has t j ≡ true
      → (m : ℤ) × (bst_min t out ≡ (true, m))
        × (has t m ≡ true)
        × ((i : ℤ) → has t i ≡ true → m ≤ℤ i)
  pub max_law :
      (t : Bst) (out j : ℤ)
      → IsBst t
      → has t j ≡ true
      → (m : ℤ) × (bst_max t out ≡ (true, m))
        × (has t m ≡ true)
        × ((i : ℤ) → has t i ≡ true → i ≤ℤ m)
  pub min_empty : (t : Bst) (out : ℤ) → t.root ≡ null → bst_min t out ≡ (false, out)
  pub max_empty : (t : Bst) (out : ℤ) → t.root ≡ null → bst_max t out ≡ (false, out)
  pub size_law : (t : Bst) → IsBst t → bst_size t ≡ t.size
  pub inorder_law : (t : Bst) → IsBst t → bst_inorder t ≡ inorder t.root
  pub validate_law : (t : Bst) → bst_validate t ≡ validate t
