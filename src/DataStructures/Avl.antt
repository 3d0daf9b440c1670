-- ===== src/DataStructures/Avl.antt =====
-- ProperDS/src/avl.h: a search tree that is kept balanced by rotations. A pointer to a node is the
-- tree below it, NULL the tree without nodes. Allocation succeeds. The functions of the header are
-- the fields of the record in Contract; those written down here are one way to keep its laws, for
-- the tests.
pub mod Height
pub mod Balance
pub mod Keys
pub mod Updates
pub mod Calls
pub mod Contract
pub mod Bounded
use low_level.Prelude.{
  ℕ, suc, ◌+◌, ◌-◌, ◌≡◌, List, Bool, true, false, ◌&&◌, max, leb, ltb, ◌==◌, if◌then◌else◌,
}
use low_level.Prelude.Int.{ℤ, ltb_ℤ}
use low_level.DataStructures.Bst.{BstNode, ordered, node_count, inorder}
use low_level.DataStructures.Bst as Bst

pub data AvlNode : Type 0 where
  null : AvlNode
  node : (key : ℤ) (height : ℕ) (left right : AvlNode) → AvlNode

pub record Avl : Type 0 where
  pub root : AvlNode
  pub size : ℕ

-- The tree without its cached heights.
unfoldable pub keys_of : AvlNode → BstNode
keys_of null = Bst.null
keys_of (node k h l r) = Bst.node k (keys_of l) (keys_of r)

-- What a node's cache says, and what it is to say.
abbrev pub cached : AvlNode → ℕ
cached null = 0
cached (node k h l r) = h

unfoldable pub height : AvlNode → ℕ
height null = 0
height (node k h l r) = suc (max (height l) (height r))

unfoldable pub caches_right : AvlNode → Bool
unfolding height
caches_right null = true
caches_right (node k h l r) =
    h == suc (max (height l) (height r)) && caches_right l && caches_right r

-- Every balance factor is -1, 0 or 1.
unfoldable pub balanced : AvlNode → Bool
unfolding height
balanced null = true
balanced (node k h l r) =
    leb (height l) (suc (height r)) && leb (height r) (suc (height l)) && balanced l && balanced r

-- The invariant, as the checker of the header tests it.
abbrev pub validate : Avl → Bool
validate t =
    ordered (keys_of t.root)
    && caches_right t.root
    && balanced t.root
    && node_count (keys_of t.root) == t.size

abbrev pub IsAvl : Avl → Type 0
IsAvl t = validate t ≡ true

-- The height of the whole tree, read from the root's cache.
abbrev pub avl_height : Avl → ℕ
avl_height t = cached t.root

-- A node with the height that its subtrees' caches demand.
abbrev pub made : ℤ → AvlNode → AvlNode → AvlNode
made k l r = node k (suc (max (cached l) (cached r))) l r

abbrev pub rotate_right : ℤ → AvlNode → AvlNode → AvlNode
rotate_right k null r = made k null r
rotate_right k (node j h a b) r = made j a (made k b r)

abbrev pub rotate_left : ℤ → AvlNode → AvlNode → AvlNode
rotate_left k l null = made k l null
rotate_left k l (node j h a b) = made j (made k l a) b

-- A single or a double rotation, for a left subtree that is too high.
abbrev pub left_heavy : ℤ → AvlNode → AvlNode → AvlNode
left_heavy k null r = made k null r
left_heavy k (node j h a b) r =
    if leb (cached b) (cached a)
    then rotate_right k (node j h a b) r
    else rotate_right k (rotate_left j a b) r

abbrev pub right_heavy : ℤ → AvlNode → AvlNode → AvlNode
right_heavy k l null = made k l null
right_heavy k l (node j h a b) =
    if leb (cached a) (cached b)
    then rotate_left k l (node j h a b)
    else rotate_left k l (rotate_right j a b)

unfoldable pub rebalanced : ℤ → AvlNode → AvlNode → AvlNode
rebalanced k l r =
    if ltb (suc (cached r)) (cached l)
    then left_heavy k l r
    else (if ltb (suc (cached l)) (cached r) then right_heavy k l r else made k l r)

unfoldable pub search : AvlNode → ℤ → Bool
search null x = false
search (node k h l r) x =
    let left = search l x in
    let right = search r x in if ltb_ℤ x k then left else if ltb_ℤ k x then right else true

unfoldable pub inserted : AvlNode → ℤ → AvlNode
inserted null x = made x null null
inserted (node k h l r) x =
    let left = rebalanced k (inserted l x) r in
    let right = rebalanced k l (inserted r x) in
    if ltb_ℤ x k then left else if ltb_ℤ k x then right else node k h l r

-- The smallest key of a node `k` with the subtrees `l` and `r`, and what remains without it.
unfoldable pub pop_least : ℤ → AvlNode → AvlNode → ℤ × AvlNode
pop_least k null r = (k, r)
pop_least k (node j h a b) r = let (m, l) = pop_least j a b in (m, rebalanced k l r)

-- The two subtrees of a node that is removed: the smallest key of the right one takes its place.
abbrev pub joined : AvlNode → AvlNode → AvlNode
joined l null = l
joined l (node j h a b) = let (m, r) = pop_least j a b in rebalanced m l r

unfoldable pub removed : AvlNode → ℤ → AvlNode
removed null x = null
removed (node k h l r) x =
    let left = rebalanced k (removed l x) r in
    let right = rebalanced k l (removed r x) in
    if ltb_ℤ x k then left else if ltb_ℤ k x then right else joined l r

abbrev pub avl_init : Avl
avl_init = record { root = null; size = 0 }

abbrev pub avl_contains : Avl → ℤ → Bool
avl_contains t x = search t.root x

unfoldable pub avl_insert : Avl → ℤ → Bool × Avl
avl_insert t x =
    if search t.root x
    then (false, t)
    else (true, record { root = inserted t.root x; size = suc t.size })

unfoldable pub avl_remove : Avl → ℤ → Bool × Avl
avl_remove t x =
    if search t.root x
    then (true, record { root = removed t.root x; size = t.size - 1 })
    else (false, t)

abbrev pub avl_size : Avl → ℕ
avl_size t = t.size

abbrev pub avl_inorder : Avl → List ℤ
avl_inorder t = inorder (keys_of t.root)
