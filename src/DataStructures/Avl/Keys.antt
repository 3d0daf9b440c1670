-- ===== src/DataStructures/Avl/Keys.antt =====
-- The keys of a tree of ProperDS/src/avl.h from left to right, which rotations do not move.
use low_level.Prelude.{
  suc, append-nil, ◌≡◌, refl, sym, ap, ap₂, ◌∙◌, List, [], ◌∷◌, ◌++◌, append_assoc, leb, ltb,
  Bool-cases, inl, inr,
}
use low_level.Prelude.Int.{ℤ}
use low_level.DataStructures.Bst.{inorder}
use low_level.DataStructures.Avl.{
  AvlNode, null, node, keys_of, cached, rotate_right, rotate_left, left_heavy, right_heavy,
  rebalanced, pop_least, joined,
}

unfoldable pub keys : AvlNode → List ℤ
keys null = []
keys (node k h l r) = keys l ++ k ∷ keys r

pub keys-inorder : (t : AvlNode) → keys t ≡ inorder (keys_of t)
unfolding keys inorder keys_of
keys-inorder null = refl
keys-inorder (node k h l r) = ap₂ (λ xs ys. xs ++ k ∷ ys) (keys-inorder l) (keys-inorder r)

rotate_right-keys : (k : ℤ) (l r : AvlNode) → keys (rotate_right k l r) ≡ keys l ++ k ∷ keys r
unfolding keys
rotate_right-keys k null r = refl
rotate_right-keys k (node j h a b) r = sym (append_assoc (keys a) (j ∷ keys b) (k ∷ keys r))

rotate_left-keys : (k : ℤ) (l r : AvlNode) → keys (rotate_left k l r) ≡ keys l ++ k ∷ keys r
unfolding keys
rotate_left-keys k l null = refl
rotate_left-keys k l (node j h a b) = append_assoc (keys l) (k ∷ keys a) (j ∷ keys b)

left_heavy-keys : (k : ℤ) (l r : AvlNode) → keys (left_heavy k l r) ≡ keys l ++ k ∷ keys r
unfolding keys
left_heavy-keys k null r = refl
left_heavy-keys k (node j h a b) r = elim (Bool-cases (leb (cached b) (cached a))) [
  | inl outer ↦ rw outer (rotate_right-keys k (node j h a b) r)
  | inr inner ↦ rw inner (
      rotate_right-keys k (rotate_left j a b) r
      ∙ ap (λ xs. xs ++ k ∷ keys r) (rotate_left-keys j a b))
]

right_heavy-keys : (k : ℤ) (l r : AvlNode) → keys (right_heavy k l r) ≡ keys l ++ k ∷ keys r
unfolding keys
right_heavy-keys k l null = refl
right_heavy-keys k l (node j h a b) = elim (Bool-cases (leb (cached a) (cached b))) [
  | inl outer ↦ rw outer (rotate_left-keys k l (node j h a b))
  | inr inner ↦ rw inner (
      rotate_left-keys k l (rotate_right j a b)
      ∙ ap (λ xs. keys l ++ k ∷ xs) (rotate_right-keys j a b))
]

-- A rotation leaves the keys in their order.
pub rebalanced-keys : (k : ℤ) (l r : AvlNode) → keys (rebalanced k l r) ≡ keys l ++ k ∷ keys r
unfolding rebalanced keys
rebalanced-keys k l r = elim (Bool-cases (ltb (suc (cached r)) (cached l))) [
  | inl left ↦ rw left (left_heavy-keys k l r)
  | inr not_left ↦ elim (Bool-cases (ltb (suc (cached l)) (cached r))) [
    | inl right ↦ rw (not_left, right) (right_heavy-keys k l r)
    | inr not_right ↦ rw (not_left, not_right) refl
  ]
]

-- The smallest key comes first.
pub pop_least-keys :
    (k : ℤ) (l r : AvlNode) → (pop_least k l r).0 ∷ keys (pop_least k l r).1 ≡ keys l ++ k ∷ keys r
unfolding pop_least keys
pop_least-keys k null r = refl
pop_least-keys k (node j h a b) r =
    ap (λ xs. (pop_least j a b).0 ∷ xs) (rebalanced-keys k (pop_least j a b).1 r)
    ∙ ap (λ xs. xs ++ k ∷ keys r) (pop_least-keys j a b)

pub joined-keys : (l r : AvlNode) → keys (joined l r) ≡ keys l ++ keys r
unfolding keys
joined-keys l null = sym (append-nil (keys l))
joined-keys l (node j h a b) =
    rebalanced-keys (pop_least j a b).0 l (pop_least j a b).1
    ∙ ap (λ xs. keys l ++ xs) (pop_least-keys j a b)
