-- ===== src/DataStructures/Avl/Height.antt =====
-- How the invariant of ProperDS/src/avl.h bounds the height of a tree.
use native.Mathlib.Nat.{pow-suc}
use low_level.Prelude.{
  ℕ, zero, suc, ◌+◌, ◌/◌, ◌^◌, ◌≤◌, ◌≡◌, refl, true, max, arith, dec_lt, inl, inr, ◌⊎◌, ◌∙◌, length,
}
use low_level.DataStructures.Bst.{node_count}
use low_level.DataStructures.Bst.Inorder.{IsStrict, inorder-IsStrict, length-inorder}
use low_level.DataStructures.Avl.{
  AvlNode, null, node, Avl, keys_of, cached, height, caches_right, balanced, IsAvl, avl_height,
  avl_size, avl_inorder,
}

-- A valid cache is the height.
cached-height : (t : AvlNode) → caches_right t ≡ true → cached t ≡ height t
unfolding caches_right height
cached-height null h = refl
cached-height (node k c l r) h = ground (arith, h)

-- The fewest nodes that a balanced tree of a height has: a Fibonacci number less one.
unfoldable pub fewest : ℕ → ℕ
fewest zero = 0
fewest (suc zero) = 1
fewest (suc (suc n)) = suc (fewest (suc n) + fewest n)

fewest_mono : (n : ℕ) → fewest n ≤ fewest (suc n)
unfolding fewest
fewest_mono zero = omega arith
fewest_mono (suc n) = omega arith

fewest_next : (n : ℕ) → fewest (suc n) ≤ suc (fewest n + fewest n)
unfolding fewest
fewest_next zero = omega arith
fewest_next (suc n) = omega (arith, fewest_mono n)

-- One subtree has the height less one, and the other at most one less than that.
fewest_join : (m n : ℕ) → m ≤ suc n → n ≤ suc m → fewest (suc (max m n)) ≤ suc (fewest m + fewest n)
unfolding fewest
fewest_join m n h h' = elim (three m n h h') [
  | inl same ↦ let top : max m n ≡ n = omega arith in rw (top, same) (fewest_next n)
  | inr (inl more) ↦ let top : max m n ≡ suc n = omega arith in rw (top, more) (omega arith)
  | inr (inr less) ↦ let top : max m n ≡ suc m = omega arith in rw (top, less) (omega arith)
]
  where
    three : (m n : ℕ) → m ≤ suc n → n ≤ suc m → (m ≡ n) ⊎ ((m ≡ suc n) ⊎ (n ≡ suc m))
    three m n h h' = elim (dec_lt m n) [
      | yes less ↦ inr (inr (omega arith))
      | no above ↦ elim (dec_lt n m) [
        | yes more ↦ inr (inl (omega arith))
        | no equal ↦ inl (omega arith)
      ]
    ]

balanced-fewest : (t : AvlNode) → balanced t ≡ true → fewest (height t) ≤ node_count (keys_of t)
unfolding balanced height node_count keys_of fewest
balanced-fewest null h = omega arith
balanced-fewest (node k c l r) h = omega (
  arith,
  fewest_join (height l) (height r) (ground (arith, h)) (ground (arith, h)),
  balanced-fewest l (ground (arith, h)),
  balanced-fewest r (ground (arith, h)),
)

fewest-pow : (n : ℕ) → 2 ^ (n / 2) ≤ fewest n + 1
unfolding fewest
fewest-pow zero = omega arith
fewest-pow (suc zero) = omega arith
fewest-pow (suc (suc n)) =
    let half : suc (suc n) / 2 ≡ suc (n / 2) = omega arith in
    rw half (omega (arith, pow-suc 2 (n / 2), fewest-pow n, fewest_mono n))

-- In a valid tree the height that the root caches is the real one, a tree of that height has at
-- least the Fibonacci number of nodes, so that the height is at most twice the binary logarithm of
-- one more than the size; and avl_inorder lists as many
-- keys as avl_size says, in strictly ascending order.
pub avl_height_bound :
    (t : Avl)
    → IsAvl t
    → (avl_height t ≡ height t.root)
      × (fewest (avl_height t) ≤ avl_size t)
      × (2 ^ (avl_height t / 2) ≤ avl_size t + 1)
      × IsStrict (avl_inorder t)
      × (length (avl_inorder t) ≡ avl_size t)
avl_height_bound t valid =
    let exact = cached-height t.root (ground (arith, valid)) in
    let count : node_count (keys_of t.root) ≡ t.size = ground (arith, valid) in
    let enough : fewest (avl_height t) ≤ t.size =
      rw exact (omega (arith, count, balanced-fewest t.root (ground (arith, valid)))) in
    (
      exact,
      enough,
      omega (arith, enough, fewest-pow (avl_height t)),
      inorder-IsStrict (keys_of t.root) (ground (arith, valid)),
      length-inorder (keys_of t.root) ∙ count,
    )
