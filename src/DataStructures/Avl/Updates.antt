-- ===== src/DataStructures/Avl/Updates.antt =====
-- Insertion and removal in a tree of ProperDS/src/avl.h.
pub mod Sorted
pub mod Removed
use low_level.Prelude.{
  ℕ, suc, ◌+◌, ◌≤◌, ◌≡◌, refl, sym, ap, ◌∙◌, Bool, true, false, max, if◌then◌else◌, Bool-cases, inl,
  inr, arith, dec_lt,
}
use low_level.Prelude.Int.{ℤ, ltb_ℤ}
use low_level.DataStructures.Avl.{
  AvlNode, null, node, height, rebalanced, inserted, pop_least, joined, removed,
}
use low_level.DataStructures.Avl.Balance.{Good, rebalanced-Good}

-- `t'` is a balanced tree as high as `t`, or one higher.
abbrev Grown : AvlNode → AvlNode → Type 0
Grown t t' = Good t' × (height t ≤ height t') × (height t' ≤ suc (height t))

-- `t'` is a balanced tree as high as `t`, or one lower.
abbrev Shrunk : AvlNode → AvlNode → Type 0
Shrunk t t' = Good t' × (height t' ≤ height t) × (height t ≤ suc (height t'))

-- Subtrees of the heights `a` and `b`, of which the first becomes `a'`; the tree becomes `n` high.
module _ (a b a' n : ℕ) (le : a ≤ suc b) (le' : b ≤ suc a) (low : max a' b ≤ n)
    (high : n ≤ suc (max a' b)) (exact : a' ≤ suc b → b ≤ suc a' → n ≡ suc (max a' b)) where
  after_growth : a ≤ a' → a' ≤ suc a → (suc (max a b) ≤ n) × (n ≤ suc (suc (max a b)))
  after_growth lo hi = elim (dec_lt (suc b) a') [
    | yes over ↦ (omega (arith, over, low, hi, le), omega (arith, over, high, hi, le))
    | no near ↦
        let e : n ≡ suc (max a' b) = exact (omega (arith, near)) (omega (arith, le', lo)) in
        (omega (arith, e, lo), omega (arith, e, hi))
  ]

  after_loss : a' ≤ a → a ≤ suc a' → (n ≤ suc (max a b)) × (suc (max a b) ≤ suc n)
  after_loss hi lo = elim (dec_lt (suc a') b) [
    | yes over ↦ (omega (arith, over, high, lo, le'), omega (arith, over, low, lo, le'))
    | no near ↦
        let e : n ≡ suc (max a' b) = exact (omega (arith, le, hi)) (omega (arith, near)) in
        (omega (arith, e, hi), omega (arith, e, lo))
  ]

module _ (k : ℤ) (h : ℕ) (l r : AvlNode) (good : Good (node k h l r)) where
  Grown-left : (l' : AvlNode) → Grown l l' → Grown (node k h l r) (rebalanced k l' r)
  unfolding Good height
  Grown-left l' (good', lo, hi) =
      let (cache, le, le', good_l, good_r) = good in
      let ((g, low, high), exact) =
        rebalanced-Good k l' r good' good_r (omega (arith, hi, le)) (omega (arith, lo, le')) in
      let (more, less) =
        after_growth (height l) (height r) (height l') (height (rebalanced k l' r)) le le' low high
          exact lo hi in
      (g, more, less)

  Grown-right : (r' : AvlNode) → Grown r r' → Grown (node k h l r) (rebalanced k l r')
  unfolding Good height
  Grown-right r' (good', lo, hi) =
      let (cache, le, le', good_l, good_r) = good in
      let ((g, low, high), exact) =
        rebalanced-Good k l r' good_l good' (omega (arith, lo, le)) (omega (arith, hi, le')) in
      let (more, less) =
        after_growth (height r) (height l) (height r') (height (rebalanced k l r')) le' le
          (omega (arith, low)) (omega (arith, high)) (λ p q. omega (arith, exact q p)) lo hi in
      (g, omega (arith, more), omega (arith, less))

  Shrunk-left : (l' : AvlNode) → Shrunk l l' → Shrunk (node k h l r) (rebalanced k l' r)
  unfolding Good height
  Shrunk-left l' (good', hi, lo) =
      let (cache, le, le', good_l, good_r) = good in
      let ((g, low, high), exact) =
        rebalanced-Good k l' r good' good_r (omega (arith, hi, le)) (omega (arith, lo, le')) in
      let (less, more) =
        after_loss (height l) (height r) (height l') (height (rebalanced k l' r)) le le' low high
          exact hi lo in
      (g, less, more)

  Shrunk-right : (r' : AvlNode) → Shrunk r r' → Shrunk (node k h l r) (rebalanced k l r')
  unfolding Good height
  Shrunk-right r' (good', hi, lo) =
      let (cache, le, le', good_l, good_r) = good in
      let ((g, low, high), exact) =
        rebalanced-Good k l r' good_l good' (omega (arith, lo, le)) (omega (arith, hi, le')) in
      let (less, more) =
        after_loss (height r) (height l) (height r') (height (rebalanced k l r')) le' le
          (omega (arith, low)) (omega (arith, high)) (λ p q. omega (arith, exact q p)) hi lo in
      (g, omega (arith, less), omega (arith, more))

pub inserted-Good : (t : AvlNode) (x : ℤ) → Good t → Grown t (inserted t x)
unfolding inserted Good height
inserted-Good null x good = ((refl, omega arith, omega arith, tt, tt), omega arith, omega arith)
inserted-Good (node k h l r) x good = elim (Bool-cases (ltb_ℤ x k)) [
  | inl less ↦ rw less (Grown-left k h l r good (inserted l x) (inserted-Good l x good.3))
  | inr not_less ↦ elim (Bool-cases (ltb_ℤ k x)) [
    | inl more ↦
        rw (not_less, more) (Grown-right k h l r good (inserted r x) (inserted-Good r x good.4))
    | inr same ↦ rw (not_less, same) (good, omega arith, omega arith)
  ]
]

pop_least-Good :
    (k : ℤ) (h : ℕ) (l r : AvlNode)
    → Good (node k h l r)
    → Shrunk (node k h l r) (pop_least k l r).1
unfolding pop_least Good height
pop_least-Good k h null r good = (good.4, omega arith, omega (arith, good.2))
pop_least-Good k h (node j i a b) r good =
    Shrunk-left k h (node j i a b) r good (pop_least j a b).1 (pop_least-Good j i a b good.3)

joined-Good :
    (k : ℤ) (h : ℕ) (l r : AvlNode) → Good (node k h l r) → Shrunk (node k h l r) (joined l r)
unfolding Good height
joined-Good k h l null good = (good.3, omega arith, omega (arith, good.1))
joined-Good k h l (node j i a b) good =
    Shrunk-right (pop_least j a b).0 h l (node j i a b) good (pop_least j a b).1
      (pop_least-Good j i a b good.4)

pub removed-Good : (t : AvlNode) (x : ℤ) → Good t → Shrunk t (removed t x)
unfolding removed Good height
removed-Good null x good = (tt, omega arith, omega arith)
removed-Good (node k h l r) x good = elim (Bool-cases (ltb_ℤ x k)) [
  | inl less ↦ rw less (Shrunk-left k h l r good (removed l x) (removed-Good l x good.3))
  | inr not_less ↦ elim (Bool-cases (ltb_ℤ k x)) [
    | inl more ↦
        rw (not_less, more) (Shrunk-right k h l r good (removed r x) (removed-Good r x good.4))
    | inr same ↦ rw (not_less, same) (joined-Good k h l r good)
  ]
]
