-- ===== src/DataStructures/Avl/Balance.antt =====
-- Rotations keep the tree of ProperDS/src/avl.h balanced.
use low_level.Prelude.{
  ℕ, suc, ◌≤◌, ◌≡◌, refl, sym, true, max, leb, ltb, Bool-cases, inl, inr, arith,
}
use low_level.Prelude.Int.{ℤ}
use low_level.DataStructures.Avl.{
  AvlNode, null, node, cached, height, caches_right, balanced, made, rotate_right, rotate_left,
  left_heavy, right_heavy, rebalanced,
}

-- Every cache is right and every balance factor is -1, 0 or 1.
unfoldable pub Good : AvlNode → Type 0
Good null = Unit {0}
Good (node k h l r) =
    (h ≡ suc (max (height l) (height r)))
    × (height l ≤ suc (height r))
    × (height r ≤ suc (height l))
    × Good l
    × Good r

pub Good-of_tests : (t : AvlNode) → caches_right t ≡ true → balanced t ≡ true → Good t
unfolding Good caches_right balanced height
Good-of_tests null c b = tt
Good-of_tests (node k h l r) c b = (
  ground (arith, c),
  ground (arith, b),
  ground (arith, b),
  Good-of_tests l (ground (arith, c)) (ground (arith, b)),
  Good-of_tests r (ground (arith, c)) (ground (arith, b)),
)

pub Good-tests : (t : AvlNode) → Good t → (caches_right t ≡ true) × (balanced t ≡ true)
unfolding Good caches_right balanced height
Good-tests null good = (refl, refl)
Good-tests (node k h l r) (cache, le, le', good, good') =
    let (c, b) = Good-tests l good in
    let (c', b') = Good-tests r good' in
    (ground (arith, c, c', cache), ground (arith, b, b', le, le'))

pub Good-cached : (t : AvlNode) → Good t → cached t ≡ height t
unfolding Good height
Good-cached null good = refl
Good-cached (node k h l r) good = good.0

-- The subtrees need no rotation.
made-Good :
    (k : ℤ) (l r : AvlNode)
    → Good l
    → Good r
    → height l ≤ suc (height r)
    → height r ≤ suc (height l)
    → Good (made k l r) × (height (made k l r) ≡ suc (max (height l) (height r)))
unfolding Good height
made-Good k l r good good' le le' =
    ((omega (arith, Good-cached l good, Good-cached r good'), le, le', good, good'), refl)

-- What a rotation leaves, where the higher subtree has the height `n`.
abbrev Rotated : ℕ → AvlNode → Type 0
Rotated n t = Good t × (n ≤ height t) × (height t ≤ suc n)

-- With the outer subtree as high as the inner one, or higher, one rotation is enough ...
rotate_right-Good :
    (k : ℤ) (j : ℤ) (h : ℕ) (a b r : AvlNode)
    → Good (node j h a b)
    → Good r
    → height a ≡ suc (height r)
    → height b ≤ height a
    → Rotated (suc (height a)) (rotate_right k (node j h a b) r)
unfolding Good height
rotate_right-Good k j h a b r (cache, le, le', good_a, good_b) good' high outer =
    let (inner, inner_height) =
      made-Good k b r good_b good' (omega (arith, high, outer)) (omega (arith, high, le)) in
    let (whole, whole_height) =
      made-Good j a (made k b r) good_a inner (omega (arith, inner_height, high))
        (omega (arith, inner_height, high, outer)) in
    (
      whole,
      omega (arith, whole_height, inner_height, high, le),
      omega (arith, whole_height, inner_height, high, outer),
    )

rotate_left-Good :
    (k : ℤ) (l : AvlNode) (j : ℤ) (h : ℕ) (a b : AvlNode)
    → Good l
    → Good (node j h a b)
    → height b ≡ suc (height l)
    → height a ≤ height b
    → Rotated (suc (height b)) (rotate_left k l (node j h a b))
unfolding Good height
rotate_left-Good k l j h a b good (cache, le, le', good_a, good_b) high outer =
    let (inner, inner_height) =
      made-Good k l a good good_a (omega (arith, high, le')) (omega (arith, high, outer)) in
    let (whole, whole_height) =
      made-Good j (made k l a) b inner good_b (omega (arith, inner_height, high, outer))
        (omega (arith, inner_height, high)) in
    (
      whole,
      omega (arith, whole_height, inner_height, high, le'),
      omega (arith, whole_height, inner_height, high, outer),
    )

-- ... and otherwise two, around the root `m` of the inner subtree.
double-Good :
    (j m k : ℤ) (a b c d : AvlNode)
    → Good a
    → Good b
    → Good c
    → Good d
    → height a ≡ height d
    → max (height b) (height c) ≡ height a
    → height b ≤ suc (height c)
    → height c ≤ suc (height b)
    → Rotated (suc (suc (height a))) (made m (made j a b) (made k c d))
unfolding Good height
double-Good j m k a b c d ga gb gc gd same top le le' =
    let (left, left_height) = made-Good j a b ga gb (omega (arith, top, le)) (omega (arith, top)) in
    let (right, right_height) =
      made-Good k c d gc gd (omega (arith, top, same)) (omega (arith, top, same, le')) in
    let (whole, whole_height) =
      made-Good m (made j a b) (made k c d) left right
        (omega (arith, left_height, right_height, same, top))
        (omega (arith, left_height, right_height, same, top)) in
    (
      whole,
      omega (arith, whole_height, left_height, right_height, same, top),
      omega (arith, whole_height, left_height, right_height, same, top),
    )

double_right-Good :
    (k j : ℤ) (a b r : AvlNode)
    → Good a
    → Good b
    → Good r
    → height b ≡ suc (height a)
    → height a ≡ height r
    → Rotated (suc (height b)) (rotate_right k (rotate_left j a b) r)
unfolding Good height
double_right-Good k j a null r ga gb gr e same = absurd (omega (arith, e))
double_right-Good k j a (node m h c d) r ga (cache, le, le', gc, gd) gr e same =
    let (g, lo, hi) = double-Good j m k a c d r ga gc gd gr same (omega (arith, e)) le le' in
    (g, omega (arith, lo, e), omega (arith, hi, e))

double_left-Good :
    (k j : ℤ) (l a b : AvlNode)
    → Good l
    → Good a
    → Good b
    → height a ≡ suc (height b)
    → height l ≡ height b
    → Rotated (suc (height a)) (rotate_left k l (rotate_right j a b))
unfolding Good height
double_left-Good k j l null b gl ga gb e same = absurd (omega (arith, e))
double_left-Good k j l (node m h c d) b gl (cache, le, le', gc, gd) gb e same =
    let (g, lo, hi) = double-Good k m j l c d b gl gc gd gb same (omega (arith, e, same)) le le' in
    (g, omega (arith, lo, e, same), omega (arith, hi, e, same))

left_heavy-Good :
    (k : ℤ) (l r : AvlNode)
    → Good l
    → Good r
    → height l ≡ suc (suc (height r))
    → Rotated (height l) (left_heavy k l r)
unfolding Good height
left_heavy-Good k null r good good' high = absurd (omega (arith, high))
left_heavy-Good k (node j h a b) r (cache, le, le', good_a, good_b) good' high =
    let at_a = Good-cached a good_a in
    let at_b = Good-cached b good_b in
    elim (Bool-cases (leb (cached b) (cached a))) [
      | inl outer ↦
          let below : height b ≤ height a = ground (arith, outer, at_a, at_b) in
          let top : suc (max (height a) (height b)) ≡ suc (height a) = omega (arith, below) in
          rw (outer, top)
            (rotate_right-Good k j h a b r (cache, le, le', good_a, good_b) good'
              (omega (arith, high, below)) below)
      | inr inner ↦
          let above : suc (height a) ≡ height b = ground (arith, inner, at_a, at_b, le') in
          let top : suc (max (height a) (height b)) ≡ suc (height b) = omega (arith, above) in
          rw (inner, top)
            (double_right-Good k j a b r good_a good_b good' (sym above)
              (omega (arith, high, above)))
    ]

right_heavy-Good :
    (k : ℤ) (l r : AvlNode)
    → Good l
    → Good r
    → height r ≡ suc (suc (height l))
    → Rotated (height r) (right_heavy k l r)
unfolding Good height
right_heavy-Good k l null good good' high = absurd (omega (arith, high))
right_heavy-Good k l (node j h a b) good (cache, le, le', good_a, good_b) high =
    let at_a = Good-cached a good_a in
    let at_b = Good-cached b good_b in
    elim (Bool-cases (leb (cached a) (cached b))) [
      | inl outer ↦
          let below : height a ≤ height b = ground (arith, outer, at_a, at_b) in
          let top : suc (max (height a) (height b)) ≡ suc (height b) = omega (arith, below) in
          rw (outer, top)
            (rotate_left-Good k l j h a b good (cache, le, le', good_a, good_b)
              (omega (arith, high, below)) below)
      | inr inner ↦
          let above : suc (height b) ≡ height a = ground (arith, inner, at_a, at_b, le) in
          let top : suc (max (height a) (height b)) ≡ suc (height a) = omega (arith, above) in
          rw (inner, top)
            (double_left-Good k j l a b good good_a good_b (sym above) (omega (arith, high, above)))
    ]

-- A rotation restores the balance of a node whose subtrees differ by two, and the height of the tree
-- is that of the higher subtree, or one more; where no rotation is needed it is one more.
pub rebalanced-Good :
    (k : ℤ) (l r : AvlNode)
    → Good l
    → Good r
    → height l ≤ suc (suc (height r))
    → height r ≤ suc (suc (height l))
    → Rotated (max (height l) (height r)) (rebalanced k l r)
      × (height l ≤ suc (height r)
          → height r ≤ suc (height l)
          → height (rebalanced k l r) ≡ suc (max (height l) (height r)))
unfolding rebalanced
rebalanced-Good k l r good good' le le' =
    let at_l = Good-cached l good in
    let at_r = Good-cached r good' in
    elim (Bool-cases (ltb (suc (cached r)) (cached l))) [
      | inl left ↦
          let high : height l ≡ suc (suc (height r)) = ground (arith, left, at_l, at_r, le) in
          let (g, lo, hi) = left_heavy-Good k l r good good' high in
          rw left (
            (g, omega (arith, lo, high), omega (arith, hi, high)),
            λ a b. absurd (omega (arith, a, high)),
          )
      | inr not_left ↦ elim (Bool-cases (ltb (suc (cached l)) (cached r))) [
        | inl right ↦
            let high : height r ≡ suc (suc (height l)) = ground (arith, right, at_l, at_r, le') in
            let (g, lo, hi) = right_heavy-Good k l r good good' high in
            rw (not_left, right)
              (
                (g, omega (arith, lo, high), omega (arith, hi, high)),
                λ a b. absurd (omega (arith, b, high)),
              )
        | inr not_right ↦
            let near : height l ≤ suc (height r) = ground (arith, not_left, at_l, at_r) in
            let near' : height r ≤ suc (height l) = ground (arith, not_right, at_l, at_r) in
            let (g, e) = made-Good k l r good good' near near' in
            rw (not_left, not_right) ((g, omega (arith, e), omega (arith, e)), λ a b. e)
      ]
    ]
