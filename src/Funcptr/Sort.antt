-- ===== src/Funcptr/Sort.antt =====
-- `sort_ints` of ProperC/src/funcptr.c: a selection sort by exchanges.
use low_level.Prelude.{
  ℕ, zero, suc, ◌+◌, ◌-◌, ◌<◌, ◌≡◌, refl, ap, Bool, some, List, [], ◌∷◌, ◌++◌, append_assoc, arith,
  length, length-append, get_elem?-split, store-split, get_elem?-split_later, store-split_later,
  if◌then◌else◌, Bool-cases, inl, inr, ◌⊎◌,
}
use low_level.Prelude.Int.{ℤ}
use low_level.Funcptr.{equals_one, exchange, inner_loop, outer_loop}

module _ (cmp : ℤ → ℤ → ℤ) where
  -- Whether the code exchanges `x` and a later `y`.
  abbrev pub after : ℤ → ℤ → Bool
  after x y = equals_one (cmp x y)

  -- One run of the inner loop: what ends up in front, and what is left behind it.
  unfoldable pub front : ℤ → List ℤ → ℤ
  front x [] = x
  front x (y ∷ ys) = front (if after x y then y else x) ys

  unfoldable pub behind : ℤ → List ℤ → List ℤ
  behind x [] = []
  behind x (y ∷ ys) = (if after x y then x else y) ∷ behind (if after x y then y else x) ys

  -- The exchange at two positions that a split of the array shows.
  exchange_split :
      (pre mid post : List ℤ) (x y : ℤ) {i j : ℕ}
      → i ≡ length pre
      → j ≡ length pre + 1 + length mid
      → exchange cmp i j (pre ++ x ∷ (mid ++ y ∷ post))
        ≡ some (pre ++ (if after x y then y else x) ∷ (mid ++ (if after x y then x else y) ∷ post))
  unfolding exchange
  exchange_split pre mid post x y e e' =
      rw (get_elem?-split pre x (mid ++ y ∷ post) e, get_elem?-split_later pre x mid y post e')
        (elim (Bool-cases (after x y)) [
          | inl yes_after ↦
              rw
                (
                  yes_after,
                  store-split pre x (mid ++ y ∷ post) y e,
                  store-split_later pre y mid y post x e',
                )
                refl
          | inr not_after ↦ rw not_after refl
        ])

  inner_loop_lem :
      (ys pre mid post : List ℤ) (x : ℤ) {i : ℕ} (j : ℕ)
      → i ≡ length pre
      → j ≡ length pre + 1 + length mid
      → inner_loop cmp (length ys) i j (pre ++ x ∷ (mid ++ (ys ++ post)))
        ≡ some (pre ++ front x ys ∷ (mid ++ (behind x ys ++ post)))
  unfolding inner_loop front behind
  inner_loop_lem [] pre mid post x j e e' = refl
  inner_loop_lem (y ∷ ys) pre mid post x j e e' =
      let x' = if after x y then y else x in
      let y' = if after x y then x else y in
      rw (exchange_split pre mid (ys ++ post) x y e e') (
        rw
          (
            append_assoc mid (y' ∷ []) (ys ++ post),
            append_assoc mid (y' ∷ []) (behind x' ys ++ post),
          )
          at
          (inner_loop_lem ys pre (mid ++ y' ∷ []) post x' (j + 1) e
            (omega (arith, length-append mid (y' ∷ [])))))

  -- The sort that the outer loop makes in `k` rounds.
  unfoldable pub selection : ℕ → List ℤ → List ℤ
  selection zero xs = xs
  selection (suc k) [] = []
  selection (suc k) (x ∷ xs) = front x xs ∷ selection k (behind x xs)

  pub length-behind : (x : ℤ) (ys : List ℤ) → length (behind x ys) ≡ length ys
  unfolding behind
  length-behind x [] = refl
  length-behind x (y ∷ ys) = ap suc (length-behind (if after x y then y else x) ys)

  pub outer_loop-selection :
      (k : ℕ) (xs pre post : List ℤ) (n i : ℕ)
      → i ≡ length pre
      → n ≡ length pre + length xs
      → (k ≡ 0) ⊎ (k < length xs)
      → outer_loop cmp n k i (pre ++ (xs ++ post)) ≡ some (pre ++ (selection k xs ++ post))
  unfolding outer_loop selection
  outer_loop-selection zero xs pre post n i e e' h = refl
  outer_loop-selection (suc k) [] pre post n i e e' h = absurd (omega arith)
  outer_loop-selection (suc k) (x ∷ xs) pre post n i e e' h =
      let rounds : n - (i + 1) ≡ length xs = omega arith in
      let run = inner_loop_lem xs pre [] post x (i + 1) e (omega arith) in
      rw (rounds, run)
        (rw
          (
            append_assoc pre (front x xs ∷ []) (behind x xs ++ post),
            append_assoc pre (front x xs ∷ []) (selection k (behind x xs) ++ post),
          )
          at
          (outer_loop-selection k (behind x xs) (pre ++ front x xs ∷ []) post n (i + 1)
            (omega (arith, length-append pre (front x xs ∷ [])))
            (omega (arith, length-append pre (front x xs ∷ []), length-behind x xs))
            (omega (arith, length-behind x xs))))
