-- ===== src/Funcptr/Order.antt =====
-- When `sort_ints` of ProperC/src/funcptr.c sorts, and when it does not.
use mathlib.Core.List.{Perm}
use mathlib.Core.List.Perm
use low_level.Prelude.{
  ℕ, zero, suc, ◌+◌, ◌-◌, ◌^◌, ◌≤◌, ◌<◌, ◌≡◌, refl, true, false, some, List, [], ◌∷◌, ◌++◌, arith,
  length, take, drop, take-append-drop, length-take, if◌then◌else◌, Bool-cases, inl, inr,
}
use low_level.Prelude.Int.{ℤ}
use low_level.Funcptr.{outer_rounds, sort_ints}
use low_level.Funcptr.Sort.{after, front, behind, length-behind, selection, outer_loop-selection}

-- What `sort_ints` needs of `cmp`: its results that equal 1 are those for "sorts after", which is
-- asymmetric, and whose negation is transitive.
pub record IsOrder (cmp : ℤ → ℤ → ℤ) : Type 0 where
  pub asym : (x y : ℤ) → after cmp x y ≡ true → after cmp y x ≡ false
  pub trans : (x y z : ℤ) → after cmp x y ≡ false → after cmp y z ≡ false → after cmp x z ≡ false

abbrev pub NoneBefore : (ℤ → ℤ → ℤ) → ℤ → List ℤ → Type 0
NoneBefore cmp x [] = Unit
NoneBefore cmp x (y ∷ ys) = (after cmp x y ≡ false) × NoneBefore cmp x ys

-- No element sorts after one that stands behind it.
abbrev pub IsSorted : (ℤ → ℤ → ℤ) → List ℤ → Type 0
IsSorted cmp [] = Unit
IsSorted cmp (x ∷ xs) = NoneBefore cmp x xs × IsSorted cmp xs

module _ (cmp : ℤ → ℤ → ℤ) where
  -- A run of the inner loop loses no element and makes none.
  front-perm : (x : ℤ) (ys : List ℤ) → Perm (front cmp x ys ∷ behind cmp x ys) (x ∷ ys)
  unfolding front behind
  front-perm x [] = Perm.refl (x ∷ [])
  front-perm x (y ∷ ys) = elim (Bool-cases (after cmp x y)) [
    | inl h ↦ rw h (
        Perm.trans (Perm.swap x (front cmp y ys) (behind cmp y ys)) (Perm.cons x (front-perm y ys)))
    | inr h ↦ rw h (
        Perm.trans (Perm.swap y (front cmp x ys) (behind cmp x ys))
          (Perm.trans (Perm.cons y (front-perm x ys)) (Perm.swap x y ys)))
  ]

  module _ (o : IsOrder cmp) where
    refl_after : (x : ℤ) → after cmp x x ≡ false
    refl_after x = ground (arith, o.asym x x)

    -- What sorts after neither of the pair's smaller element sorts after neither of the pair.
    exchange_bound :
        (m x y : ℤ)
        → after cmp m (if after cmp x y then y else x) ≡ false
        → (after cmp m x ≡ false) × (after cmp m (if after cmp x y then x else y) ≡ false)
    exchange_bound m x y h = elim (Bool-cases (after cmp x y)) [
      | inl e ↦
          let low : after cmp m y ≡ false = rw e at h in
          let high = o.trans m y x low (o.asym x y e) in (high, rw e high)
      | inr e ↦ let low : after cmp m x ≡ false = rw e at h in (low, rw e (o.trans m x y low e))
    ]

    -- The element that ends up in front sorts after none of the others.
    front-NoneBefore :
        (x : ℤ) (ys : List ℤ)
        → (after cmp (front cmp x ys) x ≡ false) × NoneBefore cmp (front cmp x ys) (behind cmp x ys)
    unfolding front behind
    front-NoneBefore x [] = (refl_after x, tt)
    front-NoneBefore x (y ∷ ys) =
        let (first, rest) = front-NoneBefore (if after cmp x y then y else x) ys in
        let (high, low) =
          exchange_bound (front cmp (if after cmp x y then y else x) ys) x y first in
        (high, (low, rest))

  -- What sorts before all elements still does after a run, and after the whole sort.
  NoneBefore-front :
      (m x : ℤ) (ys : List ℤ)
      → NoneBefore cmp m (x ∷ ys)
      → NoneBefore cmp m (front cmp x ys ∷ behind cmp x ys)
  unfolding front behind
  NoneBefore-front m x [] h = h
  NoneBefore-front m x (y ∷ ys) (hx, (hy, h)) =
      let small : after cmp m (if after cmp x y then y else x) ≡ false = ground arith in
      let large : after cmp m (if after cmp x y then x else y) ≡ false = ground arith in
      let (first, rest) = NoneBefore-front m (if after cmp x y then y else x) ys (small, h) in
      (first, (large, rest))

  NoneBefore-selection :
      (m : ℤ) (k : ℕ) (xs : List ℤ) → NoneBefore cmp m xs → NoneBefore cmp m (selection cmp k xs)
  unfolding selection
  NoneBefore-selection m zero xs h = h
  NoneBefore-selection m (suc k) [] h = h
  NoneBefore-selection m (suc k) (x ∷ xs) h =
      let (first, rest) = NoneBefore-front m x xs h in
      (first, NoneBefore-selection m k (behind cmp x xs) rest)

  -- In one round fewer than it has elements, the selection has a list sorted.
  selection-perm : (k : ℕ) (xs : List ℤ) → Perm (selection cmp k xs) xs
  unfolding selection
  selection-perm zero xs = Perm.refl xs
  selection-perm (suc k) [] = Perm.refl []
  selection-perm (suc k) (x ∷ xs) =
      Perm.trans (Perm.cons (front cmp x xs) (selection-perm k (behind cmp x xs))) (front-perm x xs)

  selection-IsSorted :
      IsOrder cmp → (k : ℕ) (xs : List ℤ) → length xs ≤ k + 1 → IsSorted cmp (selection cmp k xs)
  unfolding selection
  selection-IsSorted o zero [] h = tt
  selection-IsSorted o zero (x ∷ []) h = (tt, tt)
  selection-IsSorted o zero (x ∷ y ∷ xs) h = absurd (omega arith)
  selection-IsSorted o (suc k) [] h = tt
  selection-IsSorted o (suc k) (x ∷ xs) h = (
    NoneBefore-selection (front cmp x xs) k (behind cmp x xs) (front-NoneBefore o x xs).1,
    selection-IsSorted o k (behind cmp x xs) (omega (arith, length-behind cmp x xs)),
  )

-- The whole sort of a non-empty part of an array.
sort_ints-selection :
    (arr : List ℤ) (n : ℕ) (cmp : ℤ → ℤ → ℤ)
    → 1 ≤ n
    → n < 2 ^ 64
    → n ≤ length arr
    → sort_ints arr n cmp ≡ some (selection cmp (n - 1) (take n arr) ++ drop n arr)
unfolding sort_ints
sort_ints-selection arr n cmp nonempty small h =
    let size : length (take n arr) ≡ n = omega (arith, length-take n arr) in
    let rounds : outer_rounds n ≡ n - 1 = omega arith in
    let run =
      outer_loop-selection cmp (n - 1) (take n arr) [] (drop n arr) n 0 refl (omega arith)
        (omega arith) in
    rw rounds (rw (take-append-drop n arr) at run)

-- For a comparison that returns 1 exactly for what sorts after, in a total preorder, and for an
-- array of at least `n` elements with `n` not 0, `sort_ints` leaves a sorted permutation of the
-- first `n` elements in their place and the others as they were.
pub sort_ints-IsSorted :
    (arr : List ℤ) (n : ℕ) (cmp : ℤ → ℤ → ℤ)
    → IsOrder cmp
    → 1 ≤ n
    → n < 2 ^ 64
    → n ≤ length arr
    → (sorted : List ℤ) × (sort_ints arr n cmp ≡ some (sorted ++ drop n arr))
      × Perm sorted (take n arr)
      × IsSorted cmp sorted
sort_ints-IsSorted arr n cmp o nonempty small h = (
  selection cmp (n - 1) (take n arr),
  sort_ints-selection arr n cmp nonempty small h,
  selection-perm cmp (n - 1) (take n arr),
  selection-IsSorted cmp o (n - 1) (take n arr) (omega (arith, length-take n arr)),
)
