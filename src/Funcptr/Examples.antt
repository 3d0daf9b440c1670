-- ===== src/Funcptr/Examples.antt =====
-- Runs of the functions of ProperC/src/funcptr.c, and their theorems at arrays of its tests.
use mathlib.Core.List.{Perm, foldl}
use low_level.Prelude.{
  ◌≡◌, refl, Bool, some, List, [], ◌∷◌, ◌++◌, map, arith, take, drop, if◌then◌else◌,
}
use low_level.Prelude.Int.{ℤ, pos, negsuc, ◌+ℤ◌, ltb_ℤ}
use low_level.Funcptr.{int_map, int_filter, int_reduce, sort_ints}
use low_level.Funcptr.Loops.{passing, int_map-map, int_filter-passing, int_reduce-foldl}
use low_level.Funcptr.Order.{IsOrder, IsSorted, sort_ints-IsSorted}

-- `(a > b) - (a < b)`
abbrev ascending : ℤ → ℤ → ℤ
ascending a b = if ltb_ℤ b a then pos 1 else (if ltb_ℤ a b then negsuc 0 else pos 0)

-- Positive where `a` comes after `b`, but never 1.
abbrev by_two : ℤ → ℤ → ℤ
by_two a b = if ltb_ℤ b a then pos 2 else (if ltb_ℤ a b then negsuc 1 else pos 0)

abbrev numbers : List ℤ
numbers = pos 3 ∷ pos 1 ∷ negsuc 4 ∷ pos 5 ∷ pos 4 ∷ []

abbrev is_positive : ℤ → Bool
is_positive = ltb_ℤ (pos 0)

ascending-IsOrder : IsOrder ascending
ascending-IsOrder = record { asym = λ x y h. ground arith; trans = λ x y z h h'. ground arith }

sorts : sort_ints numbers 5 ascending ≡ some (negsuc 4 ∷ pos 1 ∷ pos 3 ∷ pos 4 ∷ pos 5 ∷ [])
unfolding sort_ints
sorts = refl

int_map-map_test :
    int_map numbers 2 (λ x. x +ℤ x) ≡ some (map (λ x. x +ℤ x) (take 2 numbers) ++ drop 2 numbers)
int_map-map_test = int_map-map numbers 2 (λ x. x +ℤ x) (omega arith)

int_filter-passing_example :
    int_filter numbers 4 numbers is_positive
    ≡ some (record { dst = pos 3 ∷ pos 1 ∷ pos 5 ∷ pos 5 ∷ pos 4 ∷ []; count = 3 })
unfolding passing
int_filter-passing_example =
    int_filter-passing numbers 4 numbers is_positive (omega arith) (omega arith)

int_reduce-foldl_test :
    int_reduce numbers 3 (pos 10) ◌+ℤ◌ ≡ some (foldl ◌+ℤ◌ (pos 10) (take 3 numbers))
int_reduce-foldl_test = int_reduce-foldl numbers 3 (pos 10) ◌+ℤ◌ (omega arith)

sort_ints-IsSorted_example :
    (sorted : List ℤ) × (sort_ints numbers 4 ascending ≡ some (sorted ++ drop 4 numbers))
    × Perm sorted (take 4 numbers)
    × IsSorted ascending sorted
sort_ints-IsSorted_example =
    sort_ints-IsSorted numbers 4 ascending ascending-IsOrder (omega arith) (omega arith)
      (omega arith)
