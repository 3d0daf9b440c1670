-- ===== src/DataStructures/Sorting.antt =====
-- ProperDS/src/sorting.h: five sorts of an array, with one contract. Their costs and their choices
-- of a pivot are not modelled.
pub mod Agreement
use mathlib.Core.List.{Perm}
use low_level.Prelude.{List}
use low_level.Prelude.Int.{ℤ}
use low_level.DataStructures.Search.{IsAscending}

-- `a[0..n)` ascending afterwards, and the same elements as before.
abbrev pub IsSort : (List ℤ → List ℤ) → Type 0
IsSort sort = (a : List ℤ) → IsAscending (sort a) × Perm (sort a) a

pub record Sorting : Type 0 where
  pub insertion_sort : List ℤ → List ℤ
  pub merge_sort : List ℤ → List ℤ
  pub quick_sort : List ℤ → List ℤ
  pub heap_sort_arr : List ℤ → List ℤ
  pub hybrid_sort : List ℤ → List ℤ
  pub insertion_sort-IsSort : IsSort insertion_sort
  pub merge_sort-IsSort : IsSort merge_sort
  pub quick_sort-IsSort : IsSort quick_sort
  pub heap_sort_arr-IsSort : IsSort heap_sort_arr
  pub hybrid_sort-IsSort : IsSort hybrid_sort
