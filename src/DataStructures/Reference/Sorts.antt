-- ===== src/DataStructures/Reference/Sorts.antt =====
-- An insertion sort that keeps the laws of the sorts of ProperDS/src/sorting.h.
use mathlib.Core.List.{Perm}
use mathlib.Core.List.Perm
use low_level.Prelude.{List, [], ◌∷◌, if◌then◌else◌, Bool-cases, inl, inr, arith}
use low_level.Prelude.Int.{ℤ, ◌≤ℤ◌, leb_ℤ}
use low_level.DataStructures.Search.{AllAtLeast, IsAscending}
use low_level.DataStructures.Search.Members.{AllAtLeast-perm}
use low_level.DataStructures.Sorting.{IsSort, Sorting}

unfoldable pub insert : ℤ → List ℤ → List ℤ
insert x [] = x ∷ []
insert x (y ∷ ys) = let rest = insert x ys in if leb_ℤ x y then x ∷ y ∷ ys else y ∷ rest

unfoldable pub sort : List ℤ → List ℤ
sort [] = []
sort (x ∷ xs) = insert x (sort xs)

pub insert-perm : (x : ℤ) (xs : List ℤ) → Perm (insert x xs) (x ∷ xs)
unfolding insert
insert-perm x [] = Perm.refl (x ∷ [])
insert-perm x (y ∷ ys) = elim (Bool-cases (leb_ℤ x y)) [
  | inl le ↦ rw le (Perm.refl (x ∷ y ∷ ys))
  | inr gt ↦ rw gt (Perm.trans (Perm.cons y (insert-perm x ys)) (Perm.swap x y ys))
]

AllAtLeast-le : (x y : ℤ) (ys : List ℤ) → x ≤ℤ y → AllAtLeast y ys → AllAtLeast x ys
AllAtLeast-le x y [] le h = tt
AllAtLeast-le x y (z ∷ zs) le h = (omega (arith, h.0), AllAtLeast-le x y zs le h.1)

insert-IsAscending : (x : ℤ) (xs : List ℤ) → IsAscending xs → IsAscending (insert x xs)
unfolding insert
insert-IsAscending x [] h = (tt, tt)
insert-IsAscending x (y ∷ ys) h = elim (Bool-cases (leb_ℤ x y)) [
  | inl le ↦ let le' : x ≤ℤ y = ground (arith, le) in rw le ((le', AllAtLeast-le x y ys le' h.0), h)
  | inr gt ↦
      let le' : y ≤ℤ x = ground (arith, gt) in
      rw gt (
        AllAtLeast-perm y (x ∷ ys) (insert x ys) (Perm.symm (insert-perm x ys)) (le', h.0),
        insert-IsAscending x ys h.1,
      )
]

pub sort-IsSort : IsSort sort
unfolding sort
sort-IsSort [] = (tt, Perm.refl [])
sort-IsSort (x ∷ xs) =
    let (asc, perm) = sort-IsSort xs in
    (insert-IsAscending x (sort xs) asc, Perm.trans (insert-perm x (sort xs)) (Perm.cons x perm))

pub insertion_sorting : Sorting
insertion_sorting = record {
  insertion_sort = sort;
  merge_sort = sort;
  quick_sort = sort;
  heap_sort_arr = sort;
  hybrid_sort = sort;
  insertion_sort-IsSort = sort-IsSort;
  merge_sort-IsSort = sort-IsSort;
  quick_sort-IsSort = sort-IsSort;
  heap_sort_arr-IsSort = sort-IsSort;
  hybrid_sort-IsSort = sort-IsSort;
}
