-- ===== src/DataStructures/Sorting/Agreement.antt =====
-- The contract of ProperDS/src/sorting.h determines the result.
use mathlib.Core.Logic.Or
use mathlib.Core.List.{Perm, Mem, mem-cons, mem-cons_self}
use mathlib.Core.List.Perm
use native.Mathlib.Bridge.{le_prop}
use low_level.Prelude.{◌-◌, ◌≡◌, ap₂, List, [], ◌∷◌, arith}
use low_level.Prelude.Int.{ℤ, ◌≤ℤ◌, eq_of_parts}
use low_level.DataStructures.Search.{AllAtLeast, IsAscending, Searching}
use low_level.DataStructures.Search.Members.{AllAtLeast-Mem}
use low_level.DataStructures.Search.Count.{occurrences, occurrences-perm, bounds_lem}
use low_level.DataStructures.Sorting.{IsSort, Sorting}

head_least : (x y : ℤ) (ys : List ℤ) → AllAtLeast y ys → Mem x (y ∷ ys) → y ≤ℤ x
head_least x y ys all m =
    Or.elim le_prop (mem-cons.0 m) (λ e. rw e (omega arith)) (AllAtLeast-Mem y x ys all)

pub ascending_unique : (xs ys : List ℤ) → IsAscending xs → IsAscending ys → Perm xs ys → xs ≡ ys
ascending_unique [] ys asc asc' p = Perm.nil-eq p
ascending_unique (x ∷ xs) [] asc asc' p = Perm.eq-nil p
ascending_unique (x ∷ xs) (y ∷ ys) asc asc' p =
    let same : x ≡ y = eq_of_parts x y (
      omega (
        arith,
        head_least x y ys asc'.0 ((Perm.mem_iff p).0 mem-cons_self),
        head_least y x xs asc.0 ((Perm.mem_iff p).1 mem-cons_self),
      )) in
    ap₂ ◌∷◌ same (ascending_unique xs ys asc.1 asc'.1 (Perm.cons_inv (rw same at p)))

sorts_agree : (f g : List ℤ → List ℤ) (a : List ℤ) → IsSort f → IsSort g → f a ≡ g a
sorts_agree f g a hf hg =
    ascending_unique (f a) (g a) (hf a).0 (hg a).0 (Perm.trans (hf a).1 (Perm.symm (hg a).1))

-- On every array the five sorts give the same result, so that one can stand for another: what the
-- header calls stable cannot be told apart on integers.
pub sorts_lem :
    (s : Sorting) (a : List ℤ)
    → (s.insertion_sort a ≡ s.merge_sort a)
      × (s.merge_sort a ≡ s.quick_sort a)
      × (s.quick_sort a ≡ s.heap_sort_arr a)
      × (s.heap_sort_arr a ≡ s.hybrid_sort a)
sorts_lem s a = (
  sorts_agree s.insertion_sort s.merge_sort a s.insertion_sort-IsSort s.merge_sort-IsSort,
  sorts_agree s.merge_sort s.quick_sort a s.merge_sort-IsSort s.quick_sort-IsSort,
  sorts_agree s.quick_sort s.heap_sort_arr a s.quick_sort-IsSort s.heap_sort_arr-IsSort,
  sorts_agree s.heap_sort_arr s.hybrid_sort a s.heap_sort_arr-IsSort s.hybrid_sort-IsSort,
)

-- Sorting an array and then taking the difference of the two bounds counts how often a key occurs
-- in the array as it was, for any functions that keep the two headers.
pub sort_then_search_lem :
    (t : Sorting) (s : Searching) (a : List ℤ) (key : ℤ)
    → s.upper_bound (t.quick_sort a) key - s.lower_bound (t.quick_sort a) key ≡ occurrences key a
sort_then_search_lem t s a key =
    let sorted = t.quick_sort-IsSort a in
    let counted = (bounds_lem s (t.quick_sort a) key sorted.0).0 in
    omega (arith, counted, occurrences-perm key sorted.1)
