-- ===== src/DataStructures/Heap.antt =====
-- ProperDS/src/heap.h: a binary min-heap in a growable array.
pub mod Root
pub mod Drain
use mathlib.Core.List.{Perm}
use low_level.Prelude.{
  ℕ, zero, suc, ◌+◌, ◌*◌, ◌≤◌, ◌<◌, ◌≡◌, Bool, true, false, ◌&&◌, Option, none, some, List, [], ◌∷◌,
  length, get_elem?, leb,
}
use low_level.Prelude.Int.{ℤ, leb_ℤ}
use low_level.DataStructures.Search.{AllAtLeast}
use low_level.DataStructures.Sorting.{IsSort}
use low_level.DataStructures.GrowArray.{GrowArray, empty, contents, IsGrowArray, has_room}

abbrev pub Heap : Type 0
Heap = GrowArray

-- Element `i` is at most its child at index `c`, if there is one.
abbrev pub below_child : List ℤ → ℕ → ℕ → Bool
below_child a i c = elim (get_elem? a i) [
  | none ↦ true
  | some x ↦ elim (get_elem? a c) [ none ↦ true | some y ↦ leb_ℤ x y ]
]

-- The children of element `i` are `2i + 1` and `2i + 2`; the first `n` elements are looked at.
unfoldable pub in_order : List ℤ → ℕ → Bool
in_order a zero = true
in_order a (suc i) = below_child a i (2 * i + 1) && below_child a i (2 * i + 2) && in_order a i

-- The invariant, as the checker of the header tests it.
abbrev pub validate : Heap → Bool
validate h = in_order (contents h) h.len && leb h.len h.cap

pub record IsHeap (h : Heap) : Type 0 where
  pub array : IsGrowArray h
  pub valid : validate h ≡ true

-- `m` is the least element of `a`, and `rest` the others.
pub record Minimum (a : List ℤ) (m : ℤ) (rest : List ℤ) : Type 0 where
  pub least : AllAtLeast m a
  pub others : Perm (m ∷ rest) a

-- The functions of the header. A value `*out` is given and returned.
pub record HeapApi (allocates : ℕ → Bool) : Type 0 where
  pub heap_init : Heap
  pub heap_free : Heap → Heap
  pub heap_push : Heap → ℤ → Bool × Heap
  pub heap_pop_min : Heap → ℤ → Bool × ℤ × Heap
  pub heap_peek : Heap → ℤ → Bool × ℤ
  pub heap_size : Heap → ℕ
  pub heap_from_array : List ℤ → Bool × Heap
  pub heap_sort : List ℤ → List ℤ
  pub heap_validate : Heap → Bool
  pub init_law : heap_init ≡ empty
  pub free_law : (h : Heap) → IsHeap h → heap_free h ≡ empty
  pub push_law :
      (h : Heap) (x : ℤ)
      → IsHeap h
      → has_room allocates h ≡ true
      → (h' : Heap) × (heap_push h x ≡ (true, h')) × IsHeap h' × Perm (contents h') (x ∷ contents h)
  pub push_fails :
      (h : Heap) (x : ℤ) → IsHeap h → has_room allocates h ≡ false → (heap_push h x).0 ≡ false
  pub pop_min_law :
      (h : Heap) (out : ℤ)
      → IsHeap h
      → 0 < h.len
      → (m : ℤ) × (h' : Heap) × (heap_pop_min h out ≡ (true, m, h'))
        × IsHeap h'
        × Minimum (contents h) m (contents h')
  pub pop_min_empty :
      (h : Heap) (out : ℤ) → IsHeap h → h.len ≡ 0 → heap_pop_min h out ≡ (false, out, h)
  pub peek_law :
      (h : Heap) (out : ℤ)
      → IsHeap h
      → 0 < h.len
      → (m : ℤ) × (rest : List ℤ) × (heap_peek h out ≡ (true, m)) × Minimum (contents h) m rest
  pub peek_empty : (h : Heap) (out : ℤ) → IsHeap h → h.len ≡ 0 → heap_peek h out ≡ (false, out)
  pub size_law : (h : Heap) → heap_size h ≡ h.len
  pub from_array_law :
      (a : List ℤ)
      → ((n : ℕ) → allocates n ≡ true)
      → (h : Heap) × (heap_from_array a ≡ (true, h)) × IsHeap h × Perm (contents h) a
  pub sort_law : IsSort heap_sort
  pub validate_law : (h : Heap) → heap_validate h ≡ validate h
