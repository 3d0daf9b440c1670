-- ===== src/DataStructures/Reference/Heaps.antt =====
-- Heaps kept sorted, and with them functions that keep the laws of ProperDS/src/heap.h.
use mathlib.Core.Option.{some-injective}
use mathlib.Core.List.{Perm}
use low_level.Prelude.{
  ℕ, zero, suc, ◌+◌, ◌*◌, ◌≤◌, ◌<◌, ◌≡◌, refl, sym, ◌∙◌, Bool, true, false, some, List, [], ◌∷◌,
  length, get_elem?, arith, Option-cases, inl, inr,
}
use low_level.Prelude.Int.{ℤ, ◌≤ℤ◌}
use low_level.DataStructures.Search.{IsAscending}
use low_level.DataStructures.Search.Members.{AllAtLeast-Mem, AllAtLeast-perm, Mem-get}
use low_level.DataStructures.GrowArray.{empty, contents, cap_after, length-contents}
use low_level.DataStructures.Heap.{Heap, below_child, in_order, validate, IsHeap, Minimum, HeapApi}
use low_level.DataStructures.Heap.Drain.{perm_length}
use low_level.DataStructures.Reference.Sorts.{sort, sort-IsSort}
use low_level.DataStructures.Reference.Vectors.{always, pack, pack_lem, cap_after_room, no_failure}

get-ascending :
    (a : List ℤ) (i j : ℕ) (x y : ℤ)
    → IsAscending a
    → i < j
    → get_elem? a i ≡ some x
    → get_elem? a j ≡ some y
    → x ≤ℤ y
get-ascending [] i j x y asc lt e e' = cc
get-ascending (z ∷ a) zero zero x y asc lt e e' = absurd (omega arith)
get-ascending (z ∷ a) zero (suc j) x y asc lt e e' =
    AllAtLeast-Mem x y a (rw (sym (some-injective z x e)) asc.0) (Mem-get a j y e')
get-ascending (z ∷ a) (suc i) zero x y asc lt e e' = absurd (omega arith)
get-ascending (z ∷ a) (suc i) (suc j) x y asc lt e e' =
    get-ascending a i j x y asc.1 (omega arith) e e'

below_child-ascending : (a : List ℤ) (i c : ℕ) → IsAscending a → i < c → below_child a i c ≡ true
below_child-ascending a i c asc lt = elim (Option-cases (get_elem? a i)) [
  | inl out ↦ rw (below_child, out) refl
  | inr (x, e) ↦ elim (Option-cases (get_elem? a c)) [
    | inl out ↦ rw (below_child, e, out) refl
    | inr (y, e') ↦
        let le = get-ascending a i c x y asc lt e e' in rw (below_child, e, e') (ground (arith, le))
  ]
]

in_order-ascending : (a : List ℤ) (n : ℕ) → IsAscending a → in_order a n ≡ true
unfolding in_order
in_order-ascending a zero asc = refl
in_order-ascending a (suc n) asc =
    rw
      (
        below_child-ascending a n (2 * n + 1) asc (omega arith),
        below_child-ascending a n (2 * n + 2) asc (omega arith),
      )
      (in_order-ascending a n asc)

pack-IsHeap : (a : List ℤ) (size : ℕ) → IsAscending a → length a ≤ size → IsHeap (pack a size)
pack-IsHeap a size asc inside =
    let holds = pack_lem a size inside in
    record {
      array = holds.valid;
      valid = rw holds.items (ground (arith, in_order-ascending a (length a) asc));
    }

-- The heap of these elements.
abbrev heap_of : List ℤ → ℕ → Heap
heap_of a size = pack (sort a) size

heap_of_lem :
    (a : List ℤ) (size : ℕ)
    → length a ≤ size
    → IsHeap (heap_of a size) × Perm (contents (heap_of a size)) a
heap_of_lem a size inside =
    let (asc, perm) = sort-IsSort a in
    let fits : length (sort a) ≤ size = omega (arith, perm_length perm) in
    (pack-IsHeap (sort a) size asc fits, rw (pack_lem (sort a) size fits).items perm)

pop_first : Heap → List ℤ → ℤ → Bool × ℤ × Heap
pop_first h [] out = (false, out, h)
pop_first h (m ∷ rest) out = (true, m, pack rest h.cap)

peek_first : List ℤ → ℤ → Bool × ℤ
peek_first [] out = (false, out)
peek_first (m ∷ rest) out = (true, m)

pop_first_lem :
    (h : Heap) (ys : List ℤ) (out : ℤ)
    → IsAscending ys
    → Perm ys (contents h)
    → length ys ≤ h.cap
    → 0 < length ys
    → (m : ℤ) × (h' : Heap) × (pop_first h ys out ≡ (true, m, h'))
      × IsHeap h'
      × Minimum (contents h) m (contents h')
unfolding pop_first
pop_first_lem h [] out asc perm inside more = absurd (omega arith)
pop_first_lem h (m ∷ rest) out asc perm inside more = (
  m,
  pack rest h.cap,
  refl,
  pack-IsHeap rest h.cap asc.1 (omega arith),
  record {
    least = AllAtLeast-perm m (m ∷ rest) (contents h) perm (omega arith, asc.0);
    others = rw (pack_lem rest h.cap (omega arith)).items perm;
  },
)

peek_first_lem :
    (h : Heap) (ys : List ℤ) (out : ℤ)
    → IsAscending ys
    → Perm ys (contents h)
    → 0 < length ys
    → (m : ℤ) × (rest : List ℤ) × (peek_first ys out ≡ (true, m)) × Minimum (contents h) m rest
unfolding peek_first
peek_first_lem h [] out asc perm more = absurd (omega arith)
peek_first_lem h (m ∷ rest) out asc perm more = (
  m,
  rest,
  refl,
  record {
    least = AllAtLeast-perm m (m ∷ rest) (contents h) perm (omega arith, asc.0);
    others = perm;
  },
)

fits_after : (h : Heap) → IsHeap h → length (sort (contents h)) ≡ h.len
fits_after h valid = perm_length (sort-IsSort (contents h)).1 ∙ length-contents h valid.array

pub sorting_heaps : HeapApi always
unfolding sort pop_first peek_first in_order
sorting_heaps = record {
  heap_init = empty;
  heap_free = λ h. empty;
  heap_push = λ h x. (true, heap_of (x ∷ contents h) (cap_after h));
  heap_pop_min = λ h out. pop_first h (sort (contents h)) out;
  heap_peek = λ h out. peek_first (sort (contents h)) out;
  heap_size = λ h. h.len;
  heap_from_array = λ a. (true, heap_of a (length a));
  heap_sort = sort;
  heap_validate = validate;
  init_law = refl;
  free_law = λ h valid. refl;
  push_law = λ h x valid room.
      let (heap, perm) =
        heap_of_lem (x ∷ contents h) (cap_after h) (omega (arith, cap_after_room h valid.array)) in
      (heap_of (x ∷ contents h) (cap_after h), refl, heap, perm);
  push_fails = λ h x valid full. no_failure h full;
  pop_min_law = λ h out valid more.
      let sorted = sort-IsSort (contents h) in
      pop_first_lem h (sort (contents h)) out sorted.0 sorted.1
        (omega (arith, fits_after h valid, valid.array.inside)) (omega (arith, fits_after h valid));
  pop_min_empty = λ h out valid none_left. rw none_left refl;
  peek_law = λ h out valid more.
      let sorted = sort-IsSort (contents h) in
      peek_first_lem h (sort (contents h)) out sorted.0 sorted.1
        (omega (arith, fits_after h valid));
  peek_empty = λ h out valid none_left. rw none_left refl;
  size_law = λ h. refl;
  from_array_law = λ a room.
      let (heap, perm) = heap_of_lem a (length a) (omega arith) in
      (heap_of a (length a), refl, heap, perm);
  sort_law = sort-IsSort;
  validate_law = λ h. refl;
}
