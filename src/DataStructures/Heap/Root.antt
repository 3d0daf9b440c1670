-- ===== src/DataStructures/Heap/Root.antt =====
-- The heap property of ProperDS/src/heap.h puts the least element first.
use mathlib.Core.List.{mem-cons_self}
use mathlib.Core.List.Perm
use low_level.Prelude.{
  ℕ, zero, suc, ◌+◌, ◌*◌, ◌/◌, ◌<◌, ◌≡◌, sym, ap, ◌∙◌, Bool, true, some, List, length, get_elem?,
  get_elem?-in_range, lt_of_get_elem?, arith, ◌⊎◌, inl, inr, dec_lt,
}
use low_level.Prelude.Int.{ℤ, ◌≤ℤ◌, eq_of_parts}
use low_level.DataStructures.Search.{AllAtLeast}
use low_level.DataStructures.Search.Members.{AllAtLeast-Mem, AllAtLeast_of_get, Mem-get}
use low_level.DataStructures.GrowArray.{contents, length-contents}
use low_level.DataStructures.Heap.{Heap, below_child, in_order, IsHeap, HeapApi}

in_order-children :
    (a : List ℤ) (n i : ℕ)
    → in_order a n ≡ true
    → i < n
    → (below_child a i (2 * i + 1) ≡ true) × (below_child a i (2 * i + 2) ≡ true)
unfolding in_order
in_order-children a zero i h lt = absurd (omega arith)
in_order-children a (suc n) i h lt = elim (dec_lt i n) [
  | yes earlier ↦ in_order-children a n i (ground (arith, h)) earlier
  | no late ↦ let last : i ≡ n = omega arith in rw last (ground (arith, h))
]

below_child-≤ :
    (a : List ℤ) (i c : ℕ) (x y : ℤ)
    → below_child a i c ≡ true
    → get_elem? a i ≡ some x
    → get_elem? a c ≡ some y
    → x ≤ℤ y
below_child-≤ a i c x y h e e' = ground arith

-- By way of the parent, `(i - 1) / 2`; `k` bounds the way up.
root_below :
    (a : List ℤ) (m : ℤ) (k i : ℕ) (x : ℤ)
    → in_order a (length a) ≡ true
    → get_elem? a 0 ≡ some m
    → i < k
    → get_elem? a i ≡ some x
    → m ≤ℤ x
root_below a m zero i x h first lt e = absurd (omega arith)
root_below a m (suc k) zero x h first lt e = ground arith
root_below a m (suc k) (suc i) x h first lt e =
    let parent = i / 2 in
    let here = lt_of_get_elem? a (suc i) e in
    let (y, at_parent) = get_elem?-in_range a parent (omega arith) in
    let (left, right) = in_order-children a (length a) parent h (omega arith) in
    let up = root_below a m k parent y h first (omega arith) at_parent in
    elim (left_or_right i) [
      | inl is_left ↦ omega (
        arith,
        up,
        below_child-≤ a parent (2 * parent + 1) y x left at_parent (rw (sym is_left) e),
      )
      | inr is_right ↦ omega (
        arith,
        up,
        below_child-≤ a parent (2 * parent + 2) y x right at_parent (rw (sym is_right) e),
      )
    ]
  where
    left_or_right : (n : ℕ) → (suc n ≡ 2 * (n / 2) + 1) ⊎ (suc n ≡ 2 * (n / 2) + 2)
    left_or_right n = omega arith

-- In a valid heap the element in slot 0 is the least.
pub root-AllAtLeast :
    (h : Heap) (m : ℤ) → IsHeap h → get_elem? (contents h) 0 ≡ some m → AllAtLeast m (contents h)
root-AllAtLeast h m valid first =
    let size = length-contents h valid.array in
    let ordered : in_order (contents h) (length (contents h)) ≡ true =
      ground (arith, valid.valid, size) in
    AllAtLeast_of_get m (contents h)
      (λ i x e. root_below (contents h) m (suc i) i x ordered first (omega arith) e)

-- What heap_peek reads from a valid heap that is not empty is the element in slot 0.
pub heap_peek-root :
    {allocates : ℕ → Bool} (api : HeapApi allocates) (h : Heap) (out : ℤ)
    → IsHeap h
    → 0 < h.len
    → (m : ℤ) × (api.heap_peek h out ≡ (true, m)) × (get_elem? (contents h) 0 ≡ some m)
heap_peek-root api h out valid some_left =
    let (m, rest, runs, min) = api.peek_law h out valid some_left in
    let (r, first) =
      get_elem?-in_range (contents h) 0 (omega (arith, length-contents h valid.array)) in
    let same : r ≡ m = eq_of_parts r m (
      omega (
        arith,
        AllAtLeast-Mem m r (contents h) min.least (Mem-get (contents h) 0 r first),
        AllAtLeast-Mem r m (contents h) (root-AllAtLeast h r valid first)
            ((Perm.mem_iff min.others).0 mem-cons_self),
      )) in
    (m, runs, first ∙ ap some same)
