-- ===== src/DataStructures/Heap/Drain.antt =====
-- Sorting with the heap of ProperDS/src/heap.h.
use mathlib.Core.List.{Perm, foldr}
use native.Mathlib.Nat.{ℕ_set}
use mathlib.Core.List.Perm
use low_level.Prelude.{
  ℕ, zero, suc, ◌≡◌, refl, sym, ap, ◌∙◌, Bool, true, List, [], ◌∷◌, length, arith,
}
use low_level.Prelude.Int.{ℤ, pos}
use low_level.DataStructures.Search.{IsAscending}
use low_level.DataStructures.Search.Members.{AllAtLeast-perm}
use low_level.DataStructures.Sorting.Agreement.{ascending_unique}
use low_level.DataStructures.GrowArray.{contents, length-contents}
use low_level.DataStructures.Heap.{Heap, IsHeap, HeapApi}

length-eq-foldr : (xs : List ℤ) → length xs ≡ foldr (λ _ t. suc t) 0 xs
length-eq-foldr [] = refl
length-eq-foldr (x ∷ xs) = ap suc (length-eq-foldr xs)

pub perm_length : {xs ys : List ℤ} → Perm xs ys → length xs ≡ length ys
perm_length {xs} {ys} p =
    length-eq-foldr xs
    ∙ Perm.foldr-eq ℕ_set (λ _ t. suc t) (λ a b t. refl) p 0
    ∙ sym (length-eq-foldr ys)

nil_of_length : (xs : List ℤ) → length xs ≡ 0 → Perm [] xs
nil_of_length [] e = Perm.refl []
nil_of_length (x ∷ xs) e = absurd (omega arith)

module _ {allocates : ℕ → Bool} (api : HeapApi allocates) where
  -- The answers of `n` calls of heap_pop_min.
  pub drain : ℕ → Heap → List ℤ
  drain zero h = []
  drain (suc n) h = let (_, m, h') = api.heap_pop_min h (pos 0) in m ∷ drain n h'

  drain_lem :
      (n : ℕ) (h : Heap)
      → IsHeap h
      → length (contents h) ≡ n
      → IsAscending (drain n h) × Perm (drain n h) (contents h)
  unfolding drain
  drain_lem zero h valid size = (tt, nil_of_length (contents h) size)
  drain_lem (suc n) h valid size =
      let (m, h', runs, valid', min) =
        api.pop_min_law h (pos 0) valid (omega (arith, length-contents h valid.array)) in
      let (sorted, perm) = drain_lem n h' valid' (omega (arith, perm_length min.others)) in
      let rest_least =
        AllAtLeast-perm m (contents h) (m ∷ contents h') (Perm.symm min.others) min.least in
      rw runs (
        (AllAtLeast-perm m (contents h') (drain n h') (Perm.symm perm) rest_least.1, sorted),
        Perm.trans (Perm.cons m perm) min.others,
      )

  -- When every allocation succeeds, popping all elements of the heap that heap_from_array builds
  -- gives, in this order, what heap_sort makes of the array.
  pub drain-eq-heap_sort :
      (a : List ℤ)
      → ((n : ℕ) → allocates n ≡ true)
      → (h : Heap) × (api.heap_from_array a ≡ (true, h)) × (drain (length a) h ≡ api.heap_sort a)
  drain-eq-heap_sort a always =
      let (h, runs, valid, perm) = api.from_array_law a always in
      let (sorted, perm') = drain_lem (length a) h valid (perm_length perm) in
      let sort = api.sort_law a in
      (
        h,
        runs,
        ascending_unique (drain (length a) h) (api.heap_sort a) sorted sort.0
            (Perm.trans perm' (Perm.trans perm (Perm.symm sort.1))),
      )
