-- ===== src/DataStructures/Vector/Edits.antt =====
-- vector_insert_at, vector_remove_at and vector_get of ProperDS/src/vector.h against one another.
use mathlib.Core.Option.{some-injective}
use low_level.Prelude.{
  append_assoc, ℕ, zero, suc, ◌≤◌, ◌<◌, ◌≡◌, refl, sym, ap, ◌∙◌, Bool, true, List, [], ◌∷◌, ◌++◌,
  take, drop, take-append-drop, length, length-take, length-append, get_elem?, get_elem?-split,
  drop_front, arith,
}
use low_level.Prelude.Int.{ℤ}
use low_level.DataStructures.GrowArray.{contents, IsGrowArray, has_room, cap_after, length-contents}
use low_level.DataStructures.Vector.{Vector, Holds, VectorApi}

pub take_front : (n : ℕ) (xs ys : List ℤ) → n ≡ length xs → take n (xs ++ ys) ≡ xs
take_front n [] ys e = rw e refl
take_front zero (x ∷ xs) ys e = absurd (omega arith)
take_front (suc n) (x ∷ xs) ys e = ap (λ t. x ∷ t) (take_front n xs ys (omega arith))

-- Leaving out the element behind the front.
cut_out :
    (i : ℕ) (before behind : List ℤ) (x : ℤ)
    → i ≡ length before
    → take i (before ++ x ∷ behind) ++ drop (suc i) (before ++ x ∷ behind) ≡ before ++ behind
cut_out i before behind x e =
    let dropped : drop (suc i) (before ++ x ∷ behind) ≡ behind =
      rw (append_assoc before (x ∷ []) behind) at (
        drop_front (suc i) (before ++ x ∷ []) behind
          (omega (arith, length-append before (x ∷ [])))) in
    rw (take_front i before (x ∷ behind) e, dropped)

module _ {allocates : ℕ → Bool} (api : VectorApi allocates) where
  -- Where the allocation succeeds, what vector_insert_at puts at an index is found there by
  -- vector_get, and vector_remove_at at that index gives the elements back; the capacity stays what
  -- the insertion made it.
  pub remove_at-insert_at :
      (v : Vector) (i : ℕ) (x : ℤ)
      → IsGrowArray v
      → i ≤ v.len
      → has_room allocates v ≡ true
      → (v' : Vector) × (api.vector_insert_at v i x ≡ (true, v'))
        × (api.vector_get v' i ≡ x)
        × Holds (contents v) (cap_after v) (api.vector_remove_at v' i)
  remove_at-insert_at v i x valid inside room =
      let (v', run, h) = api.insert_at_law v i x valid inside room in
      let before = take i (contents v) in
      let behind = drop i (contents v) in
      let size : i ≡ length before =
        omega (arith, length-take i (contents v), length-contents v valid) in
      let there : i < v'.len =
        omega (
          arith,
          length-contents v' h.valid,
          ap length h.items,
          length-append before (x ∷ behind),
        ) in
      let got = api.get_law v' i h.valid there in
      let removed = api.remove_at_law v' i h.valid there in
      (
        v',
        run,
        some-injective (api.vector_get v' i) x
            (sym got ∙ ap (λ t. get_elem? t i) h.items ∙ get_elem?-split before x behind size),
        record {
          valid = removed.valid;
          items =
              removed.items
              ∙ ap (λ t. take i t ++ drop (suc i) t) h.items
              ∙ cut_out i before behind x size
              ∙ take-append-drop i (contents v);
          capacity = removed.capacity ∙ h.capacity;
        },
      )
