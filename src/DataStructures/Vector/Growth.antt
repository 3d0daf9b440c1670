-- ===== src/DataStructures/Vector/Growth.antt =====
-- What the growth policy of ProperDS/src/vector.h amounts to over many calls of vector_push.
use low_level.Prelude.{
  ℕ, zero, suc, ◌+◌, ◌*◌, ◌≤◌, ◌≡◌, refl, sym, ap, ◌∙◌, Bool, true, ◌&&◌, List, [], ◌∷◌, ◌++◌,
  append_assoc, append-nil, length, length-append, arith, ◌==◌, if◌then◌else◌,
}
use low_level.Prelude.Int.{ℤ}
use low_level.DataStructures.GrowArray.{
  empty, contents, IsGrowArray, grown, cap_after, empty-IsGrowArray, length-contents,
}
use low_level.DataStructures.Vector.{Vector, Holds, VectorApi}

-- The capacity after `n` calls, and how many elements the calls have moved to new buffers.
unfoldable pub capacity : ℕ → ℕ
capacity zero = 0
capacity (suc n) = if n == capacity n then grown (capacity n) else capacity n

unfoldable pub moved : ℕ → ℕ
moved zero = 0
moved (suc n) = moved n + (if n == capacity n then n else 0)

-- The capacity is 4 at least, less than twice what is needed beyond that, and pays for the moves.
capacity_bounds :
    (n : ℕ)
    → (suc n ≤ capacity (suc n))
      × (capacity (suc n) ≤ 4 + 2 * n)
      × (moved (suc n) + 4 ≤ capacity (suc n))
unfolding capacity moved
capacity_bounds zero = (omega arith, omega arith, omega arith)
capacity_bounds (suc n) = let (room, waste, paid) = capacity_bounds n in ground arith

cap_after-capacity :
    (v : Vector) (n : ℕ) → v.len ≡ n → v.cap ≡ capacity n → cap_after v ≡ capacity (suc n)
unfolding capacity
cap_after-capacity v n e e' = rw (e, e') refl

Holds-len : (v : Vector) {xs : List ℤ} {c : ℕ} → Holds xs c v → v.len ≡ length xs
Holds-len v h = sym (length-contents v h.valid) ∙ ap length h.items

module _ {allocates : ℕ → Bool} (api : VectorApi allocates) where
  -- Calls of vector_push with these elements in turn, and whether all of them returned true.
  pub push_all : Vector → List ℤ → Bool × Vector
  push_all v [] = (true, v)
  push_all v (x ∷ xs) =
      let (ok, v') = api.vector_push v x in let (oks, v'') = push_all v' xs in (ok && oks, v'')

  push_all_from :
      (xs ys : List ℤ) (v : Vector)
      → ((n : ℕ) → allocates n ≡ true)
      → Holds ys (capacity (length ys)) v
      → (v' : Vector) × (push_all v xs ≡ (true, v'))
        × Holds (ys ++ xs) (capacity (length (ys ++ xs))) v'
  unfolding push_all capacity
  push_all_from [] ys v always h = (v, refl, rw append-nil h)
  push_all_from (x ∷ xs) ys v always h =
      let (v₁, pushed, h₁) = api.push_law v x h.valid (ground (arith, always (grown v.cap))) in
      let size : length (ys ++ x ∷ []) ≡ suc (length ys) =
        omega (arith, length-append ys (x ∷ [])) in
      let next : Holds (ys ++ x ∷ []) (capacity (length (ys ++ x ∷ []))) v₁ = record {
        valid = h₁.valid;
        items = h₁.items ∙ ap (λ t. t ++ x ∷ []) h.items;
        capacity =
            h₁.capacity
            ∙ cap_after-capacity v (length ys) (Holds-len v h) h.capacity
            ∙ ap capacity (sym size);
      } in
      let (v', rest, h') = push_all_from xs (ys ++ x ∷ []) v₁ always next in
      (v', rw (pushed, rest) refl, rw (append_assoc ys (x ∷ []) xs) at h')

  -- Where every allocation succeeds, pushing any elements onto a fresh vector succeeds each time
  -- and leaves exactly these, in order, in a valid vector. Its capacity is less than twice their
  -- number, or 4, and all calls together have moved fewer elements to new buffers than that.
  pub push_all_lem :
      (x : ℤ) (xs : List ℤ)
      → ((n : ℕ) → allocates n ≡ true)
      → (v : Vector) × (push_all api.vector_init (x ∷ xs) ≡ (true, v))
        × IsGrowArray v
        × (contents v ≡ x ∷ xs)
        × (v.cap ≤ 4 + 2 * length xs)
        × (moved (suc (length xs)) + 4 ≤ v.cap)
  unfolding capacity
  push_all_lem x xs always =
      let (v, run, h) =
        push_all_from (x ∷ xs) [] empty always
          (record { valid = empty-IsGrowArray; items = refl; capacity = refl }) in
      let (room, waste, paid) = capacity_bounds (length xs) in
      (
        v,
        rw api.init_law run,
        h.valid,
        h.items,
        omega (arith, h.capacity),
        omega (arith, h.capacity),
      )
