-- ===== src/Interview/DynArr/Calls.antt =====
-- The array of ProperInterview/src/dynarr.h against a list, where allocations may fail.
use low_level.Prelude.{
  ℕ, suc, ◌≡◌, refl, sym, ap, ap₂, ◌∙◌, Bool, true, false, List, [], ◌∷◌, ◌++◌, take, drop, set,
  length, ltb, lt→ltb, arith, Bool-cases, inl, inr, if◌then◌else◌, dec_lt,
}
use low_level.Prelude.Int.{ℤ, pos}
use low_level.DataStructures.Trace.{run, Follows, run-Follows}
use low_level.DataStructures.GrowArray.{
  empty, contents, IsGrowArray, empty-IsGrowArray, length-contents,
}
use low_level.Interview.DynArr.{DynArr, cap_after, has_room, DynArrApi}

-- da_set and da_remove_at are only called with an index in range.
pub data Call : Type 0 where
  push : Bool → ℤ → Call
  pop : ℤ → Call
  set_at : ℕ → ℤ → Call
  remove_at : ℕ → Call
  len : Call
  cap : Call

abbrev pub Answer : Type 0
Answer = Bool × ℤ

module _ (api : DynArrApi) where
  pub step : Call → DynArr → Answer × DynArr
  step (push allocates x) d = let (ok, d') = api.da_push allocates d x in ((ok, pos 0), d')
  step (pop out) d = let (ok, v, d') = api.da_pop d out in ((ok, v), d')
  step (set_at i x) d =
      if ltb i (api.da_len d) then ((true, pos 0), api.da_set d i x) else ((false, pos 0), d)
  step (remove_at i) d =
      if ltb i (api.da_len d) then ((true, pos 0), api.da_remove_at d i) else ((false, pos 0), d)
  step len d = ((true, pos (api.da_len d)), d)
  step cap d = ((true, pos (api.da_cap d)), d)

-- The elements and the capacity.
abbrev pub Model : Type 0
Model = List ℤ × ℕ

unfoldable unsnoc : ℤ → List ℤ → ℤ × List ℤ
unsnoc x [] = (x, [])
unsnoc x (y ∷ ys) = let (z, zs) = unsnoc y ys in (z, x ∷ zs)

abbrev pop_last : ℤ → List ℤ → Bool × ℤ × List ℤ
pop_last out [] = (false, out, [])
pop_last out (x ∷ xs) = let (z, zs) = unsnoc x xs in (true, z, zs)

-- The specification: a push beyond the capacity needs a new buffer, and changes nothing if there is
-- none.
pub spec : Call → Model → Answer × Model
spec (push allocates x) (xs, c) =
    if has_room allocates (length xs) c
    then ((true, pos 0), (xs ++ x ∷ [], cap_after (length xs) c))
    else ((false, pos 0), (xs, c))
spec (pop out) (xs, c) = let (ok, v, xs') = pop_last out xs in ((ok, v), (xs', c))
spec (set_at i x) (xs, c) =
    if ltb i (length xs) then ((true, pos 0), (set xs i x, c)) else ((false, pos 0), (xs, c))
spec (remove_at i) (xs, c) =
    if ltb i (length xs)
    then ((true, pos 0), (take i xs ++ drop (suc i) xs, c))
    else ((false, pos 0), (xs, c))
spec len (xs, c) = ((true, pos (length xs)), (xs, c))
spec cap (xs, c) = ((true, pos c), (xs, c))

unsnoc-append : (x : ℤ) (xs : List ℤ) → x ∷ xs ≡ (unsnoc x xs).1 ++ (unsnoc x xs).0 ∷ []
unfolding unsnoc
unsnoc-append x [] = refl
unsnoc-append x (y ∷ ys) = ap (λ t. x ∷ t) (unsnoc-append y ys)

abbrev Shows : DynArr → Model → Type 0
Shows d (xs, c) = IsGrowArray d × (contents d ≡ xs) × (d.cap ≡ c)

module _ (api : DynArrApi) where
  size : (d : DynArr) (xs : List ℤ) → IsGrowArray d → contents d ≡ xs → d.len ≡ length xs
  size d xs valid e = sym (length-contents d valid) ∙ ap length e

  step-Follows : Follows (step api) spec Shows
  unfolding step spec
  step-Follows (push allocates x) d (xs, c) (valid, e, f) =
      let n = size d xs valid e in
      elim (Bool-cases (has_room allocates (length xs) c)) [
        | inl room ↦
            let (d', runs, h) = api.push_law allocates d x valid (rw (n, f) room) in
            rw (runs, room)
              (refl, (h.valid, h.items ∙ ap (λ t. t ++ x ∷ []) e, h.capacity ∙ ap₂ cap_after n f))
        | inr full ↦
            rw (api.push_fails allocates d x valid (rw (n, f) full), full) (refl, (valid, e, f))
      ]
  step-Follows (pop out) d ([], c) (valid, e, f) =
      rw (api.pop_empty d out valid (size d [] valid e)) (refl, (valid, e, f))
  step-Follows (pop out) d (x ∷ xs, c) (valid, e, f) =
      let (d', runs, h) =
        api.pop_law d (unsnoc x xs).1 (unsnoc x xs).0 out valid (e ∙ unsnoc-append x xs) in
      rw runs (refl, (h.valid, h.items, h.capacity ∙ f))
  step-Follows (set_at i x) d (xs, c) (valid, e, f) =
      let n : api.da_len d ≡ length xs = api.len_law d ∙ size d xs valid e in
      elim (dec_lt i (length xs)) [
        | yes lt ↦
            let h = api.set_law d i x valid (omega (arith, size d xs valid e)) in
            rw (n, lt→ltb i (length xs) lt)
              (refl, (h.valid, h.items ∙ ap (λ t. set t i x) e, h.capacity ∙ f))
        | no out_of ↦
            let off : ltb i (length xs) ≡ false = ground arith in rw (n, off) (refl, (valid, e, f))
      ]
  step-Follows (remove_at i) d (xs, c) (valid, e, f) =
      let n : api.da_len d ≡ length xs = api.len_law d ∙ size d xs valid e in
      elim (dec_lt i (length xs)) [
        | yes lt ↦
            let h = api.remove_at_law d i valid (omega (arith, size d xs valid e)) in
            rw (n, lt→ltb i (length xs) lt)
              (refl, (h.valid, h.items ∙ ap (λ t. take i t ++ drop (suc i) t) e, h.capacity ∙ f))
        | no out_of ↦
            let off : ltb i (length xs) ≡ false = ground arith in rw (n, off) (refl, (valid, e, f))
      ]
  step-Follows len d (xs, c) (valid, e, f) =
      (ap (λ n. (true, pos n)) (api.len_law d ∙ size d xs valid e), (valid, e, f))
  step-Follows cap d (xs, c) (valid, e, f) =
      (ap (λ n. (true, pos n)) (api.cap_law d ∙ f), (valid, e, f))

  -- Whichever allocations fail, every sequence of calls on a new array, with indices in range, is
  -- answered as a list with a capacity is: a push that needs a larger buffer and gets none returns
  -- false and changes nothing, now and for the calls that follow.
  pub da_refines : (calls : List Call) → run (step api) calls api.da_init ≡ run spec calls ([], 0)
  da_refines calls = rw api.init_law (
      run-Follows (step api) spec Shows calls empty ([], 0) step-Follows
        (empty-IsGrowArray, refl, refl))
