-- ===== src/Memory/Reference.antt =====
-- Functions that keep the laws of ProperC/src/memory.h, for the tests. Pushes fail from the third
-- element on.
use low_level.Prelude.{
  ℕ, zero, suc, ◌+◌, ◌-◌, ◌≤◌, ◌<◌, ◌≡◌, ◌⊎◌, inl, inr, refl, sym, ap, Bool, true, false, some,
  List, [], ◌∷◌, ◌++◌, take, length, length-append, length-take, get_elem?, if◌then◌else◌, ltb,
  Bool-cases, get_or, arith,
}
use mathlib.Core.Path.{subst}
use low_level.Prelude.Int.{ℤ, pos}
use low_level.DataStructures.GrowArray.{slots_of}
use low_level.Interview.Strfns.{Holds}
use low_level.Interview.Texts.{text, text-Holds}
use low_level.Memory.{IntVec, elements, IsIntVec, empty_vec, MemoryApi}

length-elements : (v : IntVec) → IsIntVec v → length (elements v) ≡ v.len
length-elements v h = omega (arith, length-take v.len (slots_of v.buffer), h.inside, h.room)

abbrev pushed : IntVec → ℤ → IntVec
pushed v x = record { buffer = some (elements v ++ x ∷ []); len = v.len + 1; cap = v.len + 1 }

take-whole : (xs : List ℤ) (n : ℕ) → length xs ≡ n → take n xs ≡ xs
take-whole [] zero e = refl
take-whole [] (suc n) e = refl
take-whole (x ∷ xs) zero e = absurd (omega (arith, e))
take-whole (x ∷ xs) (suc n) e = ap (λ t. x ∷ t) (take-whole xs n (omega (arith, e)))

pushed_size : (v : IntVec) (x : ℤ) → IsIntVec v → length (elements v ++ x ∷ []) ≡ v.len + 1
pushed_size v x h = omega (arith, length-append (elements v) (x ∷ []), length-elements v h)

push : IntVec → ℤ → Bool × IntVec
push v x = if ltb v.len 2 then (true, pushed v x) else (false, v)

push_keeps :
    (v : IntVec) (x : ℤ)
    → IsIntVec v
    → (push v x ≡ (false, v))
      ⊎ ((w : IntVec) × (push v x ≡ (true, w)) × IsIntVec w × (elements w ≡ elements v ++ x ∷ []))
unfolding push
push_keeps v x h = elim (Bool-cases (ltb v.len 2)) [
  | inr full ↦ inl (rw full refl)
  | inl more ↦ inr (
    pushed v x,
    rw more refl,
    record { inside = omega arith; room = pushed_size v x h },
    take-whole (elements v ++ x ∷ []) (v.len + 1) (pushed_size v x h),
  )
]

take-take : (n m : ℕ) (xs : List ℤ) → n ≤ m → take n (take m xs) ≡ take n xs
take-take zero m xs le = refl
take-take (suc n) zero xs le = absurd (omega (arith, le))
take-take (suc n) (suc m) [] le = refl
take-take (suc n) (suc m) (x ∷ xs) le = ap (λ t. x ∷ t) (take-take n m xs (omega (arith, le)))

get : IntVec → ℕ → ℤ
get v i = get_or (elements v) i (pos 0)

get_elem?-get_or :
    (xs : List ℤ) (i : ℕ) → i < length xs → get_elem? xs i ≡ some (get_or xs i (pos 0))
get_elem?-get_or [] i lt = absurd (omega (arith, lt))
get_elem?-get_or (x ∷ xs) zero lt = refl
get_elem?-get_or (x ∷ xs) (suc i) lt = get_elem?-get_or xs i (omega (arith, lt))

get_lem : (v : IntVec) (i : ℕ) → IsIntVec v → i < v.len → get_elem? (elements v) i ≡ some (get v i)
unfolding get
get_lem v i h lt = get_elem?-get_or (elements v) i (omega (arith, lt, length-elements v h))

shorter : IntVec → IntVec
shorter v = record v { len = v.len - 1 }

pop : IntVec → ℤ → Bool × ℤ × IntVec
pop v out = if ltb 0 v.len then (true, get v (v.len - 1), shorter v) else (false, out, v)

pop-none : (v : IntVec) (out : ℤ) → v.len ≡ 0 → pop v out ≡ (false, out, v)
unfolding pop
pop-none v out e = let empty : ltb 0 v.len ≡ false = ground (arith, e) in rw empty refl

pop-some :
    (v : IntVec) (out : ℤ)
    → IsIntVec v
    → 0 < v.len
    → (x : ℤ) × (w : IntVec) × (pop v out ≡ (true, x, w))
      × IsIntVec w
      × (get_elem? (elements v) (v.len - 1) ≡ some x)
      × (elements w ≡ take (v.len - 1) (elements v))
unfolding pop shorter
pop-some v out h lt =
    let some_left : ltb 0 v.len ≡ true = ground (arith, lt) in
    (
      get v (v.len - 1),
      shorter v,
      rw some_left refl,
      record { inside = omega (arith, h.inside); room = h.room },
      get_lem v (v.len - 1) h (omega (arith, lt)),
      sym (take-take (v.len - 1) v.len (slots_of v.buffer) (omega arith)),
    )

pub memory : MemoryApi
memory = record {
  my_strdup = λ b. some (text b ++ 0 ∷ []);
  vec_init = empty_vec;
  vec_push = push;
  vec_pop = pop;
  vec_get = get;
  vec_free = λ v. empty_vec;
  strdup_law = λ b s h. inr (
    text b ++ 0 ∷ [],
    refl,
    subst (λ t. Holds (t ++ 0 ∷ []) s) (sym (text-Holds b s h))
        (record { behind = []; split = refl; no_nul = h.no_nul }),
  );
  init_law = (record { inside = omega arith; room = refl }, refl, refl);
  push_law = push_keeps;
  pop_empty = λ v out h e. pop-none v out e;
  pop_law = pop-some;
  get_law = get_lem;
  free_law = λ v h. refl;
}

pub my_strdup-made : (b s : List ℕ) → Holds b s → memory.my_strdup b ≡ some (s ++ 0 ∷ [])
unfolding memory
my_strdup-made b s h = ap (λ t. some (t ++ 0 ∷ [])) (text-Holds b s h)
