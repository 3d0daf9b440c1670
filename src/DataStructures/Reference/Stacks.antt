-- ===== src/DataStructures/Reference/Stacks.antt =====
-- Functions that keep the laws of the stack of ProperDS/src/stackqueue.h, from those for vectors.
use low_level.Prelude.{
  ◌<◌, ◌≡◌, refl, ap, Bool, true, false, List, [], ◌∷◌, ◌++◌, length, length-append, arith, ◌==◌,
  if◌then◌else◌,
}
use low_level.Prelude.Int.{ℤ}
use low_level.DataStructures.GrowArray.{empty, contents, IsGrowArray, length-contents}
use low_level.DataStructures.Vector.{Holds}
use low_level.DataStructures.Stack.{Stack, StackApi}
use low_level.DataStructures.Reference.Vectors.{always, packing}

abbrev pop_one : Stack → ℤ → Bool × ℤ × Stack
pop_one s out =
    if s.len == 0
    then (false, out, s)
    else (true, (packing.vector_pop s).0, (packing.vector_pop s).1)

nonempty :
    (s : Stack) (xs : List ℤ) (x : ℤ)
    → IsGrowArray s
    → contents s ≡ xs ++ x ∷ []
    → (s.len == 0) ≡ false
nonempty s xs x valid e =
    let some_left : 0 < s.len =
      omega (arith, length-contents s valid, ap length e, length-append xs (x ∷ [])) in
    ground arith

pop_one_lem :
    (s : Stack) (xs : List ℤ) (x out : ℤ)
    → IsGrowArray s
    → contents s ≡ xs ++ x ∷ []
    → (s' : Stack) × (pop_one s out ≡ (true, x, s')) × Holds xs s.cap s'
pop_one_lem s xs x out valid e =
    let (s', runs, h) = packing.pop_law s xs x valid e in
    (s', rw (nonempty s xs x valid e) (ap (λ (r : ℤ × Stack). (true, r.0, r.1)) runs), h)

pub packed_stacks : StackApi always
packed_stacks = record {
  stack_init = empty;
  stack_free = λ s. empty;
  stack_push = packing.vector_push;
  stack_pop = pop_one;
  stack_peek = λ s out. if s.len == 0 then (false, out) else (true, (packing.vector_pop s).0);
  stack_is_empty = λ s. s.len == 0;
  init_law = refl;
  free_law = λ s valid. refl;
  push_law = packing.push_law;
  push_fails = packing.push_fails;
  pop_law = pop_one_lem;
  pop_empty = λ s out valid none_left. let on : (s.len == 0) ≡ true = ground arith in rw on refl;
  peek_law = λ s xs x out valid e.
      let (s', runs, h) = packing.pop_law s xs x valid e in
      rw (nonempty s xs x valid e) (ap (λ (r : ℤ × Stack). (true, r.0)) runs);
  peek_empty = λ s out valid none_left. let on : (s.len == 0) ≡ true = ground arith in rw on refl;
  is_empty_law = λ s. refl;
}
