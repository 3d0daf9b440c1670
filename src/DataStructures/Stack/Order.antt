-- ===== src/DataStructures/Stack/Order.antt =====
-- The stack of ProperDS/src/stackqueue.h against a list with the top in front.
use low_level.Prelude.{
  ℕ, ◌≡◌, refl, sym, ap, ◌∙◌, Bool, true, false, List, [], ◌∷◌, ◌++◌, length, length-append, arith,
  ◌==◌,
}
use low_level.Prelude.Int.{ℤ, pos}
use low_level.DataStructures.Trace.{run, Follows, run-Follows}
use low_level.DataStructures.GrowArray.{
  empty, contents, IsGrowArray, grown, has_room, empty-IsGrowArray, length-contents,
}
use low_level.DataStructures.Stack.{Stack, StackApi}

pub data Call : Type 0 where
  push : ℤ → Call
  pop : ℤ → Call
  peek : ℤ → Call
  is_empty : Call

-- What a call answers: its result, and `*out`, which pop and peek have.
abbrev pub Answer : Type 0
Answer = Bool × ℤ

module _ {allocates : ℕ → Bool} (api : StackApi allocates) where
  pub step : Call → Stack → Answer × Stack
  step (push x) s = let (ok, s') = api.stack_push s x in ((ok, pos 0), s')
  step (pop out) s = let (ok, v, s') = api.stack_pop s out in ((ok, v), s')
  step (peek out) s = (api.stack_peek s out, s)
  step is_empty s = ((api.stack_is_empty s, pos 0), s)

abbrev pub take_top : ℤ → List ℤ → Answer × List ℤ
take_top out [] = ((false, out), [])
take_top out (x ∷ xs) = ((true, x), xs)

abbrev pub see_top : ℤ → List ℤ → Answer
see_top out [] = (false, out)
see_top out (x ∷ xs) = (true, x)

-- The specification, while allocation succeeds.
abbrev pub spec : Call → List ℤ → Answer × List ℤ
spec (push x) xs = ((true, pos 0), x ∷ xs)
spec (pop out) xs = take_top out xs
spec (peek out) xs = (see_top out xs, xs)
spec is_empty xs = ((length xs == 0, pos 0), xs)

-- The list upside down.
unfoldable upright : List ℤ → List ℤ
upright [] = []
upright (x ∷ xs) = upright xs ++ x ∷ []

abbrev Shows : Stack → List ℤ → Type 0
Shows s xs = IsGrowArray s × (contents s ≡ upright xs)

length-upright : (xs : List ℤ) → length (upright xs) ≡ length xs
unfolding upright
length-upright [] = refl
length-upright (x ∷ xs) = omega (arith, length-append (upright xs) (x ∷ []), length-upright xs)

Shows-len : (s : Stack) (xs : List ℤ) → Shows s xs → s.len ≡ length xs
Shows-len s xs h = sym (length-contents s h.0) ∙ ap length h.1 ∙ length-upright xs

module _ {allocates : ℕ → Bool} (api : StackApi allocates)
    (always : (n : ℕ) → allocates n ≡ true) where
  room : (s : Stack) → has_room allocates s ≡ true
  room s = ground (arith, always (grown s.cap))

  step-Follows : Follows (step api) spec Shows
  unfolding step upright
  step-Follows (push x) s xs h =
      let (s', runs, e) = api.push_law s x h.0 (room s) in
      rw runs (refl, (e.valid, e.items ∙ ap (λ t. t ++ x ∷ []) h.1))
  step-Follows (pop out) s [] h = rw (api.pop_empty s out h.0 (Shows-len s [] h)) (refl, h)
  step-Follows (pop out) s (x ∷ xs) h =
      let (s', runs, e) = api.pop_law s (upright xs) x out h.0 h.1 in
      rw runs (refl, (e.valid, e.items))
  step-Follows (peek out) s [] h = (api.peek_empty s out h.0 (Shows-len s [] h), h)
  step-Follows (peek out) s (x ∷ xs) h = (api.peek_law s (upright xs) x out h.0 h.1, h)
  step-Follows is_empty s xs h =
      (ap (λ b. (b, pos 0)) (api.is_empty_law s ∙ ap (λ n. n == 0) (Shows-len s xs h)), h)

  -- While allocation succeeds, every sequence of calls on a new stack is answered as a list is
  -- that is pushed to, popped from and read at its front: a pop or a peek of the empty stack
  -- returns false and leaves `*out` as it was.
  pub stack_refines : (calls : List Call) → run (step api) calls api.stack_init ≡ run spec calls []
  unfolding upright
  stack_refines calls =
      rw api.init_law
        (run-Follows (step api) spec Shows calls empty [] step-Follows (empty-IsGrowArray, refl))
