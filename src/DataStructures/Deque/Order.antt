-- ===== src/DataStructures/Deque/Order.antt =====
-- The deque of ProperDS/src/deque.h answers every sequence of calls as a list does.
use mathlib.Core.List.{head-eq_of_cons-eq, tail-eq_of_cons-eq}
use low_level.Prelude.{
  ℕ, zero, suc, ◌-◌, ◌≤◌, ◌<◌, ◌≡◌, refl, sym, ap, ap₂, ◌∙◌, Bool, true, false, List, [], ◌∷◌, ◌++◌,
  length, get_or, arith, inl, inr, ◌⊎◌,
}
use low_level.Prelude.Int.{ℤ, pos}
use low_level.DataStructures.Ring.{
  at, tabulate, length-tabulate, tabulate_ext, tabulate-snoc, slot-next, slot-back,
}
use low_level.DataStructures.GrowArray.{slots_of, grown}
use low_level.DataStructures.Trace.{run, Follows, run-Follows}
use low_level.DataStructures.Deque.{
  Deque, empty, IsDeque, element, elements, cap_after, start, has_room, PushedBack, PushedFront,
  PoppedFront, PoppedBack, DequeApi,
}

elements-PushedBack :
    (d : Deque) (x : ℤ) (d' : Deque) → PushedBack d x d' → elements d' ≡ elements d ++ x ∷ []
elements-PushedBack d x d' h =
    ap (λ n. tabulate n (element d')) h.longer
    ∙ tabulate-snoc d.len (element d')
    ∙ ap₂ (λ xs y. xs ++ y ∷ []) (tabulate_ext d.len (element d') (element d) h.kept) h.added

cap_after-positive : (d : Deque) → d.len ≤ d.cap → 0 < cap_after d
cap_after-positive d h = ground arith

element-PushedFront :
    (d : Deque) (x : ℤ) (d' : Deque) (i : ℕ)
    → PushedFront d x d'
    → d.len ≤ d.cap
    → i < d.len
    → element d' (suc i) ≡ element d i
element-PushedFront d x d' i h inside lt =
    ap₂ (λ c s. at (slots_of d'.buffer) c s (suc i)) h.capacity h.moved_head
    ∙ ap (λ (t : ℕ). get_or (slots_of d'.buffer) t (pos 0))
        (slot-back (cap_after d) (start d) i (cap_after-positive d inside))
    ∙ h.kept i lt

elements-PushedFront :
    (d : Deque) (x : ℤ) (d' : Deque)
    → PushedFront d x d'
    → d.len ≤ d.cap
    → elements d' ≡ x ∷ elements d
elements-PushedFront d x d' h inside =
    ap (λ n. tabulate n (element d')) h.longer
    ∙ ap₂ ◌∷◌ h.added (
        tabulate_ext d.len (λ i. element d' (suc i)) (element d)
          (λ i lt. element-PushedFront d x d' i h inside lt))

element-PoppedFront :
    (d d' : Deque) (i : ℕ) → PoppedFront d d' → i < d'.len → element d' i ≡ element d (suc i)
element-PoppedFront d d' i h lt =
    ap₂ (λ c s. at (slots_of d'.buffer) c s i) h.same_cap h.moved_head
    ∙ ap (λ (t : ℕ). get_or (slots_of d'.buffer) t (pos 0)) (slot-next d.cap d.head i)
    ∙ h.kept i lt

elements-PoppedFront : (d d' : Deque) → PoppedFront d d' → elements d ≡ element d 0 ∷ elements d'
elements-PoppedFront d d' h =
    ap (λ n. tabulate n (element d)) (sym h.shorter)
    ∙ ap (λ t. element d 0 ∷ t)
        (sym (
          tabulate_ext d'.len (element d') (λ i. element d (suc i))
            (λ i lt. element-PoppedFront d d' i h lt)))

elements-PoppedBack :
    (d d' : Deque) → PoppedBack d d' → elements d ≡ elements d' ++ element d (d.len - 1) ∷ []
elements-PoppedBack d d' h =
    let last : d.len - 1 ≡ d'.len = omega (arith, h.shorter) in
    ap (λ n. tabulate n (element d)) (sym h.shorter)
    ∙ tabulate-snoc d'.len (element d)
    ∙ ap₂ (λ xs y. xs ++ y ∷ []) (sym (tabulate_ext d'.len (element d') (element d) h.kept))
        (ap (element d) (sym last))

pub data Call : Type 0 where
  push_front : ℤ → Call
  push_back : ℤ → Call
  pop_front : ℤ → Call
  pop_back : ℤ → Call
  len : Call

-- What a call answers: its Boolean result, and `*out` or the length.
abbrev pub Answer : Type 0
Answer = Bool × ℤ

module _ {allocates : ℕ → Bool} (api : DequeApi allocates) where
  pub step : Call → Deque → Answer × Deque
  step (push_front x) d = let (ok, d') = api.deque_push_front d x in ((ok, pos 0), d')
  step (push_back x) d = let (ok, d') = api.deque_push_back d x in ((ok, pos 0), d')
  step (pop_front out) d = let (ok, v, d') = api.deque_pop_front d out in ((ok, v), d')
  step (pop_back out) d = let (ok, v, d') = api.deque_pop_back d out in ((ok, v), d')
  step len d = ((true, pos (api.deque_len d)), d)

abbrev pub take_first : ℤ → List ℤ → Answer × List ℤ
take_first out [] = ((false, out), [])
take_first out (x ∷ xs) = ((true, x), xs)

abbrev pub take_last : ℤ → List ℤ → Answer × List ℤ
take_last out [] = ((false, out), [])
take_last out (x ∷ []) = ((true, x), [])
take_last out (x ∷ y ∷ xs) = let (answer, rest) = take_last out (y ∷ xs) in (answer, x ∷ rest)

-- The specification: a list of any length.
abbrev pub spec : Call → List ℤ → Answer × List ℤ
spec (push_front x) xs = ((true, pos 0), x ∷ xs)
spec (push_back x) xs = ((true, pos 0), xs ++ x ∷ [])
spec (pop_front out) xs = take_first out xs
spec (pop_back out) xs = take_last out xs
spec len xs = ((true, pos (length xs)), xs)

take_last-append : (out : ℤ) (xs : List ℤ) (x : ℤ) → take_last out (xs ++ x ∷ []) ≡ ((true, x), xs)
take_last-append out [] x = refl
take_last-append out (y ∷ []) x = refl
take_last-append out (y ∷ z ∷ xs) x = ap (λ r. (r.0, y ∷ r.1)) (take_last-append out (z ∷ xs) x)

abbrev Shows : Deque → List ℤ → Type 0
Shows d xs = IsDeque d × (elements d ≡ xs)

Shows-len : (d : Deque) (xs : List ℤ) → Shows d xs → length xs ≡ d.len
Shows-len d xs h = ap length (sym h.1) ∙ length-tabulate d.len (element d)

IsDeque-inside : (d : Deque) → IsDeque d → d.len ≤ d.cap
IsDeque-inside d h = ground (arith, h.valid)

empty_or_not : (n : ℕ) → (n ≡ 0) ⊎ (0 < n)
empty_or_not zero = inl refl
empty_or_not (suc n) = inr (omega arith)

module _ {allocates : ℕ → Bool} (api : DequeApi allocates)
    (always : (n : ℕ) → allocates n ≡ true) where
  room : (d : Deque) → has_room allocates d ≡ true
  room d = ground (arith, always (grown d.cap))

  step-Follows : Follows (step api) spec Shows
  unfolding step
  step-Follows (push_front x) d xs h =
      let (d', runs, p) = api.push_front_law d x h.0 (room d) in
      rw runs (
        refl,
        (p.valid, elements-PushedFront d x d' p (IsDeque-inside d h.0) ∙ ap (λ t. x ∷ t) h.1),
      )
  step-Follows (push_back x) d xs h =
      let (d', runs, p) = api.push_back_law d x h.0 (room d) in
      rw runs (refl, (p.valid, elements-PushedBack d x d' p ∙ ap (λ t. t ++ x ∷ []) h.1))
  step-Follows (pop_front out) d [] h =
      rw (api.pop_front_empty d out h.0 (sym (Shows-len d [] h))) (refl, h)
  step-Follows (pop_front out) d (x ∷ xs) h =
      let (d', runs, p) = api.pop_front_law d out h.0 (omega (arith, Shows-len d (x ∷ xs) h)) in
      let split = sym (elements-PoppedFront d d' p) ∙ h.1 in
      rw runs (ap (λ v. (true, v)) (head-eq_of_cons-eq split), (p.valid, tail-eq_of_cons-eq split))
  step-Follows (pop_back out) d [] h =
      rw (api.pop_back_empty d out h.0 (sym (Shows-len d [] h))) (refl, h)
  step-Follows (pop_back out) d (x ∷ xs) h =
      let (d', runs, p) = api.pop_back_law d out h.0 (omega (arith, Shows-len d (x ∷ xs) h)) in
      let split : x ∷ xs ≡ elements d' ++ element d (d.len - 1) ∷ [] =
        sym h.1 ∙ elements-PoppedBack d d' p in
      rw (runs, split, take_last-append out (elements d') (element d (d.len - 1)))
        (refl, (p.valid, refl))
  step-Follows len d xs h = (ap (λ n. (true, pos n)) (api.len_law d ∙ sym (Shows-len d xs h)), h)

  -- When every allocation succeeds, every sequence of calls on a fresh deque, pops of an empty one
  -- included, gets the answers of a list that is changed at its two ends.
  pub deque_refines : (calls : List Call) → run (step api) calls api.deque_init ≡ run spec calls []
  deque_refines calls = rw api.init_law (
      run-Follows (step api) spec Shows calls empty [] step-Follows
        (record { valid = refl; slots = refl }, refl))
