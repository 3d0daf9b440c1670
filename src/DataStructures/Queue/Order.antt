-- ===== src/DataStructures/Queue/Order.antt =====
-- The queue of ProperDS/src/stackqueue.h answers every sequence of calls in first-in first-out order.
use mathlib.Core.List.{head-eq_of_cons-eq, tail-eq_of_cons-eq}
use low_level.Prelude.{
  lt→ltb, ℕ, suc, ◌<◌, ◌≡◌, refl, sym, ap, ap₂, ◌∙◌, Bool, true, false, List, [], ◌∷◌, ◌++◌, length,
  get_or, arith, ◌==◌, ltb, if◌then◌else◌, dec_lt,
}
use low_level.Prelude.Int.{ℤ, pos}
use low_level.DataStructures.Ring.{
  at, tabulate, length-tabulate, tabulate_ext, tabulate-snoc, slot-next,
}
use low_level.DataStructures.Trace.{run, Follows, run-Follows}
use low_level.DataStructures.Queue.{Queue, IsQueue, element, elements, Enqueued, Dequeued, QueueApi}

elements-Enqueued :
    (q : Queue) (x : ℤ) (q' : Queue) → Enqueued q x q' → elements q' ≡ elements q ++ x ∷ []
elements-Enqueued q x q' h =
    ap (λ n. tabulate n (element q')) h.longer
    ∙ tabulate-snoc q.len (element q')
    ∙ ap₂ (λ xs y. xs ++ y ∷ []) (tabulate_ext q.len (element q') (element q) h.kept) h.added

-- The slot of the element behind the head, seen from the new head.
element-Dequeued :
    (q q' : Queue) (i : ℕ) → Dequeued q q' → i < q'.len → element q' i ≡ element q (suc i)
element-Dequeued q q' i h lt =
    ap₂ (λ c d. at q'.buffer c d i) h.same_cap h.moved_head
    ∙ ap (λ (t : ℕ). get_or q'.buffer t (pos 0)) (slot-next q.cap q.head i)
    ∙ h.kept i lt

elements-Dequeued : (q q' : Queue) → Dequeued q q' → elements q ≡ element q 0 ∷ elements q'
elements-Dequeued q q' h =
    ap (λ n. tabulate n (element q)) (sym h.shorter)
    ∙ ap (λ t. element q 0 ∷ t)
        (sym (
          tabulate_ext q'.len (element q') (λ i. element q (suc i))
            (λ i lt. element-Dequeued q q' i h lt)))

pub data Call : Type 0 where
  enqueue : ℤ → Call
  dequeue : ℤ → Call
  is_full : Call
  is_empty : Call

-- What a call answers: its result, and `*out`, which only a dequeue has.
abbrev pub Answer : Type 0
Answer = Bool × ℤ

module _ {allocates : ℕ → Bool} (api : QueueApi allocates) where
  pub step : Call → Queue → Answer × Queue
  step (enqueue x) q = let (ok, q') = api.queue_enqueue q x in ((ok, pos 0), q')
  step (dequeue out) q = let (ok, v, q') = api.queue_dequeue q out in ((ok, v), q')
  step is_full q = ((api.queue_is_full q, pos 0), q)
  step is_empty q = ((api.queue_is_empty q, pos 0), q)

-- The specification: a list of at most `cap` elements, the oldest first.
abbrev pub take_first : ℤ → List ℤ → Answer × List ℤ
take_first out [] = ((false, out), [])
take_first out (x ∷ xs) = ((true, x), xs)

abbrev pub spec : ℕ → Call → List ℤ → Answer × List ℤ
spec cap (enqueue x) xs =
    if ltb (length xs) cap then ((true, pos 0), xs ++ x ∷ []) else ((false, pos 0), xs)
spec cap (dequeue out) xs = take_first out xs
spec cap is_full xs = ((length xs == cap, pos 0), xs)
spec cap is_empty xs = ((length xs == 0, pos 0), xs)

abbrev Shows : ℕ → Queue → List ℤ → Type 0
Shows cap q xs = IsQueue q × (q.cap ≡ cap) × (elements q ≡ xs)

Shows-len : (cap : ℕ) (q : Queue) (xs : List ℤ) → Shows cap q xs → length xs ≡ q.len
Shows-len cap q xs h = ap length (sym h.2) ∙ length-tabulate q.len (element q)

module _ {allocates : ℕ → Bool} (api : QueueApi allocates) where
  step-Follows : (cap : ℕ) → Follows (step api) (spec cap) (Shows cap)
  unfolding step
  step-Follows cap (enqueue x) q xs h = elim (dec_lt (length xs) cap) [
    | yes room ↦
        let (q', runs, e) = api.enqueue_law q x h.0 (omega (arith, Shows-len cap q xs h, h.1)) in
        rw (runs, lt→ltb (length xs) cap room)
          (
            refl,
            (e.valid, e.same_cap ∙ h.1, elements-Enqueued q x q' e ∙ ap (λ t. t ++ x ∷ []) h.2),
          )
    | no full ↦
        let at_end : ltb (length xs) cap ≡ false = ground arith in
        let runs =
          api.enqueue_full q x h.0 (omega (arith, Shows-len cap q xs h, h.1, (h.0).inside)) in
        rw (runs, at_end) (refl, h)
  ]
  step-Follows cap (dequeue out) q [] h =
      rw (api.dequeue_empty q out h.0 (sym (Shows-len cap q [] h))) (refl, h)
  step-Follows cap (dequeue out) q (x ∷ xs) h =
      let (q', runs, d) = api.dequeue_law q out h.0 (omega (arith, Shows-len cap q (x ∷ xs) h)) in
      let split = sym (elements-Dequeued q q' d) ∙ h.2 in
      rw runs (
        ap (λ v. (true, v)) (head-eq_of_cons-eq split),
        (d.valid, d.same_cap ∙ h.1, tail-eq_of_cons-eq split),
      )
  step-Follows cap is_full q xs h =
      (ap (λ b. (b, pos 0)) (api.is_full_law q h.0 ∙ ap₂ ◌==◌ (sym (Shows-len cap q xs h)) h.1), h)
  step-Follows cap is_empty q xs h = (
    ap (λ b. (b, pos 0))
        (api.is_empty_law q h.0 ∙ ap (λ (n : ℕ). n == 0) (sym (Shows-len cap q xs h))),
    h,
  )

  -- When the buffer can be allocated, every sequence of calls on a fresh queue of capacity `cap`,
  -- those on a full or an empty queue included, gets the answers of a list of at most `cap` elements
  -- that loses its oldest element first.
  pub queue_refines :
      (cap : ℕ) (calls : List Call)
      → 0 < cap
      → allocates cap ≡ true
      → (q : Queue) × (api.queue_init cap ≡ (true, q))
        × (run (step api) calls q ≡ run (spec cap) calls [])
  queue_refines cap calls positive room =
      let (q, runs, valid, size, none_yet) = api.init_law cap positive room in
      (
        q,
        runs,
        run-Follows (step api) (spec cap) (Shows cap) calls q [] (step-Follows cap)
            (valid, size, ap (λ n. tabulate n (element q)) none_yet),
      )
