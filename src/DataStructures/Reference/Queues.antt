-- ===== src/DataStructures/Reference/Queues.antt =====
-- Functions that keep the laws of the queue of ProperDS/src/stackqueue.h.
use low_level.Prelude.{
  ℕ, suc, ◌+◌, ◌-◌, ◌%◌, ◌≤◌, ◌<◌, ◌≡◌, refl, sym, ap, ◌∙◌, true, false, List, [], ◌∷◌, ◌++◌,
  get_or, arith, ltb, lt→ltb, ◌==◌, if◌then◌else◌,
}
use low_level.Prelude.Int.{ℤ, pos}
use low_level.DataStructures.Ring.{tabulate, slot-next}
use low_level.DataStructures.Queue.{Queue, IsQueue, element, elements, Enqueued, Dequeued, QueueApi}
use low_level.DataStructures.Reference.Vectors.{always}
use low_level.DataStructures.Reference.Rings.{
  scatter, length-scatter, at-scatter, at-appended, at-kept, get_or-tabulate,
}

abbrev rebuilt : List ℤ → (cap head len : ℕ) → Queue
rebuilt xs cap head len = record { buffer = scatter xs cap head; cap = cap; head = head; len = len }

abbrev enqueued : Queue → ℤ → Queue
enqueued q x = rebuilt (elements q ++ x ∷ []) q.cap q.head (suc q.len)

-- The elements behind the oldest one.
abbrev others : Queue → List ℤ
others q = tabulate (q.len - 1) (λ i. element q (suc i))

abbrev dequeued : Queue → Queue
dequeued q = rebuilt (others q) q.cap ((q.head + 1) % q.cap) (q.len - 1)

rebuilt-IsQueue :
    (xs : List ℤ) (cap head len : ℕ) → len ≤ cap → 0 < cap → IsQueue (rebuilt xs cap head len)
rebuilt-IsQueue xs cap head len inside positive = record {
  slots = length-scatter xs cap head;
  inside = inside;
  positive = positive;
}

enqueued_lem : (q : Queue) (x : ℤ) → IsQueue q → q.len < q.cap → Enqueued q x (enqueued q x)
enqueued_lem q x valid room = record {
  valid =
      rebuilt-IsQueue (elements q ++ x ∷ []) q.cap q.head (suc q.len) (omega arith) valid.positive;
  same_cap = refl;
  same_head = refl;
  longer = refl;
  kept = λ i lt. at-kept q.len (element q) (x ∷ []) q.cap q.head i lt (omega arith);
  added = at-appended q.len (element q) x q.cap q.head room;
}

dequeued_lem : (q : Queue) → IsQueue q → 0 < q.len → Dequeued q (dequeued q)
dequeued_lem q valid some_left = record {
  valid =
      rebuilt-IsQueue (others q) q.cap ((q.head + 1) % q.cap) (q.len - 1)
        (omega (arith, valid.inside)) valid.positive;
  same_cap = refl;
  moved_head = refl;
  shorter = omega arith;
  kept = λ i lt.
      ap (λ s. get_or (scatter (others q) q.cap ((q.head + 1) % q.cap)) s (pos 0))
        (sym (slot-next q.cap q.head i))
      ∙ at-scatter (others q) q.cap ((q.head + 1) % q.cap) i (omega (arith, valid.inside))
      ∙ get_or-tabulate (q.len - 1) (λ j. element q (suc j)) i lt;
}

pub scattering_queues : QueueApi always
scattering_queues = record {
  queue_init = λ cap. (true, rebuilt [] cap 0 0);
  queue_free = λ q. q;
  queue_enqueue = λ q x. if ltb q.len q.cap then (true, enqueued q x) else (false, q);
  queue_dequeue = λ q out. if q.len == 0 then (false, out, q) else (true, element q 0, dequeued q);
  queue_is_full = λ q. q.len == q.cap;
  queue_is_empty = λ q. q.len == 0;
  init_law = λ cap positive room.
      (rebuilt [] cap 0 0, refl, rebuilt-IsQueue [] cap 0 0 (omega arith) positive, refl, refl);
  init_fails = λ cap positive refused. absurd (differ refused);
  enqueue_law = λ q x valid room.
      (enqueued q x, rw (lt→ltb q.len q.cap room) refl, enqueued_lem q x valid room);
  enqueue_full = λ q x valid full. let off : ltb q.len q.cap ≡ false = ground arith in rw off refl;
  dequeue_law = λ q out valid some_left. (
    dequeued q,
    let on : (q.len == 0) ≡ false = ground arith in rw on refl,
    dequeued_lem q valid some_left,
  );
  dequeue_empty =
      λ q out valid none_left. let on : (q.len == 0) ≡ true = ground arith in rw on refl;
  is_full_law = λ q valid. refl;
  is_empty_law = λ q valid. refl;
}
  where
    differ : true ≡ false → ⊥
    differ e = cc
