-- ===== src/DataStructures/Queue.antt =====
-- The queue of ProperDS/src/stackqueue.h: a first-in first-out ring buffer of fixed capacity.
-- `buffer` is the field `data` once queue_init has allocated it.
pub mod Order
use low_level.Prelude.{ℕ, zero, suc, ◌+◌, ◌%◌, ◌≤◌, ◌<◌, ◌≡◌, Bool, true, false, List, length, ◌==◌}
use low_level.Prelude.Int.{ℤ}
use low_level.DataStructures.Ring.{at, tabulate}

pub record Queue : Type 0 where
  pub buffer : List ℤ
  pub cap : ℕ
  pub head : ℕ
  pub len : ℕ

pub record IsQueue (q : Queue) : Type 0 where
  pub slots : length q.buffer ≡ q.cap
  pub inside : q.len ≤ q.cap
  pub positive : 0 < q.cap

-- The logical element `i`, and all of them from the oldest on.
abbrev pub element : Queue → ℕ → ℤ
element q i = at q.buffer q.cap q.head i

abbrev pub elements : Queue → List ℤ
elements q = tabulate q.len (element q)

-- At the tail: the slots in use stay, and the next one holds `x`.
pub record Enqueued (q : Queue) (x : ℤ) (q' : Queue) : Type 0 where
  pub valid : IsQueue q'
  pub same_cap : q'.cap ≡ q.cap
  pub same_head : q'.head ≡ q.head
  pub longer : q'.len ≡ suc q.len
  pub kept : (i : ℕ) → i < q.len → element q' i ≡ element q i
  pub added : element q' q.len ≡ x

-- At the head: it moves on by one slot, and the other slots in use stay.
pub record Dequeued (q : Queue) (q' : Queue) : Type 0 where
  pub valid : IsQueue q'
  pub same_cap : q'.cap ≡ q.cap
  pub moved_head : q'.head ≡ (q.head + 1) % q.cap
  pub shorter : suc q'.len ≡ q.len
  pub kept : (i : ℕ) → i < q'.len → at q'.buffer q.cap q.head (suc i) ≡ element q (suc i)

-- The functions of the header. A value `*out` is given and returned. Nothing is said of a queue
-- after queue_free.
pub record QueueApi (allocates : ℕ → Bool) : Type 0 where
  pub queue_init : ℕ → Bool × Queue
  pub queue_free : Queue → Queue
  pub queue_enqueue : Queue → ℤ → Bool × Queue
  pub queue_dequeue : Queue → ℤ → Bool × ℤ × Queue
  pub queue_is_full : Queue → Bool
  pub queue_is_empty : Queue → Bool
  pub init_law :
      (cap : ℕ)
      → 0 < cap
      → allocates cap ≡ true
      → (q : Queue) × (queue_init cap ≡ (true, q)) × IsQueue q × (q.cap ≡ cap) × (q.len ≡ 0)
  pub init_fails : (cap : ℕ) → 0 < cap → allocates cap ≡ false → (queue_init cap).0 ≡ false
  pub enqueue_law :
      (q : Queue) (x : ℤ)
      → IsQueue q
      → q.len < q.cap
      → (q' : Queue) × (queue_enqueue q x ≡ (true, q')) × Enqueued q x q'
  pub enqueue_full :
      (q : Queue) (x : ℤ) → IsQueue q → q.len ≡ q.cap → queue_enqueue q x ≡ (false, q)
  pub dequeue_law :
      (q : Queue) (out : ℤ)
      → IsQueue q
      → 0 < q.len
      → (q' : Queue) × (queue_dequeue q out ≡ (true, element q 0, q')) × Dequeued q q'
  pub dequeue_empty :
      (q : Queue) (out : ℤ) → IsQueue q → q.len ≡ 0 → queue_dequeue q out ≡ (false, out, q)
  pub is_full_law : (q : Queue) → IsQueue q → queue_is_full q ≡ (q.len == q.cap)
  pub is_empty_law : (q : Queue) → IsQueue q → queue_is_empty q ≡ (q.len == 0)
