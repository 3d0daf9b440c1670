-- ===== src/Os/Bounded.antt =====
-- The bounded blocking queue of ProperOS/src/threads.h, by the contract of its calls, which its mutex
-- takes one after the other. A call that has to wait is `none`, and is made again later.
pub mod Order
use low_level.Prelude.{
  ℕ, zero, suc, ◌+◌, ◌-◌, ◌%◌, ◌≤◌, ◌<◌, ◌≡◌, Option, none, some, List, length, get_elem?, set,
}
use low_level.Prelude.Int.{ℤ}

pub record BoundedQueue : Type 0 where
  pub buf : List ℤ
  pub cap : ℕ
  pub head : ℕ
  pub tail : ℕ
  pub count : ℕ

-- `head` is the next slot to pop and `tail` the next slot to push.
pub record IsBounded (q : BoundedQueue) : Type 0 where
  pub positive : 0 < q.cap
  pub slots : length q.buf ≡ q.cap
  pub start : q.head < q.cap
  pub inside : q.count ≤ q.cap
  pub next_push : q.tail ≡ (q.head + q.count) % q.cap

-- While no call of pthread fails. A push blocks while the queue is full, a pop while it is empty.
pub record BoundedApi : Type 0 where
  pub bq_init : ℕ → BoundedQueue
  pub bq_push : BoundedQueue → ℤ → Option BoundedQueue
  pub bq_pop : BoundedQueue → Option (ℤ × BoundedQueue)
  pub init_law :
      (cap : ℕ)
      → 0 < cap
      → IsBounded (bq_init cap) × ((bq_init cap).cap ≡ cap) × ((bq_init cap).count ≡ 0)
  pub push_blocks : (q : BoundedQueue) (v : ℤ) → IsBounded q → q.count ≡ q.cap → bq_push q v ≡ none
  pub push_law :
      (q : BoundedQueue) (v : ℤ)
      → IsBounded q
      → q.count < q.cap
      → bq_push q v
        ≡ some (record q {
          buf = set q.buf q.tail v;
          tail = (q.tail + 1) % q.cap;
          count = q.count + 1;
        })
  pub pop_blocks : (q : BoundedQueue) → IsBounded q → q.count ≡ 0 → bq_pop q ≡ none
  pub pop_law :
      (q : BoundedQueue) (x : ℤ)
      → IsBounded q
      → 0 < q.count
      → get_elem? q.buf q.head ≡ some x
      → bq_pop q ≡ some (x, record q { head = (q.head + 1) % q.cap; count = q.count - 1 })
