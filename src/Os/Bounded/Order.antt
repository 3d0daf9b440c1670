-- ===== src/Os/Bounded/Order.antt =====
-- The bounded queue of ProperOS/src/threads.h is first-in first-out.
use low_level.Prelude.{
  ℕ, ◌<◌, ◌≡◌, Option, none, some, List, [], ◌∷◌, ◌++◌, length, if◌then◌else◌, ltb,
}
use low_level.Prelude.Int.{ℤ, pos}
use low_level.Os.Slots.{Waits}
use low_level.Os.Bounded.{BoundedQueue, BoundedApi}

-- The calls of producers and consumers, in the order in which they get the mutex.
pub data Call : Type 0 where
  push : ℤ → Call
  pop : Call

-- What a call answers; `none` if it has to wait.
abbrev pub Answer : Type 0
Answer = Option ℤ

abbrev pushed : BoundedQueue → Option BoundedQueue → Answer × BoundedQueue
pushed q none = (none, q)
pushed q (some q') = (some (pos 0), q')

abbrev popped : BoundedQueue → Option (ℤ × BoundedQueue) → Answer × BoundedQueue
popped q none = (none, q)
popped q (some (x, q')) = (some x, q')

pub step : BoundedApi → Call → BoundedQueue → Answer × BoundedQueue
step api (push v) q = pushed q (api.bq_push q v)
step api pop q = popped q (api.bq_pop q)

-- The specification: a list of at most `cap` values, the oldest first.
pub spec : ℕ → Call → List ℤ → Answer × List ℤ
spec cap (push v) xs = if ltb (length xs) cap then (some (pos 0), xs ++ v ∷ []) else (none, xs)
spec cap pop [] = (none, [])
spec cap pop (x ∷ xs) = (some x, xs)

abbrev Shows : ℕ → BoundedQueue → List ℤ → Type 0
Shows cap q xs =
    (q.cap ≡ cap) × (0 < q.cap) × (q.count ≡ length xs) × Waits q.buf q.cap q.head q.tail xs
