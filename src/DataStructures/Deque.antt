-- ===== src/DataStructures/Deque.antt =====
-- ProperDS/src/deque.h: a growable ring buffer with two ends. `none` is NULL, and `buffer` is the
-- field `data`.
pub mod Order
use low_level.Prelude.{
  ℕ, zero, suc, ◌+◌, ◌-◌, ◌%◌, ◌≤◌, ◌<◌, ◌≡◌, Bool, true, false, ◌&&◌, ◌||◌, Option, none, some,
  List, length, leb, ltb, ◌==◌, if◌then◌else◌,
}
use low_level.Prelude.Int.{ℤ}
use low_level.DataStructures.Ring.{at, tabulate}
use low_level.DataStructures.GrowArray.{slots_of, is_null, grown, same}

pub record Deque : Type 0 where
  pub buffer : Option (List ℤ)
  pub cap : ℕ
  pub head : ℕ
  pub len : ℕ

abbrev pub empty : Deque
empty = record { buffer = none; cap = 0; head = 0; len = 0 }

-- The invariant, as the checker of the header tests it.
abbrev pub validate : Deque → Bool
validate d =
    leb d.len d.cap && (d.cap == 0 || ltb d.head d.cap) && same (is_null d.buffer) (d.cap == 0)

pub record IsDeque (d : Deque) : Type 0 where
  pub valid : validate d ≡ true
  pub slots : length (slots_of d.buffer) ≡ d.cap

abbrev pub element : Deque → ℕ → ℤ
element d i = at (slots_of d.buffer) d.cap d.head i

abbrev pub elements : Deque → List ℤ
elements d = tabulate d.len (element d)

-- A full buffer grows, and the elements then start at slot 0.
abbrev pub cap_after : Deque → ℕ
cap_after d = if d.len == d.cap then grown d.cap else d.cap

abbrev pub start : Deque → ℕ
start d = if d.len == d.cap then 0 else d.head

abbrev pub has_room : (ℕ → Bool) → Deque → Bool
has_room allocates d = ltb d.len d.cap || allocates (grown d.cap)

pub record PushedBack (d : Deque) (x : ℤ) (d' : Deque) : Type 0 where
  pub valid : IsDeque d'
  pub longer : d'.len ≡ suc d.len
  pub kept : (i : ℕ) → i < d.len → element d' i ≡ element d i
  pub added : element d' d.len ≡ x

-- The slot in front of the first element, wrapped around.
pub record PushedFront (d : Deque) (x : ℤ) (d' : Deque) : Type 0 where
  pub valid : IsDeque d'
  pub capacity : d'.cap ≡ cap_after d
  pub moved_head : d'.head ≡ (start d + cap_after d - 1) % cap_after d
  pub longer : d'.len ≡ suc d.len
  pub kept : (i : ℕ) → i < d.len → at (slots_of d'.buffer) (cap_after d) (start d) i ≡ element d i
  pub added : element d' 0 ≡ x

pub record PoppedFront (d : Deque) (d' : Deque) : Type 0 where
  pub valid : IsDeque d'
  pub same_cap : d'.cap ≡ d.cap
  pub moved_head : d'.head ≡ (d.head + 1) % d.cap
  pub shorter : suc d'.len ≡ d.len
  pub kept : (i : ℕ) → i < d'.len → at (slots_of d'.buffer) d.cap d.head (suc i) ≡ element d (suc i)

pub record PoppedBack (d : Deque) (d' : Deque) : Type 0 where
  pub valid : IsDeque d'
  pub shorter : suc d'.len ≡ d.len
  pub kept : (i : ℕ) → i < d'.len → element d' i ≡ element d i

-- The functions of the header. A value `*out` is given and returned.
pub record DequeApi (allocates : ℕ → Bool) : Type 0 where
  pub deque_init : Deque
  pub deque_free : Deque → Deque
  pub deque_push_front : Deque → ℤ → Bool × Deque
  pub deque_push_back : Deque → ℤ → Bool × Deque
  pub deque_pop_front : Deque → ℤ → Bool × ℤ × Deque
  pub deque_pop_back : Deque → ℤ → Bool × ℤ × Deque
  pub deque_len : Deque → ℕ
  pub deque_validate : Deque → Bool
  pub init_law : deque_init ≡ empty
  pub free_law : (d : Deque) → IsDeque d → deque_free d ≡ empty
  pub push_front_law :
      (d : Deque) (x : ℤ)
      → IsDeque d
      → has_room allocates d ≡ true
      → (d' : Deque) × (deque_push_front d x ≡ (true, d')) × PushedFront d x d'
  pub push_back_law :
      (d : Deque) (x : ℤ)
      → IsDeque d
      → has_room allocates d ≡ true
      → (d' : Deque) × (deque_push_back d x ≡ (true, d')) × PushedBack d x d'
  pub push_front_fails :
      (d : Deque) (x : ℤ)
      → IsDeque d
      → has_room allocates d ≡ false
      → (deque_push_front d x).0 ≡ false
  pub push_back_fails :
      (d : Deque) (x : ℤ)
      → IsDeque d
      → has_room allocates d ≡ false
      → (deque_push_back d x).0 ≡ false
  pub pop_front_law :
      (d : Deque) (out : ℤ)
      → IsDeque d
      → 0 < d.len
      → (d' : Deque) × (deque_pop_front d out ≡ (true, element d 0, d')) × PoppedFront d d'
  pub pop_back_law :
      (d : Deque) (out : ℤ)
      → IsDeque d
      → 0 < d.len
      → (d' : Deque) × (deque_pop_back d out ≡ (true, element d (d.len - 1), d')) × PoppedBack d d'
  pub pop_front_empty :
      (d : Deque) (out : ℤ) → IsDeque d → d.len ≡ 0 → deque_pop_front d out ≡ (false, out, d)
  pub pop_back_empty :
      (d : Deque) (out : ℤ) → IsDeque d → d.len ≡ 0 → deque_pop_back d out ≡ (false, out, d)
  pub len_law : (d : Deque) → deque_len d ≡ d.len
  pub validate_law : (d : Deque) → deque_validate d ≡ validate d
