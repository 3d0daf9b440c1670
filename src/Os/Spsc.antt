-- ===== src/Os/Spsc.antt =====
-- The single-producer single-consumer ring of ProperOS/src/atomics.h, by the contract of its calls. A
-- call of the producer and one of the consumer are taken one after the other, in any order: what the
-- header says of acquire and release is not modelled.
pub mod Order
use low_level.Prelude.{
  ℕ, suc, ◌+◌, ◌-◌, ◌*◌, ◌^◌, ◌<◌, ◌≡◌, ◌≢◌, Bool, true, false, Option, none, some, List, length,
  get_elem?, set, bit_and,
}
use low_level.Prelude.Int.{ℤ}

pub record SpscRing : Type 0 where
  pub buf : List ℤ
  pub cap : ℕ
  pub head : ℕ
  pub tail : ℕ

-- The next index, masked with `cap - 1`.
unfoldable pub next : ℕ → ℕ → ℕ
next cap i = bit_and (i + 1) (cap - 1)

-- The capacity is a power of two and at least 2, and both indices are slots.
pub record IsSpsc (r : SpscRing) : Type 0 where
  pub exponent : ℕ
  pub power : r.cap ≡ 2 ^ suc exponent
  pub slots : length r.buf ≡ r.cap
  pub inside : (r.head < r.cap) × (r.tail < r.cap)

-- spsc_init gives no ring where it returns -1, as for other capacities. One slot stays free, to tell full from empty. Only
-- spsc_push writes `tail`, and only spsc_pop `head`. A value `*out` is given and returned.
pub record SpscApi : Type 0 where
  pub spsc_init : ℕ → Option SpscRing
  pub spsc_push : SpscRing → ℤ → Bool × SpscRing
  pub spsc_pop : SpscRing → ℤ → Bool × ℤ × SpscRing
  pub init_law :
      (e : ℕ)
      → (r : SpscRing) × (spsc_init (2 ^ suc e) ≡ some r)
        × IsSpsc r
        × (r.cap ≡ 2 ^ suc e)
        × (r.head ≡ r.tail)
  pub push_full :
      (r : SpscRing) (v : ℤ) → IsSpsc r → next r.cap r.tail ≡ r.head → spsc_push r v ≡ (false, r)
  pub push_law :
      (r : SpscRing) (v : ℤ)
      → IsSpsc r
      → next r.cap r.tail ≢ r.head
      → spsc_push r v ≡ (true, record r { buf = set r.buf r.tail v; tail = next r.cap r.tail })
  pub pop_empty :
      (r : SpscRing) (out : ℤ) → IsSpsc r → r.head ≡ r.tail → spsc_pop r out ≡ (false, out, r)
  pub pop_law :
      (r : SpscRing) (x out : ℤ)
      → IsSpsc r
      → r.head ≢ r.tail
      → get_elem? r.buf r.head ≡ some x
      → spsc_pop r out ≡ (true, x, record r { head = next r.cap r.head })
