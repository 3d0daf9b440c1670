-- ===== src/Os/Examples.antt =====
-- The queues of ProperOS/src at concrete calls, with functions that keep their contracts.
use low_level.Prelude.{
  ℕ, zero, suc, ◌+◌, ◌-◌, ◌%◌, ◌^◌, ◌<◌, ◌≡◌, refl, sym, ap, true, false, some, none, List, [], ◌∷◌,
  length-replicate, replicate, get_elem?, set, ◌==◌, if◌then◌else◌, arith, get_or,
}
use mathlib.Core.Option.{some-injective}
use native.Mathlib.Nat.{mod-eq_of_lt, pow-suc}
use low_level.Prelude.Int.{ℤ, pos}
use low_level.DataStructures.Trace.{run}
use low_level.Os.Spsc.{SpscRing, next, SpscApi}
use low_level.Os.Spsc.Order as SpscOrder
use low_level.Os.Spsc.Order.{spsc_refines}
use low_level.Os.Bounded.{BoundedApi}
use low_level.Os.Bounded.Order as BoundedOrder

two_pow_pos : (e : ℕ) → 0 < 2 ^ e
two_pow_pos zero = omega arith
two_pow_pos (suc e) = omega (arith, pow-suc 2 e, two_pow_pos e)

abbrev value_at : List ℤ → ℕ → ℤ
value_at buf i = get_or buf i (pos 0)

value_at-some : (buf : List ℤ) (i : ℕ) (x : ℤ) → get_elem? buf i ≡ some x → value_at buf i ≡ x
value_at-some [] i x e = cc
value_at-some (y ∷ buf) zero x e = some-injective y x e
value_at-some (y ∷ buf) (suc i) x e = value_at-some buf i x e

abbrev ring : SpscApi
ring = record {
  spsc_init = λ cap. some (record { buf = replicate cap (pos 0); cap = cap; head = 0; tail = 0 });
  spsc_push = λ r v.
      if next r.cap r.tail == r.head
      then (false, r)
      else (true, record r { buf = set r.buf r.tail v; tail = next r.cap r.tail });
  spsc_pop = λ r out.
      if r.head == r.tail
      then (false, out, r)
      else (true, value_at r.buf r.head, record r { head = next r.cap r.head });
  init_law = λ e. (
    record { buf = replicate (2 ^ suc e) (pos 0); cap = 2 ^ suc e; head = 0; tail = 0 },
    refl,
    record {
      exponent = e;
      power = refl;
      slots = length-replicate (2 ^ suc e) (pos 0);
      inside = (two_pow_pos (suc e), two_pow_pos (suc e));
    },
    refl,
    refl,
  );
  push_full = λ r v valid full.
      let b : (next r.cap r.tail == r.head) ≡ true = ground (arith, full) in rw b refl;
  push_law = λ r v valid free.
      let b : (next r.cap r.tail == r.head) ≡ false = ground (arith, free) in rw b refl;
  pop_empty =
      λ r out valid bare. let b : (r.head == r.tail) ≡ true = ground (arith, bare) in rw b refl;
  pop_law = λ r x out valid waits here.
      let b : (r.head == r.tail) ≡ false = ground (arith, waits) in
      rw b (
        ap (λ y. (true, y, record r { head = next r.cap r.head }))
          (value_at-some r.buf r.head x here));
}

abbrev guarded : BoundedApi
guarded = record {
  bq_init = λ cap. record { buf = replicate cap (pos 0); cap = cap; head = 0; tail = 0; count = 0 };
  bq_push = λ q v.
      if q.count == q.cap
      then none
      else some
          (record q { buf = set q.buf q.tail v; tail = (q.tail + 1) % q.cap; count = q.count + 1 });
  bq_pop = λ q.
      if q.count == 0
      then none
      else some
          (value_at q.buf q.head, record q { head = (q.head + 1) % q.cap; count = q.count - 1 });
  init_law = λ cap positive. (
    record {
      positive = positive;
      slots = length-replicate cap (pos 0);
      start = positive;
      inside = omega arith;
      next_push = sym (mod-eq_of_lt positive);
    },
    refl,
    refl,
  );
  push_blocks =
      λ q v valid full. let b : (q.count == q.cap) ≡ true = ground (arith, full) in rw b refl;
  push_law =
      λ q v valid room. let b : (q.count == q.cap) ≡ false = ground (arith, room) in rw b refl;
  pop_blocks = λ q valid bare. let b : (q.count == 0) ≡ true = ground (arith, bare) in rw b refl;
  pop_law = λ q x valid waits here.
      let b : (q.count == 0) ≡ false = ground (arith, waits) in
      rw b (
        ap (λ y. some (y, record q { head = (q.head + 1) % q.cap; count = q.count - 1 }))
          (value_at-some q.buf q.head x here));
}

-- Three pushes into four slots fill the ring, and the fourth is refused.
abbrev ring_calls : List SpscOrder.Call
ring_calls =
    SpscOrder.pop (pos 0)
    ∷ SpscOrder.push (pos 1)
    ∷ SpscOrder.push (pos 2)
    ∷ SpscOrder.push (pos 3)
    ∷ SpscOrder.push (pos 4)
    ∷ SpscOrder.pop (pos 0)
    ∷ SpscOrder.push (pos 5)
    ∷ SpscOrder.pop (pos 0)
    ∷ []

spsc_refines_example :
    (r : SpscRing) × (ring.spsc_init (2 ^ 2) ≡ some r)
    × (run (SpscOrder.step ring) ring_calls r ≡ run (SpscOrder.spec (2 ^ 2)) ring_calls [])
spsc_refines_example = spsc_refines ring 1 ring_calls

-- A consumer waits, two producers push, a third one waits, and the values come out in order.
abbrev queue_calls : List BoundedOrder.Call
queue_calls =
    BoundedOrder.pop
    ∷ BoundedOrder.push (pos 1)
    ∷ BoundedOrder.push (pos 2)
    ∷ BoundedOrder.push (pos 3)
    ∷ BoundedOrder.pop
    ∷ BoundedOrder.push (pos 3)
    ∷ BoundedOrder.pop
    ∷ BoundedOrder.pop
    ∷ []
