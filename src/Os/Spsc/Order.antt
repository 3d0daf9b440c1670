-- ===== src/Os/Spsc/Order.antt =====
-- The ring of ProperOS/src/atomics.h is first-in first-out, with one slot less than it has.
use low_level.Prelude.{
  ℕ, suc, ◌+◌, ◌%◌, ◌^◌, ◌<◌, ◌≡◌, ◌≢◌, refl, sym, ap, ◌∙◌, Bool, true, false, some, none, List, [],
  ◌∷◌, ◌++◌, length, length-append, if◌then◌else◌, ltb, lt→ltb, dec_lt, arith,
}
use native.Mathlib.Nat.{mod-lt, mod-eq_of_lt, mod-add-mod, add-mod_right}
use low_level.Prelude.Int.{ℤ, pos}
use low_level.Prelude.Word.{bit_and_mask}
use low_level.DataStructures.Ring.{slot-apart}
use low_level.DataStructures.Trace.{run, Follows, run-Follows}
use low_level.Os.Slots.{Waits, Waits-push, Waits-pop}
use low_level.Os.Spsc.{SpscRing, next, IsSpsc, SpscApi}

-- The calls of the producer and of the consumer.
pub data Call : Type 0 where
  push : ℤ → Call
  pop : ℤ → Call

abbrev pub Answer : Type 0
Answer = Bool × ℤ

pub step : SpscApi → Call → SpscRing → Answer × SpscRing
step api (push v) r = let (ok, r') = api.spsc_push r v in ((ok, pos 0), r')
step api (pop out) r = let (ok, x, r') = api.spsc_pop r out in ((ok, x), r')

-- The specification: a list of at most `cap - 1` values, the oldest first.
pub spec : ℕ → Call → List ℤ → Answer × List ℤ
spec cap (push v) xs =
    if ltb (suc (length xs)) cap then ((true, pos 0), xs ++ v ∷ []) else ((false, pos 0), xs)
spec cap (pop out) [] = ((false, out), [])
spec cap (pop out) (x ∷ xs) = ((true, x), xs)

next-mod : (cap e i : ℕ) → cap ≡ 2 ^ suc e → next cap i ≡ (i + 1) % cap
unfolding next
next-mod cap e i power = rw power (bit_and_mask (suc e) (i + 1))

record Shows (cap : ℕ) (r : SpscRing) (xs : List ℤ) : Type 0 where
  size : r.cap ≡ cap
  exponent : ℕ
  power : r.cap ≡ 2 ^ suc exponent
  waits : Waits r.buf r.cap r.head r.tail xs
  room : length xs < r.cap

module _ (cap : ℕ) (r : SpscRing) (xs : List ℤ) (h : Shows cap r xs) where
  positive : 0 < r.cap
  positive = omega (arith, h.room)

  valid : IsSpsc r
  valid = record {
    exponent = h.exponent;
    power = h.power;
    slots = h.waits.slots;
    inside = (
      h.waits.start,
      omega (arith, h.waits.behind, mod-lt (r.head + length xs) {m = r.cap} positive),
    );
  }

  at_head : (r.head + 0) % r.cap ≡ r.head
  at_head = mod-eq_of_lt (omega (arith, h.waits.start)) ∙ omega arith

  next_head : next r.cap r.head ≡ (r.head + 1) % r.cap
  next_head = next-mod r.cap h.exponent r.head h.power

  next_tail : next r.cap r.tail ≡ (r.head + suc (length xs)) % r.cap
  next_tail =
      next-mod r.cap h.exponent r.tail h.power
      ∙ ap (λ (t : ℕ). (t + 1) % r.cap) h.waits.behind
      ∙ mod-add-mod (r.head + length xs) r.cap 1
      ∙ ap (λ (t : ℕ). t % r.cap) {x = r.head + length xs + 1} {y = r.head + suc (length xs)}
          (omega arith)

  on_tail : next r.cap r.tail ≡ (r.tail + 1) % r.cap
  on_tail = next-mod r.cap h.exponent r.tail h.power

  full_lem : suc (length xs) ≡ r.cap → next r.cap r.tail ≡ r.head
  full_lem e =
      next_tail
      ∙ ap (λ (n : ℕ). (r.head + n) % r.cap) e
      ∙ add-mod_right r.head r.cap
      ∙ mod-eq_of_lt h.waits.start

  free_lem : suc (length xs) < r.cap → next r.cap r.tail ≢ r.head
  free_lem lt e = omega (
    arith,
    slot-apart r.cap r.head (suc (length xs)) 0 lt positive (sym next_tail ∙ e ∙ sym at_head),
  )

  waiting_lem : 0 < length xs → r.head ≢ r.tail
  waiting_lem some_value e = omega (
    arith,
    some_value,
    slot-apart r.cap r.head (length xs) 0 h.room positive
        (sym h.waits.behind ∙ sym e ∙ sym at_head),
  )

module _ (api : SpscApi) where
  step-Follows : (cap : ℕ) → Follows (step api) (spec cap) (Shows cap)
  unfolding step spec
  step-Follows cap (push v) r xs h = elim (dec_lt (suc (length xs)) cap) [
    | yes free ↦
        let lt : suc (length xs) < r.cap = omega (arith, free, h.size) in
        rw
          (
            api.push_law r v (valid cap r xs h) (free_lem cap r xs h lt),
            lt→ltb (suc (length xs)) cap free,
          )
          (
            refl,
            record {
              size = h.size;
              exponent = h.exponent;
              power = h.power;
              waits =
                  rw (on_tail cap r xs h)
                    (Waits-push r.buf r.cap r.head r.tail xs v h.waits (omega (arith, lt)));
              room = omega (arith, lt, length-append xs (v ∷ []));
            },
          )
    | no full ↦
        let at_end : ltb (suc (length xs)) cap ≡ false = ground (arith, full) in
        rw
          (
            api.push_full r v (valid cap r xs h)
                (full_lem cap r xs h (omega (arith, full, h.size, h.room))),
            at_end,
          )
          (refl, h)
  ]
  step-Follows cap (pop out) r [] h =
      rw (api.pop_empty r out (valid cap r [] h) (sym (h.waits.behind ∙ at_head cap r [] h)))
        (refl, h)
  step-Follows cap (pop out) r (x ∷ xs) h =
      let (here, w) = Waits-pop r.buf r.cap r.head r.tail x xs h.waits in
      rw
        (api.pop_law r x out (valid cap r (x ∷ xs) h) (waiting_lem cap r (x ∷ xs) h (omega arith))
          here)
        (
          refl,
          record {
            size = h.size;
            exponent = h.exponent;
            power = h.power;
            waits = rw (next_head cap r (x ∷ xs) h) w;
            room = omega (arith, h.room);
          },
        )

  -- For a capacity that is a power of two and at least 2, the calls of the producer and the consumer
  -- on a fresh ring, in any order, are answered as a list of at most `cap - 1` values would: pops give
  -- the values in the order of the pushes, spsc_push returns false exactly when `cap - 1` wait, and
  -- spsc_pop exactly when none does.
  pub spsc_refines :
      (e : ℕ) (calls : List Call)
      → (r : SpscRing) × (api.spsc_init (2 ^ suc e) ≡ some r)
        × (run (step api) calls r ≡ run (spec (2 ^ suc e)) calls [])
  spsc_refines e calls =
      let (r, runs, ok, size, level) = api.init_law e in
      (
        r,
        runs,
        run-Follows (step api) (spec (2 ^ suc e)) (Shows (2 ^ suc e)) calls r []
            (step-Follows (2 ^ suc e))
            (record {
              size = size;
              exponent = ok.exponent;
              power = ok.power;
              waits = record {
                slots = ok.slots;
                start = ok.inside.0;
                few = omega arith;
                behind = sym level ∙ sym (mod-eq_of_lt (omega (arith, ok.inside.0)) ∙ omega arith);
                held = λ i x e. let h : none ≡ some x = e in cc;
              };
              room = omega (arith, ok.inside.0);
            }),
      )
