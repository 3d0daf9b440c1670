-- ===== src/DataStructures/Reference/Deques.antt =====
-- Functions that keep the laws of ProperDS/src/deque.h.
use native.Mathlib.Nat.{mod-lt}
use low_level.Prelude.{
  ℕ, suc, ◌+◌, ◌-◌, ◌%◌, ◌≤◌, ◌<◌, ◌≡◌, refl, sym, ap, ◌∙◌, true, false, some, List, [], ◌∷◌, ◌++◌,
  get_or, arith, ltb, lt→ltb, if◌then◌else◌,
}
use low_level.Prelude.Int.{ℤ, pos}
use low_level.DataStructures.Ring.{tabulate, slot-next, slot-back}
use low_level.DataStructures.Deque.{
  Deque, empty, validate, IsDeque, element, elements, cap_after, start, has_room, PushedBack,
  PushedFront, PoppedFront, PoppedBack, DequeApi,
}
use low_level.DataStructures.Reference.Vectors.{always}
use low_level.DataStructures.Reference.Rings.{
  scatter, length-scatter, at-scatter, at-appended, at-kept, get_or-tabulate,
}

abbrev rebuilt : List ℤ → (cap head len : ℕ) → Deque
rebuilt xs cap head len = record {
  buffer = some (scatter xs cap head);
  cap = cap;
  head = head;
  len = len;
}

rebuilt-IsDeque :
    (xs : List ℤ) (cap head len : ℕ) → len ≤ cap → head < cap → IsDeque (rebuilt xs cap head len)
rebuilt-IsDeque xs cap head len inside within = record {
  valid = ground arith;
  slots = length-scatter xs cap head;
}

-- The state that a push works on has room and a head inside it.
room_after : (d : Deque) → IsDeque d → (suc d.len ≤ cap_after d) × (start d < cap_after d)
room_after d h = (ground (arith, h.valid), ground (arith, h.valid))

abbrev front : Deque → ℕ
front d = (start d + cap_after d - 1) % cap_after d

abbrev pushed_back : Deque → ℤ → Deque
pushed_back d x = rebuilt (elements d ++ x ∷ []) (cap_after d) (start d) (suc d.len)

abbrev pushed_front : Deque → ℤ → Deque
pushed_front d x = rebuilt (x ∷ elements d) (cap_after d) (front d) (suc d.len)

abbrev behind : Deque → List ℤ
behind d = tabulate (d.len - 1) (λ i. element d (suc i))

abbrev popped_front : Deque → Deque
popped_front d = rebuilt (behind d) d.cap ((d.head + 1) % d.cap) (d.len - 1)

abbrev popped_back : Deque → Deque
popped_back d = record d { len = d.len - 1 }

pushed_back_lem : (d : Deque) (x : ℤ) → IsDeque d → PushedBack d x (pushed_back d x)
pushed_back_lem d x h =
    let (room, within) = room_after d h in
    record {
      valid =
          rebuilt-IsDeque (elements d ++ x ∷ []) (cap_after d) (start d) (suc d.len) room within;
      longer = refl;
      kept = λ i lt.
          at-kept d.len (element d) (x ∷ []) (cap_after d) (start d) i lt (omega (arith, room));
      added = at-appended d.len (element d) x (cap_after d) (start d) room;
    }

pushed_front_lem : (d : Deque) (x : ℤ) → IsDeque d → PushedFront d x (pushed_front d x)
pushed_front_lem d x h =
    let (room, within) = room_after d h in
    record {
      valid =
          rebuilt-IsDeque (x ∷ elements d) (cap_after d) (front d) (suc d.len) room
            (mod-lt (start d + cap_after d - 1) (omega (arith, within)));
      capacity = refl;
      moved_head = refl;
      longer = refl;
      kept = λ i lt.
          ap (λ s. get_or (scatter (x ∷ elements d) (cap_after d) (front d)) s (pos 0))
            (sym (slot-back (cap_after d) (start d) i (omega (arith, within))))
          ∙ at-scatter (x ∷ elements d) (cap_after d) (front d) (suc i) (omega (arith, room))
          ∙ get_or-tabulate d.len (element d) i lt;
      added = at-scatter (x ∷ elements d) (cap_after d) (front d) 0 (omega (arith, room));
    }

popped_front_lem : (d : Deque) → IsDeque d → 0 < d.len → PoppedFront d (popped_front d)
popped_front_lem d h more =
    let inside : d.len ≤ d.cap = ground (arith, h.valid) in
    record {
      valid =
          rebuilt-IsDeque (behind d) d.cap ((d.head + 1) % d.cap) (d.len - 1)
            (omega (arith, inside)) (mod-lt (d.head + 1) (omega (arith, inside)));
      same_cap = refl;
      moved_head = refl;
      shorter = omega arith;
      kept = λ i lt.
          ap (λ s. get_or (scatter (behind d) d.cap ((d.head + 1) % d.cap)) s (pos 0))
            (sym (slot-next d.cap d.head i))
          ∙ at-scatter (behind d) d.cap ((d.head + 1) % d.cap) i (omega (arith, inside))
          ∙ get_or-tabulate (d.len - 1) (λ j. element d (suc j)) i lt;
    }

popped_back_lem : (d : Deque) → IsDeque d → 0 < d.len → PoppedBack d (popped_back d)
popped_back_lem d h more = record {
  valid = record { valid = ground (arith, h.valid); slots = h.slots };
  shorter = omega arith;
  kept = λ i lt. refl;
}

always_room : (d : Deque) → has_room always d ≡ true
always_room d = ground arith

no_failure : {A : Type 0} (d : Deque) → has_room always d ≡ false → A
no_failure d h = absurd (differ (sym (always_room d) ∙ h))
  where
    differ : true ≡ false → ⊥
    differ e = cc

pub scattering_deques : DequeApi always
scattering_deques = record {
  deque_init = empty;
  deque_free = λ d. empty;
  deque_push_front = λ d x. (true, pushed_front d x);
  deque_push_back = λ d x. (true, pushed_back d x);
  deque_pop_front =
      λ d out. if ltb 0 d.len then (true, element d 0, popped_front d) else (false, out, d);
  deque_pop_back = λ d out.
      if ltb 0 d.len then (true, element d (d.len - 1), popped_back d) else (false, out, d);
  deque_len = λ d. d.len;
  deque_validate = validate;
  init_law = refl;
  free_law = λ d h. refl;
  push_front_law = λ d x h room. (pushed_front d x, refl, pushed_front_lem d x h);
  push_back_law = λ d x h room. (pushed_back d x, refl, pushed_back_lem d x h);
  push_front_fails = λ d x h full. no_failure d full;
  push_back_fails = λ d x h full. no_failure d full;
  pop_front_law =
      λ d out h more. (popped_front d, rw (lt→ltb 0 d.len more) refl, popped_front_lem d h more);
  pop_back_law =
      λ d out h more. (popped_back d, rw (lt→ltb 0 d.len more) refl, popped_back_lem d h more);
  pop_front_empty =
      λ d out h none_left. let off : ltb 0 d.len ≡ false = ground arith in rw off refl;
  pop_back_empty = λ d out h none_left. let off : ltb 0 d.len ≡ false = ground arith in rw off refl;
  len_law = λ d. refl;
  validate_law = λ d. refl;
}
