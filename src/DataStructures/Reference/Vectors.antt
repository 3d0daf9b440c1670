-- ===== src/DataStructures/Reference/Vectors.antt =====
-- Growable arrays rebuilt from their elements, and with them functions that keep the laws of
-- ProperDS/src/vector.h.
use low_level.Prelude.{
  ℕ, zero, suc, ◌+◌, ◌-◌, ◌≤◌, ◌<◌, ◌≡◌, refl, sym, ap, ◌∙◌, Bool, true, false, ◌&&◌, Option, none,
  some, List, [], ◌∷◌, ◌++◌, take, drop, set, replicate, length, length-append, length-replicate,
  length-set, length-take, length-drop, get_elem?, get_or, arith, leb, ◌==◌,
}
use low_level.Prelude.Int.{ℤ, pos}
use low_level.DataStructures.GrowArray.{
  GrowArray, empty, is_null, contents, same, IsGrowArray, cap_after, has_room, empty-IsGrowArray,
  length-contents,
}
use low_level.DataStructures.Vector.{Vector, Holds, VectorApi}
use low_level.DataStructures.Vector.Edits.{take_front}

abbrev pub always : ℕ → Bool
always n = true

abbrev pub pack_buffer : ℕ → List ℤ → Option (List ℤ)
pack_buffer zero xs = none
pack_buffer (suc c) xs = some (xs ++ replicate (suc c - length xs) (pos 0))

-- The array of `cap` slots that starts with these elements.
abbrev pub pack : List ℤ → ℕ → GrowArray
pack xs cap = record { buffer = pack_buffer cap xs; len = length xs; cap = cap }

pub pack_lem : (xs : List ℤ) (cap : ℕ) → length xs ≤ cap → Holds xs cap (pack xs cap)
pack_lem [] zero h = record { valid = empty-IsGrowArray; items = refl; capacity = refl }
pack_lem (x ∷ xs) zero h = absurd (omega arith)
pack_lem xs (suc c) h = record {
  valid = record {
    inside = h;
    null = ground arith;
    room =
        length-append xs (replicate (suc c - length xs) (pos 0))
        ∙ omega (arith, length-replicate (suc c - length xs) (pos 0));
  };
  items = take_front (length xs) xs (replicate (suc c - length xs) (pos 0)) refl;
  capacity = refl;
}

pub cap_after_room : (v : Vector) → IsGrowArray v → length (contents v) + 1 ≤ cap_after v
cap_after_room v valid = ground (arith, length-contents v valid, valid.inside)

pub always_room : (v : Vector) → has_room always v ≡ true
always_room v = ground arith

pub no_failure : {A : Type 0} (v : Vector) → has_room always v ≡ false → A
no_failure v h = absurd (differ (sym (always_room v) ∙ h))
  where
    differ : true ≡ false → ⊥
    differ e = cc

pub get_elem?-get_or :
    (xs : List ℤ) (i : ℕ) → i < length xs → get_elem? xs i ≡ some (get_or xs i (pos 0))
get_elem?-get_or [] i h = absurd (omega arith)
get_elem?-get_or (x ∷ xs) zero h = refl
get_elem?-get_or (x ∷ xs) (suc i) h = get_elem?-get_or xs i (omega arith)

get_or-append : (xs ys : List ℤ) (y : ℤ) → get_or (xs ++ y ∷ ys) (length xs) (pos 0) ≡ y
get_or-append [] ys y = refl
get_or-append (x ∷ xs) ys y = get_or-append xs ys y

last : List ℤ → ℤ
last xs = get_or xs (length xs - 1) (pos 0)

front : List ℤ → List ℤ
front xs = take (length xs - 1) xs

pop_pack :
    (ys xs : List ℤ) (x : ℤ) (room : ℕ)
    → length ys ≤ room
    → ys ≡ xs ++ x ∷ []
    → (v' : Vector) × (◌≡◌ {A = ℤ × Vector} (last ys, pack (front ys) room) (x, v'))
      × Holds xs room v'
unfolding last front
pop_pack ys xs x room inside e =
    let size : length ys - 1 ≡ length xs = omega (arith, ap length e, length-append xs (x ∷ [])) in
    let l : last ys ≡ x = rw (size, e) (get_or-append xs [] x) in
    let f : front ys ≡ xs = rw (size, e) (take_front (length xs) xs (x ∷ []) refl) in
    (
      pack xs room,
      rw (l, f) refl,
      pack_lem xs room (omega (arith, size, ap length e, length-append xs (x ∷ []))),
    )

pub packing : VectorApi always
packing = record {
  vector_init = empty;
  vector_free = λ v. empty;
  vector_push = λ v x. (true, pack (contents v ++ x ∷ []) (cap_after v));
  vector_pop = λ v. (last (contents v), pack (front (contents v)) v.cap);
  vector_get = λ v i. get_or (contents v) i (pos 0);
  vector_set = λ v i x. pack (set (contents v) i x) v.cap;
  vector_insert_at =
      λ v i x. (true, pack (take i (contents v) ++ x ∷ drop i (contents v)) (cap_after v));
  vector_remove_at = λ v i. pack (take i (contents v) ++ drop (suc i) (contents v)) v.cap;
  vector_len = λ v. v.len;
  vector_cap = λ v. v.cap;
  vector_validate = λ v. leb v.len v.cap && same (is_null v.buffer) (v.cap == 0);
  init_law = refl;
  free_law = λ v valid. refl;
  push_law = λ v x valid room. (
    pack (contents v ++ x ∷ []) (cap_after v),
    refl,
    pack_lem (contents v ++ x ∷ []) (cap_after v)
        (omega (arith, length-append (contents v) (x ∷ []), cap_after_room v valid)),
  );
  push_fails = λ v x valid full. no_failure v full;
  pop_law = λ v xs x valid e.
      pop_pack (contents v) xs x v.cap (omega (arith, length-contents v valid, valid.inside)) e;
  get_law =
      λ v i valid inside. get_elem?-get_or (contents v) i (omega (arith, length-contents v valid));
  set_law = λ v i x valid inside.
      pack_lem (set (contents v) i x) v.cap
        (omega (arith, length-set (contents v) i x, length-contents v valid, valid.inside));
  insert_at_law = λ v i x valid inside room. (
    pack (take i (contents v) ++ x ∷ drop i (contents v)) (cap_after v),
    refl,
    pack_lem (take i (contents v) ++ x ∷ drop i (contents v)) (cap_after v) (
        omega (
          arith,
          length-append (take i (contents v)) (x ∷ drop i (contents v)),
          length-take i (contents v),
          length-drop i (contents v),
          cap_after_room v valid,
          length-contents v valid,
        )),
  );
  insert_at_fails = λ v i x valid full. no_failure v full;
  remove_at_law = λ v i valid inside.
      pack_lem (take i (contents v) ++ drop (suc i) (contents v)) v.cap (
        omega (
          arith,
          length-append (take i (contents v)) (drop (suc i) (contents v)),
          length-take i (contents v),
          length-drop (suc i) (contents v),
          length-contents v valid,
          valid.inside,
        ));
  len_law = λ v. refl;
  cap_law = λ v. refl;
  validate_law = λ v. refl;
}
