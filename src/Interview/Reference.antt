-- ===== src/Interview/Reference.antt =====
-- Functions that keep the laws of ProperInterview/src/dynarr.h, for the tests.
use low_level.Prelude.{
  ℕ, ◌+◌, ◌≤◌, ◌<◌, ◌≡◌, refl, ap, true, false, List, [], ◌∷◌, ◌++◌, take, drop, length,
  length-append, length-take, length-drop, arith, ◌==◌, if◌then◌else◌,
}
use low_level.Prelude.Int.{ℤ}
use low_level.DataStructures.GrowArray.{empty, contents, IsGrowArray, length-contents}
use low_level.DataStructures.Vector.{Holds}
use low_level.DataStructures.Reference.Vectors.{pack, pack_lem, packing}
use low_level.Interview.DynArr.{DynArr, cap_after, has_room, DynArrApi}

room_after : (d : DynArr) → IsGrowArray d → length (contents d) + 1 ≤ cap_after d.len d.cap
room_after d valid = ground (arith, length-contents d valid, valid.inside)

abbrev pushed : DynArr → ℤ → DynArr
pushed d x = pack (contents d ++ x ∷ []) (cap_after d.len d.cap)

abbrev inserted : DynArr → ℕ → ℤ → DynArr
inserted d i x = pack (take i (contents d) ++ x ∷ drop i (contents d)) (cap_after d.len d.cap)

pushed_lem :
    (d : DynArr) (x : ℤ)
    → IsGrowArray d
    → Holds (contents d ++ x ∷ []) (cap_after d.len d.cap) (pushed d x)
pushed_lem d x valid =
    pack_lem (contents d ++ x ∷ []) (cap_after d.len d.cap)
      (omega (arith, length-append (contents d) (x ∷ []), room_after d valid))

inserted_lem :
    (d : DynArr) (i : ℕ) (x : ℤ)
    → IsGrowArray d
    → i ≤ d.len
    → Holds
        (take i (contents d) ++ x ∷ drop i (contents d))
        (cap_after d.len d.cap)
        (inserted d i x)
inserted_lem d i x valid inside =
    pack_lem (take i (contents d) ++ x ∷ drop i (contents d)) (cap_after d.len d.cap) (
      omega (
        arith,
        length-append (take i (contents d)) (x ∷ drop i (contents d)),
        length-take i (contents d),
        length-drop i (contents d),
        room_after d valid,
        length-contents d valid,
      ))

nonempty :
    (d : DynArr) (xs : List ℤ) (x : ℤ)
    → IsGrowArray d
    → contents d ≡ xs ++ x ∷ []
    → (d.len == 0) ≡ false
nonempty d xs x valid e =
    let some_left : 0 < d.len =
      omega (arith, length-contents d valid, ap length e, length-append xs (x ∷ [])) in
    ground arith

pub packed_arrays : DynArrApi
packed_arrays = record {
  da_init = empty;
  da_free = λ d. empty;
  da_push =
      λ allocates d x. if has_room allocates d.len d.cap then (true, pushed d x) else (false, d);
  da_pop = λ d out.
      if d.len == 0
      then (false, out, d)
      else (true, (packing.vector_pop d).0, (packing.vector_pop d).1);
  da_get = packing.vector_get;
  da_set = packing.vector_set;
  da_insert_at = λ allocates d i x.
      if has_room allocates d.len d.cap then (true, inserted d i x) else (false, d);
  da_remove_at = packing.vector_remove_at;
  da_len = λ d. d.len;
  da_cap = λ d. d.cap;
  init_law = refl;
  free_law = λ d valid. refl;
  push_law = λ allocates d x valid room. (pushed d x, rw room refl, pushed_lem d x valid);
  push_fails = λ allocates d x valid full. rw full refl;
  pop_law = λ d xs x out valid e.
      let (d', runs, h) = packing.pop_law d xs x valid e in
      (d', rw (nonempty d xs x valid e) (ap (λ (r : ℤ × DynArr). (true, r.0, r.1)) runs), h);
  pop_empty = λ d out valid none_left. let on : (d.len == 0) ≡ true = ground arith in rw on refl;
  get_law = packing.get_law;
  set_law = packing.set_law;
  insert_at_law = λ allocates d i x valid inside room.
      (inserted d i x, rw room refl, inserted_lem d i x valid inside);
  insert_at_fails = λ allocates d i x valid inside full. rw full refl;
  remove_at_law = packing.remove_at_law;
  len_law = λ d. refl;
  cap_law = λ d. refl;
}
