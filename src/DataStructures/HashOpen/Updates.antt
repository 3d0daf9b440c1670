-- ===== src/DataStructures/HashOpen/Updates.antt =====
-- hashopen_put, hashopen_get and hashopen_delete of ProperDS/src/hashopen.h.
use low_level.Prelude.{
  ℕ, suc, ◌+◌, ◌*◌, ◌<◌, ◌≡◌, ◌≢◌, refl, sym, ap, ◌∙◌, true, false, Option, none, some, List,
  is_some, get_elem?, get_elem?-set_ne, if◌then◌else◌, ◌>>=◌, leb, Bool-cases, inl, inr, arith,
}
use low_level.Prelude.Int.{ℤ}
use low_level.DataStructures.Fnv.{key_eq, key_eq_refl, eq_of_key_eq}
use low_level.DataStructures.HashChain.{answer}
use low_level.DataStructures.HashOpen.{
  ho_occupied, ho_tombstone, HashOpen, occupied, nslots, IsHashOpen, value_of, add,
  kept_or_rehashed, hashopen_put, hashopen_get, hashopen_delete, delete_at,
}
use low_level.DataStructures.HashOpen.Deletion.{delete_at_lem, read-marked}
use low_level.DataStructures.HashOpen.Rounds.{count_slots-set}
use low_level.DataStructures.HashOpen.Placing.{Holds}
use low_level.DataStructures.HashOpen.Values.{
  found, present, missing, value_of-Holds, Holds-value_of, value_of-agree, Holds-filled,
  Holds-before, Holds-after, same_key,
}
use low_level.DataStructures.HashOpen.Writes.{Added, add_lem, with_value, with_value-IsHashOpen}
use low_level.DataStructures.HashOpen.Rehash.{rehashed_lem}

-- `t'` has the value `r` for the key `k`, and the values of `t` for the other keys.
abbrev pub Sets : HashOpen → List ℕ → Option ℤ → HashOpen → Type 0
Sets t k r t' = (j : List ℕ) → value_of t' j ≡ (if key_eq j k then r else value_of t j)

-- What is to be shown of `t'` for `Sets`.
sets_lem :
    (t : HashOpen) (k : List ℕ) (r : Option ℤ) (t' : HashOpen)
    → value_of t' k ≡ r
    → ((j : List ℕ) → j ≢ k → value_of t' j ≡ value_of t j)
    → Sets t k r t'
sets_lem t k r t' here others j = elim (Bool-cases (key_eq j k)) [
  | inl same ↦ rw same (ap (value_of t') (eq_of_key_eq j k same) ∙ here)
  | inr other ↦ rw other (others j (λ e. differ (sym (key_eq_refl j) ∙ ap (key_eq j) e ∙ other)))
]
  where
    differ : true ≡ false → ⊥
    differ h = cc

Added-Sets :
    (t t' : HashOpen) (k : List ℕ) (v : ℤ)
    → IsHashOpen t
    → IsHashOpen t'
    → Added t t' k v
    → Sets t k (some v) t'
Added-Sets t t' k v valid valid' a =
    sets_lem t k (some v) t' (value_of-Holds t' valid' k v a.holds) (λ j differs.
      value_of-agree t t' j valid valid' (a.before j) (λ w h. elim (a.after j w h) [
        | inl (same, same_v) ↦ absurd (differs (sym same))
        | inr old ↦ old
      ]))

module _ (t : HashOpen) (k : List ℕ) (valid : IsHashOpen t) where
  with_value-Sets :
      (v : ℤ) (i : ℕ) (u : ℤ) (here : get_elem? t.slots i ≡ some (ho_occupied k u))
      → Sets t k (some v) (with_value t valid k v i u here)
  with_value-Sets v i u here =
      let s = ho_occupied k u in
      let valid' = with_value-IsHashOpen t valid k v i u here in
      sets_lem t k (some v) (with_value t valid k v i u here)
        (value_of-Holds (with_value t valid k v i u here) valid' k v
          (Holds-filled t.slots i k v s here))
        (λ j differs.
          value_of-agree t (with_value t valid k v i u here) j valid valid'
            (λ w h.
              Holds-before t.slots i k v s here j w
                (λ x e. differs (sym (same_key k j u x (ap some e)))) h)
            (λ w (r, there). elim (Holds-after t.slots i k v s here r j w there) [
              | inl (same_slot, same, same_v) ↦ absurd (differs (sym same))
              | inr (apart, old) ↦ (r, old)
            ]))

  deleted-Sets :
      (i : ℕ) (u : ℤ) → get_elem? t.slots i ≡ some (ho_occupied k u) → Sets t k none (delete_at t i)
  deleted-Sets i u here =
      let (valid', gone, others) = delete_at_lem t i k u valid here in
      sets_lem t k none (delete_at t i) (rw gone refl) (λ j differs.
        value_of-agree t (delete_at t i) j valid valid'
          (λ w (r, there). (
            r,
            get_elem?-set_ne t.slots ho_tombstone (λ same.
                  differs (sym (same_key k j u w (sym here ∙ ap (get_elem? t.slots) same ∙ there))))
                ∙ there,
          ))
          (λ w (r, there). (r, (read-marked t.slots i k u here r j w there).1)))

  -- Adding an absent key, after a rehash if the load factor asks for one.
  added_lem :
      (v : ℤ)
      → ((w : ℤ) → ¬ Holds t.slots k w)
      → (t' : HashOpen) × ((add t k v >>= kept_or_rehashed t k v) ≡ some t')
        × IsHashOpen t'
        × (t'.len ≡ suc t.len)
        × Sets t k (some v) t'
  added_lem v absent =
      let (t', adds, a) = add_lem t k v valid absent in
      elim (Bool-cases (leb (10 * t'.used) (7 * nslots t'))) [
        | inl fits ↦
            let valid' = a.valid (ground (arith, fits)) in
            (t', rw (adds, fits) refl, valid', a.longer, Added-Sets t t' k v valid valid' a)
        | inr over ↦
            let (u, moves, valid_u, same_len, few, room, same) =
              rehashed_lem t (suc t.len) valid (omega arith) in
            let still_absent : (w : ℤ) → ¬ Holds u.slots k w = λ w h.
              absent w
                (Holds-value_of t valid k w (sym (same k) ∙ value_of-Holds u valid_u k w h)) in
            let (u', adds', b) = add_lem u k v valid_u still_absent in
            let valid' = b.valid (omega (arith, b.fuller, b.same_slots, few, room)) in
            (
              u',
              rw (adds, over, moves) adds',
              valid',
              omega (arith, b.longer, same_len),
              λ j.
                  Added-Sets u u' k v valid_u valid' b j
                  ∙ ap (λ r. if key_eq j k then some v else r) (same j),
            )
      ]

  -- hashopen_put ends; it gives the key its value and leaves the other keys theirs, and the table that
  -- it leaves has the invariant, whether it overwrote, recycled a tombstone, took an empty slot or
  -- went into a fresh table.
  pub hashopen_put_lem :
      (v : ℤ)
      → (t' : HashOpen) × (hashopen_put t k v ≡ some (true, t'))
        × IsHashOpen t'
        × (t'.len ≡ (if is_some (value_of t k) then t.len else suc t.len))
        × Sets t k (some v) t'
  unfolding hashopen_put
  hashopen_put_lem v = elim (found t valid k) [
    | present i u finds here value ↦ (
      with_value t valid k v i u here,
      rw finds refl,
      with_value-IsHashOpen t valid k v i u here,
      rw value refl,
      with_value-Sets v i u here,
    )
    | missing finds value absent ↦
        let (t', puts, valid', longer, sets) = added_lem v absent in
        (t', rw (finds, puts) refl, valid', rw value longer, sets)
  ]

  pub hashopen_get_lem : (out : ℤ) → hashopen_get t k out ≡ some (answer (value_of t k) out)
  unfolding hashopen_get
  hashopen_get_lem out = elim (found t valid k) [
    | present i u finds here value ↦ rw (finds, here) refl
    | missing finds value absent ↦ rw finds refl
  ]

  -- hashopen_delete ends, and answers whether the key was present; afterwards it is absent and the
  -- other keys have their values, and the invariant holds.
  pub hashopen_delete_lem :
      (t' : HashOpen) × (hashopen_delete t k ≡ some (is_some (value_of t k), t'))
      × IsHashOpen t'
      × (t'.len + (if is_some (value_of t k) then 1 else 0) ≡ t.len)
      × Sets t k none t'
  unfolding hashopen_delete
  hashopen_delete_lem = elim (found t valid k) [
    | present i u finds here value ↦ (
      delete_at t i,
      rw (finds, here) refl,
      (delete_at_lem t i k u valid here).0,
      rw value (omega (arith, some_live i u here)),
      deleted-Sets i u here,
    )
    | missing finds value absent ↦ (
      t,
      rw finds refl,
      valid,
      rw value (omega arith),
      sets_lem t k none t value (λ j differs. refl),
    )
  ]
    where
      some_live : (i : ℕ) (u : ℤ) → get_elem? t.slots i ≡ some (ho_occupied k u) → 0 < t.len
      some_live i u here = omega (
        arith,
        valid.live,
        count_slots-set occupied t.slots i (ho_occupied k u) ho_tombstone here,
      )
