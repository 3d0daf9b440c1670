-- ===== src/DataStructures/HashOpen/Rehash.antt =====
-- The rehash of a table of ProperDS/src/hashopen.h into a fresh one.
use low_level.Prelude.{
  ℕ, zero, suc, ◌+◌, ◌*◌, ◌≤◌, ◌<◌, ◌≡◌, ◌⊎◌, ◌≢◌, refl, ap, ap₂, ◌∙◌, true, none, some, List, [],
  ◌∷◌, length-replicate, replicate, get_elem?, leb, Bool-cases, inl, inr, arith,
}
use mathlib.Core.Path.{subst}
use low_level.Prelude.Int.{ℤ}
use low_level.DataStructures.HashOpen.{
  HoSlot, ho_empty, ho_occupied, ho_tombstone, HashOpen, nslots, occupied, in_use, count_slots,
  IsHashOpen, value_of, vacant, with_slots, fitting, reinsert, rehashed,
}
use low_level.DataStructures.HashOpen.Placing.{Holds}
use low_level.DataStructures.HashOpen.Values.{value_of-agree, one_slot, same_key, same_value}
use low_level.DataStructures.HashOpen.Writes.{Added, add_lem, vacant-occupied}

pub none_held :
    (n i : ℕ) (k : List ℕ) (w : ℤ) → get_elem? (replicate n ho_empty) i ≢ some (ho_occupied k w)
none_held zero i k w e = cc
none_held (suc n) zero k w e = cc
none_held (suc n) (suc i) k w e = none_held n i k w e

count-replicate :
    (f : HoSlot → ℕ) (n : ℕ) → f ho_empty ≡ 0 → count_slots f (replicate n ho_empty) ≡ 0
count-replicate f zero e = refl
count-replicate f (suc n) e = omega (arith, e, count-replicate f n e)

pub with_slots-IsHashOpen : (n : ℕ) → 0 < n → IsHashOpen (with_slots n)
with_slots-IsHashOpen n some_slot = record {
  live = count-replicate occupied n refl;
  filled = count-replicate in_use n refl;
  load = omega arith;
  room = rw (length-replicate n ho_empty) some_slot;
  reachable = λ i k v e. absurd (none_held n i k v e);
}

fitting_lem :
    (live fuel n : ℕ)
    → 2 ≤ n
    → 10 * live ≤ 7 * n + 10 * fuel
    → (10 * live ≤ 7 * fitting live fuel n) × (0 < fitting live fuel n)
unfolding fitting
fitting_lem live zero n large enough = (omega arith, omega arith)
fitting_lem live (suc fuel) n large enough = elim (Bool-cases (leb (10 * live) (7 * n))) [
  | inl fits ↦ rw fits (ground (arith, fits), omega arith)
  | inr not_yet ↦ rw not_yet (fitting_lem live fuel (2 * n) (omega arith) (omega arith))
]

-- No key is in two slots.
abbrev Distinct : List HoSlot → Type 0
Distinct slots =
    (k : List ℕ) (i j : ℕ) (v w : ℤ)
    → get_elem? slots i ≡ some (ho_occupied k v)
    → get_elem? slots j ≡ some (ho_occupied k w)
    → i ≡ j

Distinct-tail : (x : HoSlot) (slots : List HoSlot) → Distinct (x ∷ slots) → Distinct slots
Distinct-tail x slots distinct k i j v w e e' = omega (arith, distinct k (suc i) (suc j) v w e e')

-- `u'` is `u` with the entries of `slots`.
record Reinserted (slots : List HoSlot) (u u' : HashOpen) : Type 0 where
  valid : IsHashOpen u'
  same_slots : nslots u' ≡ nslots u
  longer : u'.len ≡ u.len + count_slots occupied slots
  fuller : u'.used ≤ u.used + count_slots occupied slots
  before : (k : List ℕ) (w : ℤ) → Holds u.slots k w → Holds u'.slots k w
  moved : (k : List ℕ) (w : ℤ) → Holds slots k w → Holds u'.slots k w
  after : (k : List ℕ) (w : ℤ) → Holds u'.slots k w → Holds u.slots k w ⊎ Holds slots k w

Holds-∷ :
    (x : HoSlot) (slots : List HoSlot) (k : List ℕ) (w : ℤ)
    → Holds slots k w
    → Holds (x ∷ slots) k w
Holds-∷ x slots k w (i, here) = (suc i, here)

module _ (slots : List HoSlot) (u u' : HashOpen) where
  Reinserted-vacant :
      (x : HoSlot) → vacant x ≡ true → Reinserted slots u u' → Reinserted (x ∷ slots) u u'
  Reinserted-vacant x free r = record {
    valid = r.valid;
    same_slots = r.same_slots;
    longer = omega (arith, r.longer, vacant-occupied x free);
    fuller = omega (arith, r.fuller);
    before = r.before;
    moved = λ k w h. later k w h;
    after = λ k w h. elim (r.after k w h) [
      | inl old ↦ inl old
      | inr new ↦ inr (Holds-∷ x slots k w new)
    ];
  }
    where
      clash : (y : HoSlot) (k : List ℕ) (w : ℤ) → vacant y ≡ true → some y ≢ some (ho_occupied k w)
      clash ho_empty k w free' e = cc
      clash ho_tombstone k w free' e = cc
      clash (ho_occupied j v) k w free' e = cc

      later : (k : List ℕ) (w : ℤ) → Holds (x ∷ slots) k w → Holds u'.slots k w
      later k w (zero, e) = absurd (clash x k w free e)
      later k w (suc i, e) = r.moved k w (i, e)

  Reinserted-occupied :
      (u1 : HashOpen) (key : List ℕ) (v : ℤ)
      → Added u u1 key v
      → Reinserted slots u1 u'
      → Reinserted (ho_occupied key v ∷ slots) u u'
  Reinserted-occupied u1 key v a r = record {
    valid = r.valid;
    same_slots = r.same_slots ∙ a.same_slots;
    longer = omega (arith, r.longer, a.longer);
    fuller = omega (arith, r.fuller, a.fuller);
    before = λ k w h. r.before k w (a.before k w h);
    moved = λ k w h. later k w h;
    after = λ k w h. elim (r.after k w h) [
      | inl old ↦ elim (a.after k w old) [
        | inl (same, same_v) ↦ inr (zero, ap some (ap₂ ho_occupied same same_v))
        | inr older ↦ inl older
      ]
      | inr new ↦ inr (Holds-∷ (ho_occupied key v) slots k w new)
    ];
  }
    where
      later : (k : List ℕ) (w : ℤ) → Holds (ho_occupied key v ∷ slots) k w → Holds u'.slots k w
      later k w (zero, e) =
          subst (λ j. Holds u'.slots j w) (same_key key k v w e)
            (subst (Holds u'.slots key) (same_value key k v w e) (r.before key v a.holds))
      later k w (suc i, e) = r.moved k w (i, e)

reinsert_lem :
    (slots : List HoSlot) (u : HashOpen)
    → IsHashOpen u
    → 10 * (u.used + count_slots occupied slots) ≤ 7 * nslots u
    → Distinct slots
    → ((k : List ℕ) (v w : ℤ) → Holds slots k v → ¬ Holds u.slots k w)
    → (u' : HashOpen) × (reinsert slots u ≡ some u') × Reinserted slots u u'
unfolding reinsert
reinsert_lem [] u valid load distinct apart = (
  u,
  refl,
  record {
    valid = valid;
    same_slots = refl;
    longer = omega arith;
    fuller = omega arith;
    before = λ k w h. h;
    moved = λ k w (i, e). let h : none ≡ some (ho_occupied k w) = e in cc;
    after = λ k w h. inl h;
  },
)
reinsert_lem (ho_empty ∷ slots) u valid load distinct apart =
    let (u', ends, r) =
      reinsert_lem slots u valid (omega (arith, load)) (Distinct-tail ho_empty slots distinct)
        (λ k v w h. apart k v w (Holds-∷ ho_empty slots k v h)) in
    (u', ends, Reinserted-vacant slots u u' ho_empty refl r)
reinsert_lem (ho_tombstone ∷ slots) u valid load distinct apart =
    let (u', ends, r) =
      reinsert_lem slots u valid (omega (arith, load)) (Distinct-tail ho_tombstone slots distinct)
        (λ k v w h. apart k v w (Holds-∷ ho_tombstone slots k v h)) in
    (u', ends, Reinserted-vacant slots u u' ho_tombstone refl r)
reinsert_lem (ho_occupied key x ∷ slots) u valid load distinct apart =
    let (u1, adds, a) = add_lem u key x valid (λ w. apart key x w (zero, refl)) in
    let (u', ends, r) =
      reinsert_lem slots u1 (a.valid (omega (arith, load, a.fuller, a.same_slots)))
        (omega (arith, load, a.fuller, a.same_slots))
        (Distinct-tail (ho_occupied key x) slots distinct)
        (λ k v w (i, e) h. elim (a.after k w h) [
          | inl (same, same_v) ↦
              absurd (far (distinct k zero (suc i) x v (ap (λ j. some (ho_occupied j x)) same) e))
          | inr old ↦ apart k v w (suc i, e) old
        ]) in
    (u', rw adds ends, Reinserted-occupied slots u u' u1 key x a r)
  where
    far : {i : ℕ} → zero ≡ suc i → ⊥
    far e = omega (arith, e)

-- A rehash for at least the live keys keeps them and their values, and no tombstone.
pub rehashed_lem :
    (t : HashOpen) (live : ℕ)
    → IsHashOpen t
    → t.len ≤ live
    → (u : HashOpen) × (rehashed t live ≡ some u)
      × IsHashOpen u
      × (u.len ≡ t.len)
      × (u.used ≤ t.len)
      × (10 * live ≤ 7 * nslots u)
      × ((k : List ℕ) → value_of u k ≡ value_of t k)
unfolding rehashed
rehashed_lem t live valid le =
    let (enough, some_slot) = fitting_lem live live 16 (omega arith) (omega arith) in
    let n = fitting live live 16 in
    let size : nslots (with_slots n) ≡ n = length-replicate n ho_empty in
    let (u, ends, r) =
      reinsert_lem t.slots (with_slots n) (with_slots-IsHashOpen n some_slot)
        (omega (arith, size, enough, valid.live, le)) (one_slot t valid)
        (λ k v w h (i, e). none_held n i k w e) in
    (
      u,
      ends,
      r.valid,
      omega (arith, r.longer, valid.live),
      omega (arith, r.fuller, valid.live),
      omega (arith, r.same_slots, size, enough),
      λ k. value_of-agree t u k valid r.valid (r.moved k) (λ w h. elim (r.after k w h) [
        | inl (i, e) ↦ absurd (none_held n i k w e)
        | inr old ↦ old
      ]),
    )
