-- ===== src/DataStructures/HashOpen/Probing.antt =====
-- Why the search in a table of ProperDS/src/hashopen.h ends.
use low_level.Prelude.{
  ℕ, zero, suc, ◌+◌, ◌-◌, ◌%◌, ◌<◌, ◌≡◌, refl, ap, ◌∙◌, Option, none, some, List, [], ◌∷◌, length,
  get_elem?, get_elem?-in_range, dec_lt, if◌then◌else◌, Bool-cases, inl, inr, arith,
}
use low_level.DataStructures.Ring.{slot-next}
use native.Mathlib.Nat.{add-mod_right, mod-eq_of_lt, mod-lt}
use low_level.DataStructures.Fnv.{fnv1a, key_eq}
use low_level.DataStructures.HashOpen.{
  HoSlot, ho_empty, ho_occupied, ho_tombstone, HashOpen, nslots, in_use, count_slots, home, probe,
  find, IsHashOpen,
}

-- If fewer slots are in use than there are, one is empty.
empty_slot :
    (slots : List HoSlot)
    → count_slots in_use slots < length slots
    → (e : ℕ) × (e < length slots) × (get_elem? slots e ≡ some ho_empty)
empty_slot [] h = absurd (omega arith)
empty_slot (ho_empty ∷ slots) h = (0, omega arith, refl)
empty_slot (ho_occupied k v ∷ slots) h =
    let (e, lt, is_empty) = empty_slot slots (omega arith) in (suc e, omega arith, is_empty)
empty_slot (ho_tombstone ∷ slots) h =
    let (e, lt, is_empty) = empty_slot slots (omega arith) in (suc e, omega arith, is_empty)

-- A search from `i` on ends at an empty slot `d` steps further, if not before.
probe_ends :
    (slots : List HoSlot) (key : List ℕ) (d fuel i : ℕ)
    → i < length slots
    → get_elem? slots ((i + d) % length slots) ≡ some ho_empty
    → d < fuel
    → (r : Option ℕ) × (probe slots key fuel i ≡ some r)
unfolding probe
probe_ends slots key d zero i inside e lt = absurd (omega arith)
probe_ends slots key zero (suc fuel) i inside e lt =
    let here : (i + 0) % length slots ≡ i = mod-eq_of_lt (omega arith) ∙ omega arith in
    (none, rw (rw here at e) refl)
probe_ends slots key (suc d) (suc fuel) i inside e lt =
    let (s, here) = get_elem?-in_range slots i inside in
    let (r, ends) =
      probe_ends slots key d fuel ((i + 1) % length slots) (mod-lt (i + 1) (omega arith))
        (rw (slot-next (length slots) i d) e) (omega arith) in
    rw here (one_round s r ends)
  where
    one_round :
        (s : HoSlot) (r : Option ℕ)
        → probe slots key fuel ((i + 1) % length slots) ≡ some r
        → (r' : Option ℕ) × ((elim s [
          | ho_empty ↦ some none
          | ho_occupied k v ↦
              (if key_eq k key
                then some (some i)
                else probe slots key fuel ((i + 1) % length slots))
          | ho_tombstone ↦ probe slots key fuel ((i + 1) % length slots)
        ])
            ≡ some r')
    one_round ho_empty r ends = (none, refl)
    one_round ho_tombstone r ends = (r, ends)
    one_round (ho_occupied k v) r ends = elim (Bool-cases (key_eq k key)) [
      | inl found ↦ (some i, rw found refl)
      | inr other ↦ (r, rw other ends)
    ]

distance : (e s n : ℕ) → e < n → s < n → (d : ℕ) × (d < n) × ((s + d) % n ≡ e)
distance e s n h h' = elim (dec_lt e s) [
  | yes wraps ↦ (
    n + e - s,
    omega arith,
    ap (λ (t : ℕ). t % n) {x = s + (n + e - s)} {y = e + n} (omega arith)
        ∙ add-mod_right e n
        ∙ mod-eq_of_lt h,
  )
  | no ahead ↦ (
    e - s,
    omega arith,
    ap (λ (t : ℕ). t % n) {x = s + (e - s)} {y = e} (omega arith) ∙ mod-eq_of_lt h,
  )
]

-- On the way of a key from its home there is an empty slot.
pub empty_ahead :
    (t : HashOpen) (key : List ℕ)
    → IsHashOpen t
    → (d : ℕ) × (d < nslots t) × (get_elem? t.slots ((home t key + d) % nslots t) ≡ some ho_empty)
empty_ahead t key valid =
    let (e, inside, is_empty) =
      empty_slot t.slots (omega (arith, valid.filled, valid.load, valid.room)) in
    let (d, near, meets) =
      distance e (home t key) (nslots t) inside (mod-lt (fnv1a key) valid.room) in
    (d, near, rw meets is_empty)

-- In a valid table every search ends, for a key that is there or not: the load factor leaves a
-- slot empty, and no search needs more rounds than there are slots.
pub find_ends :
    (t : HashOpen) (key : List ℕ) → IsHashOpen t → (r : Option ℕ) × (find t key ≡ some r)
find_ends t key valid =
    let (d, near, is_empty) = empty_ahead t key valid in
    probe_ends t.slots key d (nslots t) (home t key) (mod-lt (fnv1a key) valid.room) is_empty near
