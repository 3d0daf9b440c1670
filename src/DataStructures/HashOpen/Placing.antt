-- ===== src/DataStructures/HashOpen/Placing.antt =====
-- Where an absent key goes in a table of ProperDS/src/hashopen.h, and that searches find it there.
use low_level.Prelude.{
  ℕ, zero, suc, ◌+◌, ◌%◌, ◌<◌, ◌≡◌, ◌≢◌, refl, sym, ◌∙◌, true, false, Option, none, some, List,
  length, length-set, get_elem?, get_elem?-set_self, get_elem?-set_ne, get_elem?-in_range,
  lt_of_get_elem?, set, if◌then◌else◌, Bool-cases, Option-cases, inl, inr, ℕ_discrete, arith,
}
use mathlib.Core.Option.{some-injective}
use mathlib.Core.Path.{subst}
use native.Mathlib.Nat.{mod-eq_of_lt, mod-lt}
use low_level.Prelude.Int.{ℤ}
use low_level.DataStructures.Ring.{slot-next}
use low_level.DataStructures.Fnv.{fnv1a, key_eq, key_eq_refl, eq_of_key_eq}
use low_level.DataStructures.HashOpen.{
  HoSlot, ho_empty, ho_occupied, ho_tombstone, HashOpen, nslots, home, probe, IsHashOpen, vacant,
  place,
}
use low_level.DataStructures.HashOpen.Probing.{empty_ahead}
use low_level.DataStructures.HashOpen.Rounds.{round, probe-round, probe-out}

-- The key has the value in some slot.
abbrev pub Holds : List HoSlot → List ℕ → ℤ → Type 0
Holds slots k v = (i : ℕ) × (get_elem? slots i ≡ some (ho_occupied k v))

-- A vacant slot.
abbrev pub Vacancy : List HoSlot → ℕ → Type 0
Vacancy slots i = (s : HoSlot) × (get_elem? slots i ≡ some s) × (vacant s ≡ true)

place_ends :
    (slots : List HoSlot) (d fuel i : ℕ)
    → i < length slots
    → get_elem? slots ((i + d) % length slots) ≡ some ho_empty
    → d < fuel
    → (r : ℕ) × (place slots fuel i ≡ some r) × Vacancy slots r
unfolding place
place_ends slots d zero i inside e lt = absurd (omega arith)
place_ends slots zero (suc fuel) i inside e lt =
    let first : (i + 0) % length slots ≡ i = mod-eq_of_lt (omega arith) ∙ omega arith in
    let here : get_elem? slots i ≡ some ho_empty = rw first at e in
    (i, rw here refl, (ho_empty, here, refl))
place_ends slots (suc d) (suc fuel) i inside e lt =
    let (s, here) = get_elem?-in_range slots i inside in
    let (r, ends, vacancy) =
      place_ends slots d fuel ((i + 1) % length slots) (mod-lt (i + 1) (omega arith))
        (rw (slot-next (length slots) i d) e) (omega arith) in
    elim (Bool-cases (vacant s)) [
      | inl free ↦ (i, rw (here, free) refl, (s, here, free))
      | inr taken ↦ (r, rw (here, taken) ends, vacancy)
    ]

pub place_lem :
    (t : HashOpen) (key : List ℕ)
    → IsHashOpen t
    → (r : ℕ) × (place t.slots (nslots t) (home t key) ≡ some r) × Vacancy t.slots r
place_lem t key valid =
    let (d, near, is_empty) = empty_ahead t key valid in
    place_ends t.slots d (nslots t) (home t key) (mod-lt (fnv1a key) valid.room) is_empty near

-- A search that goes on or ends at a slot does so whatever it would find afterwards.
abbrev pub Carries : Option (Option ℕ) → Option (Option ℕ) → ℕ → Type 0
Carries next next' r = next ≡ some (some r) → next' ≡ some (some r)

pub round-Carries :
    (x : HoSlot) (k : List ℕ) (j r : ℕ) (next next' : Option (Option ℕ))
    → Carries next next' r
    → Carries (round x k j next) (round x k j next') r
round-Carries ho_empty k j r next next' later e = e
round-Carries ho_tombstone k j r next next' later e = later e
round-Carries (ho_occupied k' w) k j r next next' later e = elim (Bool-cases (key_eq k' k)) [
  | inl found ↦ rw found (rw found at e)
  | inr other ↦ rw other (later (rw other at e))
]

-- A search for another key goes past an occupied slot as past a vacant one.
pub vacant-Carries :
    (s : HoSlot) (key k : List ℕ) (v : ℤ) (j r : ℕ) (next next' : Option (Option ℕ))
    → vacant s ≡ true
    → key_eq key k ≡ false
    → Carries next next' r
    → Carries (round s k j next) (round (ho_occupied key v) k j next') r
vacant-Carries ho_empty key k v j r next next' free other later e = cc
vacant-Carries ho_tombstone key k v j r next next' free other later e = rw other (later e)
vacant-Carries (ho_occupied k' w) key k v j r next next' free other later e = cc

place-round :
    (slots : List HoSlot) (fuel j : ℕ) (x : HoSlot)
    → get_elem? slots j ≡ some x
    → place slots (suc fuel) j
      ≡ (if vacant x then some j else place slots fuel ((j + 1) % length slots))
unfolding place
place-round slots fuel j x here = rw here refl

-- Before the place of an absent key there are other keys, which a search for it goes past.
past :
    (slots : List HoSlot) (x : HoSlot) (key : List ℕ) (i j : ℕ) (place_next : Option ℕ)
    (next : Option (Option ℕ))
    → get_elem? slots j ≡ some x
    → ((w : ℤ) → ¬ Holds slots key w)
    → i ≢ j
    → (place_next ≡ some i → next ≡ some (some i))
    → (if vacant x then some j else place_next) ≡ some i
    → round x key j next ≡ some (some i)
past slots ho_empty key i j place_next next at_j absent apart later h =
    absurd (apart (sym (some-injective j i h)))
past slots ho_tombstone key i j place_next next at_j absent apart later h =
    absurd (apart (sym (some-injective j i h)))
past slots (ho_occupied k w) key i j place_next next at_j absent apart later h =
    elim (Bool-cases (key_eq k key)) [
      | inl same ↦ absurd (
          absent w (
            j,
            subst (λ k'. get_elem? slots j ≡ some (ho_occupied k' w)) (eq_of_key_eq k key same)
                at_j,
          ))
      | inr other ↦ rw other (later h)
    ]

module _ (slots : List HoSlot) (i : ℕ) (key : List ℕ) (v : ℤ) (s : HoSlot)
    (here : get_elem? slots i ≡ some s) where
  abbrev filled : List HoSlot
  filled = set slots i (ho_occupied key v)

  pub read-filled_self : get_elem? filled i ≡ some (ho_occupied key v)
  read-filled_self = get_elem?-set_self slots i (ho_occupied key v) (lt_of_get_elem? slots i here)

  same_length : length filled ≡ length slots
  same_length = length-set slots i (ho_occupied key v)

  read-filled_other : (j : ℕ) → i ≢ j → get_elem? filled j ≡ get_elem? slots j
  read-filled_other j apart = get_elem?-set_ne slots (ho_occupied key v) apart

  probe_next :
      (k : List ℕ) (fuel j r : ℕ)
      → probe filled k fuel ((j + 1) % length slots) ≡ some (some r)
      → probe filled k fuel ((j + 1) % length filled) ≡ some (some r)
  probe_next k fuel j r e = rw same_length e

  -- The key is found where it was placed.
  pub probe-place :
      (fuel j : ℕ)
      → ((w : ℤ) → ¬ Holds slots key w)
      → place slots fuel j ≡ some i
      → probe filled key fuel j ≡ some (some i)
  unfolding place
  probe-place zero j absent e = cc
  probe-place (suc fuel) j absent e = elim (ℕ_discrete i j) [
    | yes same ↦
        subst (λ k. probe filled key (suc fuel) k ≡ some (some i)) same
          (probe-round filled key fuel i (ho_occupied key v) read-filled_self
            ∙ rw (key_eq_refl key) refl)
    | no apart ↦ elim (Option-cases (get_elem? slots j)) [
      | inl out ↦ let h : none ≡ some i = rw out at e in cc
      | inr (x, at_j) ↦
          probe-round filled key fuel j x (read-filled_other j apart ∙ at_j)
          ∙ past slots x key i j (place slots fuel ((j + 1) % length slots))
              (probe filled key fuel ((j + 1) % length filled)) at_j absent apart
              (λ h. probe_next key fuel j i (probe-place fuel ((j + 1) % length slots) absent h))
              (sym (place-round slots fuel j x at_j) ∙ e)
    ]
  ]

  -- A search that found a key before finds it still, if slot `i` lets it pass as before.
  pub probe-Carries :
      (k : List ℕ) (r : ℕ)
      → ((j : ℕ) (next next' : Option (Option ℕ))
          → Carries next next' r
          → Carries (round s k j next) (round (ho_occupied key v) k j next') r)
      → (fuel j : ℕ) → Carries (probe slots k fuel j) (probe filled k fuel j) r
  unfolding probe
  probe-Carries k r at_i zero j e = e
  probe-Carries k r at_i (suc fuel) j e =
      let next = probe slots k fuel ((j + 1) % length slots) in
      let next' = probe filled k fuel ((j + 1) % length filled) in
      let later : Carries next next' r =
        λ h. probe_next k fuel j r (probe-Carries k r at_i fuel ((j + 1) % length slots) h) in
      elim (ℕ_discrete i j) [
        | yes same ↦
            probe-round filled k fuel j (ho_occupied key v)
              (subst (λ n. get_elem? filled n ≡ some (ho_occupied key v)) same read-filled_self)
            ∙ at_i j next next' later (
                sym
                  (probe-round slots k fuel j s (subst (λ n. get_elem? slots n ≡ some s) same here))
                ∙ e)
        | no apart ↦ elim (Option-cases (get_elem? slots j)) [
          | inl out ↦ let h : none ≡ some (some r) = sym (probe-out slots k fuel j out) ∙ e in cc
          | inr (x, at_j) ↦
              probe-round filled k fuel j x (read-filled_other j apart ∙ at_j)
              ∙ round-Carries x k j r next next' later (sym (probe-round slots k fuel j x at_j) ∙ e)
        ]
      ]
