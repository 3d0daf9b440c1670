-- ===== src/DataStructures/HashOpen/Values.antt =====
-- The values that a table of ProperDS/src/hashopen.h stores, by the slots that hold them.
use low_level.Prelude.{
  ℕ, ◌≡◌, ◌≢◌, refl, sym, ap, ◌∙◌, Option, none, some, List, get_elem?, set, get_elem?-set_ne, ◌⊎◌,
  inl, inr, ℕ_discrete,
}
use mathlib.Core.Option.{some-injective}
use mathlib.Core.Path.{subst}
use low_level.Prelude.Int.{ℤ}
use low_level.DataStructures.HashOpen.{
  HoSlot, ho_occupied, HashOpen, nslots, home, find, IsHashOpen, slot_value, value_of,
}
use low_level.DataStructures.HashOpen.Probing.{find_ends}
use low_level.DataStructures.HashOpen.Rounds.{probe-key}
use low_level.DataStructures.HashOpen.Placing.{Holds, read-filled_self}

abbrev key_or : List ℕ → HoSlot → List ℕ
key_or k (ho_occupied k' v) = k'
key_or k _ = k

pub same_key : (k j : List ℕ) (v w : ℤ) → some (ho_occupied k v) ≡ some (ho_occupied j w) → k ≡ j
same_key k j v w e = ap (key_or k) (some-injective (ho_occupied k v) (ho_occupied j w) e)

pub same_value : (k j : List ℕ) (v w : ℤ) → some (ho_occupied k v) ≡ some (ho_occupied j w) → v ≡ w
same_value k j v w e =
    some-injective v w (ap slot_value (some-injective (ho_occupied k v) (ho_occupied j w) e))

-- What the search for a key finds, in a valid table: the slot with the key, or nothing.
pub data Found (t : HashOpen) (k : List ℕ) : Type 0 where
  present :
      (i : ℕ) (v : ℤ)
      → find t k ≡ some (some i)
      → get_elem? t.slots i ≡ some (ho_occupied k v)
      → value_of t k ≡ some v
      → Found t k
  missing : find t k ≡ some none → value_of t k ≡ none → ((w : ℤ) → ¬ Holds t.slots k w) → Found t k

module _ (t : HashOpen) (valid : IsHashOpen t) where
  pub value_of-Holds : (k : List ℕ) (v : ℤ) → Holds t.slots k v → value_of t k ≡ some v
  value_of-Holds k v (i, here) = rw (valid.reachable i k v here, here) refl

  pub found : (k : List ℕ) → Found t k
  found k = let (r, ends) = find_ends t k valid in which r ends
    where
      which : (r : Option ℕ) → find t k ≡ some r → Found t k
      which none e = missing e (rw e refl) (λ w (i, here).
          let clash : some none ≡ some (some i) = sym e ∙ valid.reachable i k w here in cc)
      which (some i) e =
          let (v, here) = probe-key t.slots k (nslots t) (home t k) i e in
          present i v e here (value_of-Holds k v (i, here))

  pub Holds-value_of : (k : List ℕ) (v : ℤ) → value_of t k ≡ some v → Holds t.slots k v
  Holds-value_of k v e = elim (found k) [
    | present i w finds here value ↦
        subst (Holds t.slots k) (some-injective w v (sym value ∙ e)) (i, here)
    | missing finds value absent ↦ let h : none ≡ some v = sym value ∙ e in cc
  ]

  -- A key is in one slot at most.
  pub one_slot :
      (k : List ℕ) (i j : ℕ) (v w : ℤ)
      → get_elem? t.slots i ≡ some (ho_occupied k v)
      → get_elem? t.slots j ≡ some (ho_occupied k w)
      → i ≡ j
  one_slot k i j v w here there = some-injective i j (
      some-injective (some i) (some j)
        (sym (valid.reachable i k v here) ∙ valid.reachable j k w there))

-- Two valid tables that hold the same for a key have the same value for it.
pub value_of-agree :
    (t t' : HashOpen) (k : List ℕ)
    → IsHashOpen t
    → IsHashOpen t'
    → ((v : ℤ) → Holds t.slots k v → Holds t'.slots k v)
    → ((v : ℤ) → Holds t'.slots k v → Holds t.slots k v)
    → value_of t' k ≡ value_of t k
value_of-agree t t' k valid valid' there back = elim (found t valid k) [
  | present i v finds here value ↦ value_of-Holds t' valid' k v (there v (i, here)) ∙ sym value
  | missing finds value absent ↦ elim (found t' valid' k) [
    | present i v finds' here value' ↦ absurd (absent v (back v (i, here)))
    | missing finds' value' absent' ↦ value' ∙ sym value
  ]
]

-- Writing a key into slot `i` changes no other slot.
module _ (slots : List HoSlot) (i : ℕ) (key : List ℕ) (v : ℤ) (s : HoSlot)
    (here : get_elem? slots i ≡ some s) where
  pub Holds-filled : Holds (set slots i (ho_occupied key v)) key v
  Holds-filled = (i, read-filled_self slots i key v s here)

  pub Holds-before :
      (k : List ℕ) (w : ℤ)
      → ((u : ℤ) → s ≢ ho_occupied k u)
      → Holds slots k w
      → Holds (set slots i (ho_occupied key v)) k w
  Holds-before k w differs (j, there) = (
    j,
    get_elem?-set_ne slots (ho_occupied key v) (λ same.
          differs w
            (some-injective s (ho_occupied k w) (sym here ∙ ap (get_elem? slots) same ∙ there)))
        ∙ there,
  )

  -- What the table holds afterwards is the new entry, or was there before in another slot.
  pub Holds-after :
      (j : ℕ) (k : List ℕ) (w : ℤ)
      → get_elem? (set slots i (ho_occupied key v)) j ≡ some (ho_occupied k w)
      → ((i ≡ j) × (key ≡ k) × (v ≡ w)) ⊎ ((i ≢ j) × (get_elem? slots j ≡ some (ho_occupied k w)))
  Holds-after j k w there = elim (ℕ_discrete i j) [
    | yes same ↦
        let e : some (ho_occupied key v) ≡ some (ho_occupied k w) =
          sym (read-filled_self slots i key v s here)
          ∙ ap (get_elem? (set slots i (ho_occupied key v))) same
          ∙ there in
        inl (same, same_key key k v w e, same_value key k v w e)
    | no apart ↦ inr (apart, sym (get_elem?-set_ne slots (ho_occupied key v) apart) ∙ there)
  ]
