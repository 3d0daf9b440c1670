-- ===== src/DataStructures/HashOpen/Rounds.antt =====
-- What one round of a search in a table of ProperDS/src/hashopen.h does, and what a search finds.
use low_level.Prelude.{
  ℕ, zero, suc, ◌+◌, ◌%◌, ◌≡◌, refl, sym, ap, ◌∙◌, Option, none, some, List, [], ◌∷◌, length,
  get_elem?, set, if◌then◌else◌, Bool-cases, Option-cases, inl, inr, arith,
}
use mathlib.Core.Option.{some-injective}
use mathlib.Core.Path.{subst}
use low_level.Prelude.Int.{ℤ}
use low_level.DataStructures.Fnv.{key_eq, eq_of_key_eq}
use low_level.DataStructures.HashOpen.{
  HoSlot, ho_empty, ho_occupied, ho_tombstone, count_slots, probe,
}

pub count_slots-set :
    (f : HoSlot → ℕ) (slots : List HoSlot) (i : ℕ) (s s' : HoSlot)
    → get_elem? slots i ≡ some s
    → count_slots f (set slots i s') + f s ≡ count_slots f slots + f s'
count_slots-set f [] i s s' e = cc
count_slots-set f (x ∷ slots) zero s s' e = omega (arith, ap f (some-injective x s e))
count_slots-set f (x ∷ slots) (suc i) s s' e = omega (arith, count_slots-set f slots i s s' e)

-- What a round does with the slot that it reads.
abbrev pub round : HoSlot → List ℕ → ℕ → Option (Option ℕ) → Option (Option ℕ)
round ho_empty key i next = some none
round (ho_occupied k v) key i next = if key_eq k key then some (some i) else next
round ho_tombstone key i next = next

pub probe-round :
    (slots : List HoSlot) (key : List ℕ) (fuel i : ℕ) (s : HoSlot)
    → get_elem? slots i ≡ some s
    → probe slots key (suc fuel) i ≡ round s key i (probe slots key fuel ((i + 1) % length slots))
unfolding probe
probe-round slots key fuel i ho_empty e = rw e refl
probe-round slots key fuel i (ho_occupied k v) e = rw e refl
probe-round slots key fuel i ho_tombstone e = rw e refl

pub probe-out :
    (slots : List HoSlot) (key : List ℕ) (fuel i : ℕ)
    → get_elem? slots i ≡ none
    → probe slots key (suc fuel) i ≡ none
unfolding probe
probe-out slots key fuel i e = rw e refl

-- What a search finds is an occupied slot with that key.
round-key :
    (slots : List HoSlot) (key : List ℕ) (i r : ℕ) (s : HoSlot) (next : Option (Option ℕ))
    → (next ≡ some (some r) → (v : ℤ) × (get_elem? slots r ≡ some (ho_occupied key v)))
    → get_elem? slots i ≡ some s
    → round s key i next ≡ some (some r)
    → (v : ℤ) × (get_elem? slots r ≡ some (ho_occupied key v))
round-key slots key i r ho_empty next later here h = absurd (nothing h)
  where
    nothing : some none ≡ some (some r) → ⊥
    nothing h' = cc
round-key slots key i r ho_tombstone next later here h = later h
round-key slots key i r (ho_occupied k v) next later here h = elim (Bool-cases (key_eq k key)) [
  | inl found ↦
      let same : some (some i) ≡ some (some r) = rw found at h in
      (
        v,
        subst (λ j. get_elem? slots j ≡ some (ho_occupied key v))
            (some-injective i r (some-injective (some i) (some r) same))
            (here ∙ ap (λ k'. some (ho_occupied k' v)) (eq_of_key_eq k key found)),
      )
  | inr other ↦ later (rw other at h)
]

pub probe-key :
    (slots : List HoSlot) (key : List ℕ) (fuel i r : ℕ)
    → probe slots key fuel i ≡ some (some r)
    → (v : ℤ) × (get_elem? slots r ≡ some (ho_occupied key v))
unfolding probe
probe-key slots key zero i r e = absurd (nothing e)
  where
    nothing : none ≡ some (some r) → ⊥
    nothing h = cc
probe-key slots key (suc fuel) i r e = elim (Option-cases (get_elem? slots i)) [
  | inl out ↦ absurd (nothing (sym (probe-out slots key fuel i out) ∙ e))
  | inr (s, here) ↦
      round-key slots key i r s (probe slots key fuel ((i + 1) % length slots))
        (probe-key slots key fuel ((i + 1) % length slots) r) here
        (sym (probe-round slots key fuel i s here) ∙ e)
]
  where
    nothing : none ≡ some (some r) → ⊥
    nothing h = cc
