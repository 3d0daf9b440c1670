-- ===== src/DataStructures/HashOpen/Writes.antt =====
-- What a table of ProperDS/src/hashopen.h is after a key was written into one of its slots.
use low_level.Prelude.{
  ℕ, suc, ◌*◌, ◌≤◌, ◌≡◌, ◌≢◌, ◌⊎◌, refl, sym, true, false, some, List, length, length-set,
  get_elem?, set, Bool-cases, inl, inr, arith,
}
use mathlib.Core.Path.{subst}
use low_level.Prelude.Int.{ℤ}
use low_level.DataStructures.Fnv.{key_eq, eq_of_key_eq}
use low_level.DataStructures.HashOpen.{
  HoSlot, ho_empty, ho_occupied, ho_tombstone, HashOpen, nslots, occupied, in_use, home, place,
  find, IsHashOpen, vacant, filled_at, add,
}
use low_level.DataStructures.HashOpen.Rounds.{count_slots-set}
use low_level.DataStructures.HashOpen.Placing.{
  Holds, place_lem, probe-place, probe-Carries, round-Carries, vacant-Carries,
}
use low_level.DataStructures.HashOpen.Values.{Holds-filled, Holds-before, Holds-after}

-- `t'` is `t` with one more entry; it has the invariant if its load does not exceed the factor.
pub record Added (t t' : HashOpen) (key : List ℕ) (v : ℤ) : Type 0 where
  pub same_slots : nslots t' ≡ nslots t
  pub longer : t'.len ≡ suc t.len
  pub fuller : t'.used ≤ suc t.used
  pub valid : 10 * t'.used ≤ 7 * nslots t' → IsHashOpen t'
  pub holds : Holds t'.slots key v
  pub before : (k : List ℕ) (w : ℤ) → Holds t.slots k w → Holds t'.slots k w
  pub after : (k : List ℕ) (w : ℤ) → Holds t'.slots k w → ((key ≡ k) × (v ≡ w)) ⊎ Holds t.slots k w

pub vacant-occupied : (s : HoSlot) → vacant s ≡ true → occupied s ≡ 0
vacant-occupied ho_empty free = refl
vacant-occupied ho_tombstone free = refl
vacant-occupied (ho_occupied k v) free = cc

vacant-differs : (s : HoSlot) (k : List ℕ) (w : ℤ) → vacant s ≡ true → s ≢ ho_occupied k w
vacant-differs ho_empty k w free e = cc
vacant-differs ho_tombstone k w free e = cc
vacant-differs (ho_occupied j u) k w free e = cc

in_use_le : (s : HoSlot) → in_use s ≤ 1
in_use_le ho_empty = omega arith
in_use_le ho_tombstone = omega arith
in_use_le (ho_occupied k v) = omega arith

module _ (t : HashOpen) (valid : IsHashOpen t) (key : List ℕ) (v : ℤ) (i : ℕ) where
  abbrev written : List HoSlot
  written = set t.slots i (ho_occupied key v)

  same_length : length written ≡ nslots t
  same_length = length-set t.slots i (ho_occupied key v)

  -- Every key that is in the table is found, if the written one is, and searches for the others go
  -- past it.
  written_reachable :
      (t' : HashOpen) (s : HoSlot)
      → t'.slots ≡ written
      → get_elem? t.slots i ≡ some s
      → find t' key ≡ some (some i)
      → ((k : List ℕ) (r : ℕ) (w : ℤ)
          → i ≢ r
          → get_elem? t.slots r ≡ some (ho_occupied k w)
          → find t' k ≡ some (some r))
      → (r : ℕ) (k : List ℕ) (w : ℤ) → get_elem? t'.slots r ≡ some (ho_occupied k w)
      → find t' k ≡ some (some r)
  written_reachable t' s is here new old r k w there =
      elim (Holds-after t.slots i key v s here r k w (rw is at there)) [
        | inl (same_slot, same_key, same) ↦
            subst (λ j. find t' k ≡ some (some j)) same_slot
              (subst (λ j. find t' j ≡ some (some i)) same_key new)
        | inr (apart, before) ↦ old k r w apart before
      ]

  module _ (s : HoSlot) (here : get_elem? t.slots i ≡ some s) (free : vacant s ≡ true)
      (absent : (w : ℤ) → ¬ Holds t.slots key w)
      (placed : place t.slots (nslots t) (home t key) ≡ some i) where
    abbrev added : HashOpen
    added = filled_at t key v i s

    other_key :
        (k : List ℕ) (r : ℕ) (w : ℤ)
        → get_elem? t.slots r ≡ some (ho_occupied k w)
        → key_eq key k ≡ false
    other_key k r w there = elim (Bool-cases (key_eq key k)) [
      | inl same ↦ absurd (
          absent w (
            r,
            subst (λ j. get_elem? t.slots r ≡ some (ho_occupied j w))
                (sym (eq_of_key_eq key k same)) there,
          ))
      | inr other ↦ other
    ]

    find-added_self : find added key ≡ some (some i)
    find-added_self =
        rw same_length (probe-place t.slots i key v s here (nslots t) (home t key) absent placed)

    find-added_other :
        (k : List ℕ) (r : ℕ) (w : ℤ)
        → i ≢ r
        → get_elem? t.slots r ≡ some (ho_occupied k w)
        → find added k ≡ some (some r)
    find-added_other k r w apart there = rw same_length (
        probe-Carries t.slots i key v s here k r
          (λ j next next' later.
            vacant-Carries s key k v j r next next' free (other_key k r w there) later)
          (nslots t) (home t k) (valid.reachable r k w there))

    added-Added : Added t added key v
    added-Added = record {
      same_slots = same_length;
      longer = refl;
      fuller = omega arith;
      valid = λ load. record {
        live = omega (
          arith,
          valid.live,
          vacant-occupied s free,
          count_slots-set occupied t.slots i s (ho_occupied key v) here,
        );
        filled = omega (
          arith,
          valid.filled,
          in_use_le s,
          count_slots-set in_use t.slots i s (ho_occupied key v) here,
        );
        load = load;
        room = rw same_length valid.room;
        reachable = written_reachable added s refl here find-added_self find-added_other;
      };
      holds = Holds-filled t.slots i key v s here;
      before = λ k w. Holds-before t.slots i key v s here k w (λ u. vacant-differs s k u free);
      after = λ k w (r, there). elim (Holds-after t.slots i key v s here r k w there) [
        | inl (same_slot, same_key, same) ↦ inl (same_key, same)
        | inr (apart, old) ↦ inr (r, old)
      ];
    }

  -- A slot with the key is given another value.
  module _ (u : ℤ) (here : get_elem? t.slots i ≡ some (ho_occupied key u)) where
    abbrev pub with_value : HashOpen
    with_value = record t { slots = set t.slots i (ho_occupied key v) }

    find-with_value :
        (k : List ℕ) (r : ℕ) → find t k ≡ some (some r) → find with_value k ≡ some (some r)
    find-with_value k r e = rw same_length (
        probe-Carries t.slots i key v (ho_occupied key u) here k r
          (λ j next next' later. round-Carries (ho_occupied key v) k j r next next' later)
          (nslots t) (home t k) e)

    pub with_value-IsHashOpen : IsHashOpen with_value
    with_value-IsHashOpen = record {
      live = omega (
        arith,
        valid.live,
        count_slots-set occupied t.slots i (ho_occupied key u) (ho_occupied key v) here,
      );
      filled = omega (
        arith,
        valid.filled,
        count_slots-set in_use t.slots i (ho_occupied key u) (ho_occupied key v) here,
      );
      load = rw same_length valid.load;
      room = rw same_length valid.room;
      reachable =
          written_reachable with_value (ho_occupied key u) refl here
            (find-with_value key i (valid.reachable i key u here))
            (λ k r w apart there. find-with_value k r (valid.reachable r k w there));
    }

-- An absent key can be added to a valid table.
pub add_lem :
    (t : HashOpen) (key : List ℕ) (v : ℤ)
    → IsHashOpen t
    → ((w : ℤ) → ¬ Holds t.slots key w)
    → (t' : HashOpen) × (add t key v ≡ some t') × Added t t' key v
unfolding add
add_lem t key v valid absent =
    let (i, placed, (s, here, free)) = place_lem t key valid in
    (
      filled_at t key v i s,
      rw (placed, here) refl,
      added-Added t valid key v i s here free absent placed,
    )
