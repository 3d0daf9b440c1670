-- ===== src/DataStructures/HashOpen/Deletion.antt =====
-- A deletion from a table of ProperDS/src/hashopen.h leaves every other key where a search finds it.
use low_level.Prelude.{
  ℕ, zero, suc, ◌+◌, ◌%◌, ◌≡◌, ◌≢◌, refl, sym, ap, ◌∙◌, true, false, Option, none, some, List,
  length, length-set, get_elem?, get_elem?-set_self, get_elem?-set_ne, lt_of_get_elem?, set,
  Bool-cases, Option-cases, inl, inr, ℕ_discrete, arith,
}
use mathlib.Core.Option.{some-injective}
use low_level.Prelude.Int.{ℤ}
use low_level.DataStructures.Fnv.{key_eq, key_eq_refl, eq_of_key_eq}
use low_level.DataStructures.HashOpen.{
  HoSlot, ho_occupied, ho_tombstone, HashOpen, nslots, occupied, in_use, home, probe, find,
  IsHashOpen, delete_at,
}
use low_level.DataStructures.HashOpen.Probing.{find_ends}
use low_level.DataStructures.HashOpen.Rounds.{
  count_slots-set, round, probe-round, probe-out, probe-key,
}

module _ (slots : List HoSlot) (i : ℕ) (k : List ℕ) (v : ℤ)
    (held : get_elem? slots i ≡ some (ho_occupied k v)) where
  abbrev marked : List HoSlot
  marked = set slots i ho_tombstone

  read-marked_self : get_elem? marked i ≡ some ho_tombstone
  read-marked_self = get_elem?-set_self slots i ho_tombstone (lt_of_get_elem? slots i held)

  step-marked :
      (key : List ℕ) (j : ℕ) (s : HoSlot) (next next' : Option (Option ℕ))
      → key_eq k key ≡ false
      → get_elem? slots j ≡ some s
      → next' ≡ next
      → (s' : HoSlot) × (get_elem? marked j ≡ some s') × (round s' key j next' ≡ round s key j next)
  step-marked key j s next next' other here later = elim (ℕ_discrete i j) [
    | yes same ↦
        let at_j : get_elem? slots j ≡ some (ho_occupied k v) = rw (sym same) held in
        let is : s ≡ ho_occupied k v = some-injective s (ho_occupied k v) (sym here ∙ at_j) in
        (ho_tombstone, rw (sym same) read-marked_self, rw is (rw other later))
    | no apart ↦ (s, get_elem?-set_ne slots ho_tombstone apart ∙ here, ap (round s key j) later)
  ]

  -- A search for another key takes the same way.
  probe-marked :
      (key : List ℕ) (fuel j : ℕ)
      → key_eq k key ≡ false
      → probe marked key fuel j ≡ probe slots key fuel j
  unfolding probe
  probe-marked key zero j other = refl
  probe-marked key (suc fuel) j other = elim (Option-cases (get_elem? slots j)) [
    | inl out ↦
        let apart : i ≢ j =
          λ same. absurd (read_none (sym held ∙ ap (get_elem? slots) same ∙ out)) in
        probe-out marked key fuel j (get_elem?-set_ne slots ho_tombstone apart ∙ out)
        ∙ sym (probe-out slots key fuel j out)
    | inr (s, here) ↦
        let same_length : length marked ≡ length slots = length-set slots i ho_tombstone in
        let (s', there, same) =
          step-marked key j s (probe slots key fuel ((j + 1) % length slots))
            (probe marked key fuel ((j + 1) % length marked)) other here
            (rw same_length (probe-marked key fuel ((j + 1) % length slots) other)) in
        probe-round marked key fuel j s' there ∙ same ∙ sym (probe-round slots key fuel j s here)
  ]
    where
      read_none : some (ho_occupied k v) ≡ none → ⊥
      read_none h = cc

  -- What is occupied after the deletion was so before, in another slot.
  pub read-marked :
      (j : ℕ) (key : List ℕ) (w : ℤ)
      → get_elem? marked j ≡ some (ho_occupied key w)
      → (i ≢ j) × (get_elem? slots j ≡ some (ho_occupied key w))
  read-marked j key w there =
      let apart : i ≢ j =
        λ same. clash (sym read-marked_self ∙ ap (get_elem? marked) same ∙ there) in
      (apart, sym (get_elem?-set_ne slots ho_tombstone apart) ∙ there)
    where
      clash : some ho_tombstone ≡ some (ho_occupied key w) → ⊥
      clash h = cc

module _ (t : HashOpen) (i : ℕ) (k : List ℕ) (v : ℤ) (valid : IsHashOpen t)
    (held : get_elem? t.slots i ≡ some (ho_occupied k v)) where
  abbrev after : HashOpen
  after = delete_at t i

  same_slots : nslots after ≡ nslots t
  same_slots = length-set t.slots i ho_tombstone

  find-other : (key : List ℕ) → key_eq k key ≡ false → find after key ≡ find t key
  find-other key other =
      rw same_slots (probe-marked t.slots i k v held key (nslots t) (home t key) other)

  -- A key is in one slot at most.
  only_slot :
      (j : ℕ) (key : List ℕ) (w : ℤ)
      → get_elem? t.slots j ≡ some (ho_occupied key w)
      → i ≢ j
      → key_eq k key ≡ false
  only_slot j key w there apart = elim (Bool-cases (key_eq k key)) [
    | inl same ↦ absurd (
        apart (
          some-injective i j (
            some-injective (some i) (some j) (
              sym (valid.reachable i k v held)
              ∙ ap (find t) (eq_of_key_eq k key same)
              ∙ valid.reachable j key w there))))
    | inr other ↦ other
  ]

  after-IsHashOpen : IsHashOpen after
  after-IsHashOpen = record {
    live =
        omega (
          arith,
          valid.live,
          count_slots-set occupied t.slots i (ho_occupied k v) ho_tombstone held,
        );
    filled =
        omega (
          arith,
          valid.filled,
          count_slots-set in_use t.slots i (ho_occupied k v) ho_tombstone held,
        );
    load = rw same_slots valid.load;
    room = rw same_slots valid.room;
    reachable = λ j key w there.
        let (apart, before) = read-marked t.slots i k v held j key w there in
        find-other key (only_slot j key w before apart) ∙ valid.reachable j key w before;
  }

  differ : true ≡ false → ⊥
  differ h = cc

  find-deleted : find after k ≡ some none
  find-deleted = let (r, ends) = find_ends after k after-IsHashOpen in absent r ends
    where
      absent : (r : Option ℕ) → find after k ≡ some r → find after k ≡ some none
      absent none e = e
      absent (some j) e =
          let (w, there) = probe-key after.slots k (nslots after) (home after k) j e in
          let (apart, before) = read-marked t.slots i k v held j k w there in
          absurd (differ (sym (key_eq_refl k) ∙ only_slot j k w before apart))

  -- Deleting the key of an occupied slot of a valid table leaves a valid table, whose searches no
  -- longer find that key and end for every other key as they did before.
  pub delete_at_lem :
      IsHashOpen (delete_at t i)
      × (find (delete_at t i) k ≡ some none)
      × ((key : List ℕ) → key ≢ k → find (delete_at t i) key ≡ find t key)
  delete_at_lem = (
    after-IsHashOpen,
    find-deleted,
    λ key differs. elim (Bool-cases (key_eq k key)) [
      | inl same ↦ absurd (differs (sym (eq_of_key_eq k key same)))
      | inr other ↦ find-other key other
    ],
  )
