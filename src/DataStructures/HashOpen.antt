-- ===== src/DataStructures/HashOpen.antt =====
-- ProperDS/src/hashopen.h: an open-addressing hash table with tombstones, its invariant and the probe
-- sequence. The functions of the header are the fields of the record in Contract; those written
-- down here are one way to keep its laws, for the tests. A search that needs more rounds than it is
-- given, or reads outside of the slots, is `none`.
pub mod Probing
pub mod Rounds
pub mod Deletion
pub mod Placing
pub mod Values
pub mod Writes
pub mod Rehash
pub mod Updates
pub mod Contract
pub mod Marks
use low_level.Prelude.{
  ℕ, zero, suc, ◌+◌, ◌-◌, ◌*◌, ◌%◌, ◌≤◌, ◌<◌, ◌≡◌, Bool, true, false, Option, none, some, List, [],
  ◌∷◌, length, get_elem?, set, if◌then◌else◌, ◌>>=◌, leb, replicate,
}
use low_level.Prelude.Int.{ℤ}
use low_level.DataStructures.Fnv.{fnv1a, key_eq}
use low_level.DataStructures.HashChain.{answer}

-- A slot in one of its three states; it has a key only if it is occupied.
pub data HoSlot : Type 0 where
  ho_empty : HoSlot
  ho_occupied : (key : List ℕ) (value : ℤ) → HoSlot
  ho_tombstone : HoSlot

-- `nslots` is the length of `slots`.
pub record HashOpen : Type 0 where
  pub slots : List HoSlot
  pub len : ℕ
  pub used : ℕ

abbrev pub nslots : HashOpen → ℕ
nslots t = length t.slots

abbrev pub occupied : HoSlot → ℕ
occupied (ho_occupied k v) = 1
occupied _ = 0

abbrev pub in_use : HoSlot → ℕ
in_use ho_empty = 0
in_use _ = 1

abbrev pub count_slots : (HoSlot → ℕ) → List HoSlot → ℕ
count_slots f [] = 0
count_slots f (s ∷ slots) = f s + count_slots f slots

abbrev pub home : HashOpen → List ℕ → ℕ
home t key = fnv1a key % nslots t

-- The search for a key from slot `i` on: it stops at an empty slot and goes on past a tombstone or
-- another key. `none` is the end of the fuel, and `some none` that the key is absent.
unfoldable pub probe : List HoSlot → List ℕ → ℕ → ℕ → Option (Option ℕ)
probe slots key zero i = none
probe slots key (suc fuel) i =
    let next = probe slots key fuel ((i + 1) % length slots) in
    (get_elem? slots i >>= λ s. elim s [
      | ho_empty ↦ some none
      | ho_occupied k v ↦ (if key_eq k key then some (some i) else next)
      | ho_tombstone ↦ next
    ])

-- As many rounds as there are slots.
abbrev pub find : HashOpen → List ℕ → Option (Option ℕ)
find t key = probe t.slots key (nslots t) (home t key)

-- The invariant.
pub record IsHashOpen (t : HashOpen) : Type 0 where
  pub live : count_slots occupied t.slots ≡ t.len
  pub filled : count_slots in_use t.slots ≡ t.used
  pub load : 10 * t.used ≤ 7 * nslots t
  pub room : 0 < nslots t
  pub reachable :
      (i : ℕ) (k : List ℕ) (v : ℤ)
      → get_elem? t.slots i ≡ some (ho_occupied k v)
      → find t k ≡ some (some i)

-- What a deletion makes of the slot it finds.
abbrev pub delete_at : HashOpen → ℕ → HashOpen
delete_at t i = record t { slots = set t.slots i ho_tombstone; len = t.len - 1 }

abbrev pub slot_value : HoSlot → Option ℤ
slot_value (ho_occupied k v) = some v
slot_value _ = none

abbrev pub value_at : List HoSlot → Option ℕ → Option ℤ
value_at slots none = none
value_at slots (some i) = (get_elem? slots i >>= slot_value)

abbrev pub value_of : HashOpen → List ℕ → Option ℤ
value_of t key = (find t key >>= value_at t.slots)

abbrev pub vacant : HoSlot → Bool
vacant (ho_occupied k v) = false
vacant _ = true

-- Where a key that is absent goes: the first tombstone on its way, or the empty slot at the end of it.
unfoldable pub place : List HoSlot → ℕ → ℕ → Option ℕ
place slots zero i = none
place slots (suc fuel) i =
    let next = place slots fuel ((i + 1) % length slots) in
    (get_elem? slots i >>= λ s. if vacant s then some i else next)

-- The table with a key in the vacant slot `i`, which was `s`.
abbrev pub filled_at : HashOpen → List ℕ → ℤ → ℕ → HoSlot → HashOpen
filled_at t key v i s = record {
  slots = set t.slots i (ho_occupied key v);
  len = suc t.len;
  used = t.used + (1 - in_use s);
}

unfoldable pub add : HashOpen → List ℕ → ℤ → Option HashOpen
add t key v =
    (place t.slots (nslots t) (home t key) >>= λ i.
    get_elem? t.slots i >>= λ s. some (filled_at t key v i s))

abbrev pub with_slots : ℕ → HashOpen
with_slots n = record { slots = replicate n ho_empty; len = 0; used = 0 }

abbrev pub hashopen_init : HashOpen
hashopen_init = with_slots 16

-- The smallest number of slots, from `n` on by doubling, for that many live keys.
unfoldable pub fitting : ℕ → ℕ → ℕ → ℕ
fitting live zero n = n
fitting live (suc fuel) n =
    let rest = fitting live fuel (2 * n) in if leb (10 * live) (7 * n) then n else rest

unfoldable pub reinsert : List HoSlot → HashOpen → Option HashOpen
reinsert [] u = some u
reinsert (ho_empty ∷ slots) u = reinsert slots u
reinsert (ho_occupied k v ∷ slots) u = (add u k v >>= reinsert slots)
reinsert (ho_tombstone ∷ slots) u = reinsert slots u

-- The live keys in a table with room for `live` of them.
unfoldable pub rehashed : HashOpen → ℕ → Option HashOpen
rehashed t live = reinsert t.slots (with_slots (fitting live live 16))

-- What a put of an absent key leaves, if `t'` is the table with the key put into it as it is.
abbrev pub kept_or_rehashed : HashOpen → List ℕ → ℤ → HashOpen → Option HashOpen
kept_or_rehashed t key v t' =
    let larger = (rehashed t (suc t.len) >>= λ u. add u key v) in
    if leb (10 * t'.used) (7 * nslots t') then some t' else larger

abbrev pub put_at : HashOpen → List ℕ → ℤ → Option ℕ → Option HashOpen
put_at t key v none = (add t key v >>= kept_or_rehashed t key v)
put_at t key v (some i) = some (record t { slots = set t.slots i (ho_occupied key v) })

unfoldable pub hashopen_put : HashOpen → List ℕ → ℤ → Option (Bool × HashOpen)
hashopen_put t key v = (find t key >>= λ r. put_at t key v r >>= λ t'. some (true, t'))

unfoldable pub hashopen_get : HashOpen → List ℕ → ℤ → Option (Bool × ℤ)
hashopen_get t key out = (find t key >>= λ r. some (answer (value_at t.slots r) out))

abbrev pub delete_found : HashOpen → Option ℕ → Bool × HashOpen
delete_found t none = (false, t)
delete_found t (some i) = (true, delete_at t i)

unfoldable pub hashopen_delete : HashOpen → List ℕ → Option (Bool × HashOpen)
hashopen_delete t key = (find t key >>= λ r. some (delete_found t r))

abbrev pub hashopen_len : HashOpen → ℕ
hashopen_len t = t.len
