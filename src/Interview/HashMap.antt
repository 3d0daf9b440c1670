-- ===== src/Interview/HashMap.antt =====
-- ProperInterview/src/hashmap.h: a hash table from strings to int. A key is the list of its bytes.
pub mod Calls
use low_level.Prelude.{
  is_some, ℕ, suc, ◌+◌, ◌≤◌, ◌≡◌, Bool, true, false, Option, none, some, List, if◌then◌else◌,
}
use low_level.Prelude.Int.{ℤ}
use low_level.DataStructures.Fnv.{key_eq}

abbrev pub Key : Type 0
Key = List ℕ

-- What hm_get leaves in `*out`.
abbrev pub value_or : ℤ → Option ℤ → ℤ
value_or out none = out
value_or out (some v) = v

-- The functions of the header, while `malloc` succeeds. `value_of m k` is the value that the map
-- stores for a key. A value `*out` is given and returned. After hm_destroy there is no map.
pub record HashMapApi (HashMap : Type 0) : Type 0 where
  pub value_of : HashMap → Key → Option ℤ
  pub hm_create : ℕ → HashMap
  pub hm_destroy : HashMap → Unit {0}
  pub hm_put : HashMap → Key → ℤ → Bool × HashMap
  pub hm_get : HashMap → Key → ℤ → Bool × ℤ
  pub hm_del : HashMap → Key → Bool × HashMap
  pub hm_len : HashMap → ℕ
  pub create_law :
      (n : ℕ) → 1 ≤ n → ((k : Key) → value_of (hm_create n) k ≡ none) × (hm_len (hm_create n) ≡ 0)
  pub put_answer : (m : HashMap) (k : Key) (v : ℤ) → (hm_put m k v).0 ≡ true
  pub put_value :
      (m : HashMap) (k j : Key) (v : ℤ)
      → value_of (hm_put m k v).1 j ≡ (if key_eq j k then some v else value_of m j)
  pub put_len :
      (m : HashMap) (k : Key) (v : ℤ)
      → hm_len (hm_put m k v).1 ≡ (if is_some (value_of m k) then hm_len m else suc (hm_len m))
  pub get_law :
      (m : HashMap) (k : Key) (out : ℤ)
      → hm_get m k out ≡ (is_some (value_of m k), value_or out (value_of m k))
  pub del_answer : (m : HashMap) (k : Key) → (hm_del m k).0 ≡ is_some (value_of m k)
  pub del_value :
      (m : HashMap) (k j : Key)
      → value_of (hm_del m k).1 j ≡ (if key_eq j k then none else value_of m j)
  pub del_len :
      (m : HashMap) (k : Key)
      → is_some (value_of m k) ≡ true
      → suc (hm_len (hm_del m k).1) ≡ hm_len m
  pub del_len_absent :
      (m : HashMap) (k : Key) → is_some (value_of m k) ≡ false → hm_len (hm_del m k).1 ≡ hm_len m
