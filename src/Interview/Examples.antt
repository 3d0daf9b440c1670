-- ===== src/Interview/Examples.antt =====
-- The theorems on the headers of ProperInterview/src at concrete values, with a cache and a map that
-- are lists.
mod Phrases
use low_level.Prelude.{
  is_some, ℕ, ◌+◌, ◌≤◌, ◌≡◌, ◌↔◌, drop, refl, Bool, true, false, Option, none, some, List, [], ◌∷◌,
  length, arith, leb, ltb, if◌then◌else◌, lt→ltb,
}
use low_level.Prelude.Int.{ℤ, pos, negsuc}
use low_level.DataStructures.Trace.{run}
use low_level.Interview.Cstrings.{AtoiApi, parsed, fits_int}
use low_level.Interview.Cstrings.Roundtrip.{print, my_atoi-print}
use low_level.Interview.Strfns as Strfns
use low_level.Interview.Strfns.Concat.{my_strcmp_iff, my_strcat-my_strcpy}
use low_level.Interview.Texts.{text_functions}
use low_level.Interview.DynArr.Calls as ArrayCalls
use low_level.Interview.DynArr.Calls.{da_refines}
use low_level.Interview.Reference.{packed_arrays}
use low_level.Interview.HashMap.{HashMapApi, value_or}
use low_level.Interview.HashMap.Calls as HashMapCalls
use low_level.Interview.HashMap.Calls.{hm_refines}
use low_level.Interview.HashMap.Calls.Entries as Entries
use low_level.Interview.Lru.{Entry, lookup, used, evicted, LruApi}
use low_level.Interview.Lru.Recency.{Call, get, put, puts_none, after, lru_len_bound}
use low_level.Interview.Lru.Survival.{lru_get-put}

record ListCache : Type 0 where
  items : List Entry
  room : ℕ

get_found : Option ℕ → ListCache → ℕ → ℤ × ListCache
get_found none c k = (negsuc 0, c)
get_found (some v) c k = (pos v, record c { items = used k v c.items })

put_found : Option ℕ → ListCache → ℕ → ℕ → ListCache
put_found (some w) c k v = record c { items = used k v c.items }
put_found none c k v =
    if ltb (length c.items) c.room
    then record c { items = (k, v) ∷ c.items }
    else record c { items = (k, v) ∷ evicted c.items }

get_found-room : (r : Option ℕ) (c : ListCache) (k : ℕ) → (get_found r c k).1.room ≡ c.room
unfolding get_found
get_found-room none c k = refl
get_found-room (some v) c k = refl

put_found-room : (r : Option ℕ) (c : ListCache) (k v : ℕ) → (put_found r c k v).room ≡ c.room
unfolding put_found
put_found-room none c k v = ground arith
put_found-room (some w) c k v = refl

list_caches : LruApi ListCache
unfolding get_found put_found
list_caches = record {
  entries = λ c. c.items;
  capacity = λ c. c.room;
  lru_create = λ n. record { items = []; room = n };
  lru_destroy = λ c. tt;
  lru_get = λ c k. get_found (lookup k c.items) c k;
  lru_put = λ c k v. put_found (lookup k c.items) c k v;
  lru_len = λ c. length c.items;
  create_law = λ n positive. (refl, refl);
  get_capacity = λ c k. get_found-room (lookup k c.items) c k;
  put_capacity = λ c k v. put_found-room (lookup k c.items) c k v;
  get_hit = λ c k v hit. rw hit (refl, refl);
  get_miss = λ c k miss. rw miss (refl, refl);
  put_present = λ c k v w hit. rw hit refl;
  put_new = λ c k v miss room. rw (miss, lt→ltb (length c.items) c.room room) refl;
  put_full = λ c k v miss full.
      let off : ltb (length c.items) c.room ≡ false = ground arith in rw (miss, off) refl;
  len_law = λ c. refl;
}

abbrev calls : List Call
calls = put 7 70 ∷ get 5 ∷ put 8 80 ∷ []

lru_len_bound_test : list_caches.lru_len (after list_caches calls (list_caches.lru_create 2)) ≤ 2
lru_len_bound_test = lru_len_bound list_caches 2 calls (omega arith)

abbrev full_cache : ListCache
full_cache = record { items = (1, 10) ∷ (2, 20) ∷ (3, 30) ∷ (4, 40) ∷ []; room = 4 }

lru_get-put_example :
    (list_caches.lru_get (after list_caches calls (list_caches.lru_put full_cache 5 50)) 5).0
    ≡ pos 50
unfolding list_caches puts_none
lru_get-put_example =
    lru_get-put list_caches full_cache 5 50 calls (omega arith, omega arith) (omega arith) refl

-- A list of entries with different keys.
record ListMap : Type 0 where
  entries : List Entries.Entry
  distinct : Entries.Distinct entries

list_maps : HashMapApi ListMap
unfolding Entries.lookup Entries.Distinct
list_maps = record {
  value_of = λ m k. Entries.lookup k m.entries;
  hm_create = λ n. record { entries = []; distinct = tt };
  hm_destroy = λ m. tt;
  hm_put = λ m k v. (
    true,
    record {
      entries = Entries.upsert k v m.entries;
      distinct = Entries.upsert-Distinct k v m.entries m.distinct;
    },
  );
  hm_get =
      λ m k out. (is_some (Entries.lookup k m.entries), value_or out (Entries.lookup k m.entries));
  hm_del = λ m k. (
    is_some (Entries.lookup k m.entries),
    record {
      entries = Entries.erase k m.entries;
      distinct = Entries.erase-Distinct k m.entries m.distinct;
    },
  );
  hm_len = λ m. length m.entries;
  create_law = λ n positive. (λ k. refl, refl);
  put_answer = λ m k v. refl;
  put_value = λ m k j v. Entries.lookup-upsert j k v m.entries;
  put_len = λ m k v. Entries.length-upsert k v m.entries;
  get_law = λ m k out. refl;
  del_answer = λ m k. refl;
  del_value = λ m k j. Entries.lookup-erase j k m.entries;
  del_len = λ m k there. Entries.length-erase k m.entries m.distinct there;
  del_len_absent = λ m k absent. Entries.length-erase_absent k m.entries absent;
}

abbrev map_calls : List HashMapCalls.Call
map_calls =
    HashMapCalls.put (97 ∷ []) (pos 1)
    ∷ HashMapCalls.put (98 ∷ []) (pos 2)
    ∷ HashMapCalls.put (97 ∷ []) (pos 3)
    ∷ HashMapCalls.get (97 ∷ []) (pos 0)
    ∷ HashMapCalls.del (98 ∷ [])
    ∷ HashMapCalls.get (98 ∷ []) (pos 9)
    ∷ HashMapCalls.len
    ∷ []

hm_refines_test :
    run (HashMapCalls.step list_maps) map_calls (list_maps.hm_create 8)
    ≡ run HashMapCalls.spec map_calls []
hm_refines_test = hm_refines list_maps 8 map_calls (omega arith)

-- No buffer has more than 4 slots, so the first push fails.
abbrev array_calls : List ArrayCalls.Call
array_calls =
    ArrayCalls.push false (pos 1)
    ∷ ArrayCalls.push true (pos 1)
    ∷ ArrayCalls.len
    ∷ ArrayCalls.pop (pos 9)
    ∷ ArrayCalls.push false (pos 2)
    ∷ ArrayCalls.set_at 0 (pos 3)
    ∷ ArrayCalls.remove_at 0
    ∷ ArrayCalls.cap
    ∷ []

da_refines_test :
    run (ArrayCalls.step packed_arrays) array_calls packed_arrays.da_init
    ≡ run (ArrayCalls.spec) array_calls ([], 0)
da_refines_test = da_refines packed_arrays array_calls

atoi_answer : Option ℤ → ℤ → ℤ × ℤ
atoi_answer none out = (negsuc 0, out)
atoi_answer (some z) out = if fits_int z then (pos 0, z) else (negsuc 1, out)

checked_atoi : AtoiApi
unfolding atoi_answer
checked_atoi = record {
  my_atoi = λ s out. atoi_answer (parsed s) out;
  parses = λ s z out e fits. rw (e, fits) refl;
  overflows = λ s z out e beyond. rw (e, beyond) refl;
  refuses = λ s out e. rw e refl;
}

my_atoi-print_example :
    checked_atoi.my_atoi (print (negsuc 2147483647)) (pos 7)
    ≡ (if fits_int (negsuc 2147483647) then (pos 0, negsuc 2147483647) else (negsuc 1, pos 7))
my_atoi-print_example = my_atoi-print checked_atoi (negsuc 2147483647) (pos 7)

-- "ab" and "c" in buffers of four bytes.
abbrev ab : List ℕ
ab = 97 ∷ 98 ∷ 0 ∷ 7 ∷ []

abbrev c_only : List ℕ
c_only = 99 ∷ 0 ∷ 7 ∷ 7 ∷ []

abbrev scratch : List ℕ
scratch = 1 ∷ 2 ∷ 3 ∷ 4 ∷ 5 ∷ 6 ∷ []

ab-Holds : Strfns.Holds ab (97 ∷ 98 ∷ [])
ab-Holds = record { behind = 7 ∷ []; split = refl; no_nul = (ground arith, (ground arith, tt)) }

c_only-Holds : Strfns.Holds c_only (99 ∷ [])
c_only-Holds = record { behind = 7 ∷ 7 ∷ []; split = refl; no_nul = (ground arith, tt) }

my_strcmp_iff_test :
    (text_functions.my_strcmp ab c_only ≡ pos 0) ↔ (◌≡◌ {A = List ℕ} (97 ∷ 98 ∷ []) (99 ∷ []))
my_strcmp_iff_test =
    my_strcmp_iff text_functions ab c_only (97 ∷ 98 ∷ []) (99 ∷ []) ab-Holds c_only-Holds

my_strcat-my_strcpy_test :
    (Strfns.Holds
      (text_functions.my_strcat (text_functions.my_strcpy scratch ab) c_only)
      (97 ∷ 98 ∷ 99 ∷ []))
    × (text_functions.my_strlen
          (text_functions.my_strcat (text_functions.my_strcpy scratch ab) c_only)
        ≡ text_functions.my_strlen ab + text_functions.my_strlen c_only)
    × (length (text_functions.my_strcat (text_functions.my_strcpy scratch ab) c_only)
        ≡ length scratch)
    × (drop 4 (text_functions.my_strcat (text_functions.my_strcpy scratch ab) c_only)
        ≡ drop 4 scratch)
my_strcat-my_strcpy_test =
    my_strcat-my_strcpy text_functions scratch ab c_only (97 ∷ 98 ∷ []) (99 ∷ []) ab-Holds
      c_only-Holds (omega arith)
