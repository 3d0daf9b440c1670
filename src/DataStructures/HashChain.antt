-- ===== src/DataStructures/HashChain.antt =====
-- ProperDS/src/hashchain.h: a hash table with a chain of entries for each bucket, while allocation
-- succeeds. The functions of the header are the fields of the record in Contract; those written down
-- here are one way to keep its laws, for the tests.
pub mod Scan
pub mod Rehash
pub mod Chains
pub mod Updates
pub mod Contract
pub mod Growth
use low_level.Prelude.{
  is_some, ℕ, zero, suc, ◌-◌, ◌*◌, ◌%◌, ◌≤◌, ◌<◌, ◌≡◌, Bool, true, false, Option, none, some, List,
  [], ◌∷◌, ◌++◌, length, set, ltb, if◌then◌else◌,
}
use low_level.Prelude.Int.{ℤ}
use low_level.DataStructures.Fnv.{fnv1a, key_eq}

-- A key is the list of its bytes; `next` is the list that the entry stands in.
pub record HcEntry : Type 0 where
  pub key : List ℕ
  pub value : ℤ

pub record HashChain : Type 0 where
  pub buckets : List (List HcEntry)
  pub nbuckets : ℕ
  pub len : ℕ

abbrev pub bucket_index : ℕ → List ℕ → ℕ
bucket_index nbuckets key = fnv1a key % nbuckets

abbrev pub chain_at : List (List HcEntry) → ℕ → List HcEntry
chain_at [] i = []
chain_at (b ∷ bs) zero = b
chain_at (b ∷ bs) (suc i) = chain_at bs i

abbrev pub entries : List (List HcEntry) → List HcEntry
entries [] = []
entries (b ∷ bs) = b ++ entries bs

-- Every entry has the hash that the bucket `i` of `n` demands.
abbrev pub AllHome : (n i : ℕ) → List HcEntry → Type 0
AllHome n i [] = Unit {0}
AllHome n i (e ∷ es) = (bucket_index n e.key ≡ i) × AllHome n i es

-- The entries with a key.
abbrev pub matching : List ℕ → List HcEntry → List HcEntry
matching key [] = []
matching key (e ∷ es) = let rest = matching key es in if key_eq key e.key then e ∷ rest else rest

-- The invariant: what hashchain_validate checks, the size of the array of buckets, and that no key
-- stands twice in its bucket.
pub record IsHashChain (h : HashChain) : Type 0 where
  pub sized : length h.buckets ≡ h.nbuckets
  pub some_bucket : 0 < h.nbuckets
  pub home : (i : ℕ) → AllHome h.nbuckets i (chain_at h.buckets i)
  pub counted : length (entries h.buckets) ≡ h.len
  pub once :
      (key : List ℕ) → length (matching key (chain_at h.buckets (bucket_index h.nbuckets key))) ≤ 1

abbrev pub find_in : List ℕ → List HcEntry → Option ℤ
find_in key [] = none
find_in key (e ∷ es) = let rest = find_in key es in if key_eq key e.key then some e.value else rest

abbrev pub answer : Option ℤ → ℤ → Bool × ℤ
answer none out = (false, out)
answer (some v) out = (true, v)

-- The value that is returned, and `*out`, which is given.
unfoldable pub hashchain_get : HashChain → List ℕ → ℤ → Bool × ℤ
hashchain_get h key out =
    answer (find_in key (chain_at h.buckets (bucket_index h.nbuckets key))) out

abbrev pub empties : ℕ → List (List HcEntry)
empties zero = []
empties (suc n) = [] ∷ empties n

-- An entry goes into the bucket that its hash demands.
abbrev pub place : ℕ → HcEntry → List (List HcEntry) → List (List HcEntry)
place n e bs = set bs (bucket_index n e.key) (e ∷ chain_at bs (bucket_index n e.key))

abbrev pub place_all : ℕ → List HcEntry → List (List HcEntry)
place_all n [] = empties n
place_all n (e ∷ es) = place n e (place_all n es)

abbrev pub hashchain_init : HashChain
hashchain_init = record { buckets = empties 8; nbuckets = 8; len = 0 }

-- Twice the buckets, and every entry rehashed.
abbrev pub resized : HashChain → HashChain
resized h = record {
  buckets = place_all (2 * h.nbuckets) (entries h.buckets);
  nbuckets = 2 * h.nbuckets;
  len = h.len;
}

abbrev pub overwritten : List ℕ → ℤ → List HcEntry → List HcEntry
overwritten key v [] = []
overwritten key v (e ∷ es) =
    let rest = overwritten key v es in
    if key_eq key e.key then record { key = e.key; value = v } ∷ es else e ∷ rest

abbrev pub unlinked : List ℕ → List HcEntry → List HcEntry
unlinked key [] = []
unlinked key (e ∷ es) = let rest = unlinked key es in if key_eq key e.key then es else e ∷ rest

-- The chain that the hash of the key demands, and the table with another chain there.
abbrev pub chain_of : HashChain → List ℕ → List HcEntry
chain_of h key = chain_at h.buckets (bucket_index h.nbuckets key)

abbrev pub with_chain : HashChain → List ℕ → List HcEntry → ℕ → HashChain
with_chain h key c len = record h {
  buckets = set h.buckets (bucket_index h.nbuckets key) c;
  len = len;
}

abbrev pub value_of : HashChain → List ℕ → Option ℤ
value_of h key = find_in key (chain_of h key)

abbrev pub grown : HashChain → HashChain
grown h = if ltb h.nbuckets h.len then resized h else h

-- The header leaves open where in its chain a new entry goes; it goes in front.
unfoldable pub hashchain_put : HashChain → List ℕ → ℤ → Bool × HashChain
hashchain_put h key v =
    if is_some (value_of h key)
    then (true, with_chain h key (overwritten key v (chain_of h key)) h.len)
    else (
      true,
      grown (with_chain h key (record { key = key; value = v } ∷ chain_of h key) (suc h.len)),
    )

unfoldable pub hashchain_delete : HashChain → List ℕ → Bool × HashChain
hashchain_delete h key =
    if is_some (value_of h key)
    then (true, with_chain h key (unlinked key (chain_of h key)) (h.len - 1))
    else (false, h)

abbrev pub hashchain_len : HashChain → ℕ
hashchain_len h = h.len
