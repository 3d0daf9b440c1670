-- ===== src/DataStructures/HashChain/Rehash.antt =====
-- Rehashing the table of ProperDS/src/hashchain.h.
use low_level.Prelude.{
  ℕ, zero, suc, ◌*◌, ◌≤◌, ◌<◌, ◌≡◌, refl, sym, ap, ◌∙◌, List, [], ◌∷◌, length, length-set,
  if◌then◌else◌, arith,
}
use mathlib.Core.Path.{subst}
use low_level.Prelude.Int.{ℤ}
use low_level.DataStructures.Fnv.{key_eq}
use low_level.DataStructures.HashChain.{
  HcEntry, HashChain, bucket_index, chain_at, chain_of, value_of, entries, AllHome, matching,
  IsHashChain, answer, hashchain_get, empties, place_all, resized,
}
use low_level.DataStructures.HashChain.Scan.{first_value, find_in-matching, matching-entries}
use low_level.DataStructures.HashChain.Chains.{
  index-lt, set-AllHome, matching-set, length-entries-set,
}

pub chain_at-empties : (n i : ℕ) → chain_at (empties n) i ≡ []
chain_at-empties zero i = refl
chain_at-empties (suc n) zero = refl
chain_at-empties (suc n) (suc i) = chain_at-empties n i

pub length-empties : (n : ℕ) → length (empties n) ≡ n
length-empties zero = refl
length-empties (suc n) = ap suc (length-empties n)

pub entries-empties : (n : ℕ) → entries (empties n) ≡ []
entries-empties zero = refl
entries-empties (suc n) = entries-empties n

length-place_all : (n : ℕ) (es : List HcEntry) → length (place_all n es) ≡ n
length-place_all n [] = length-empties n
length-place_all n (e ∷ es) =
    length-set (place_all n es) (bucket_index n e.key)
      (e ∷ chain_at (place_all n es) (bucket_index n e.key))
    ∙ length-place_all n es

module _ (n : ℕ) (pos : 0 < n) where
  -- The entries with a key are in its bucket as they are among the entries that were placed.
  matching-place_all :
      (es : List HcEntry) (key : List ℕ)
      → matching key (chain_at (place_all n es) (bucket_index n key)) ≡ matching key es
  matching-place_all [] key = ap (matching key) (chain_at-empties n (bucket_index n key))
  matching-place_all (e ∷ es) key =
      matching-set n pos (place_all n es) (length-place_all n es) e.key
        (e ∷ chain_at (place_all n es) (bucket_index n e.key)) (λ t. e ∷ t) (λ j. refl) key
      ∙ ap (λ t. if key_eq key e.key then e ∷ t else t) (matching-place_all es key)

  place_all-AllHome : (es : List HcEntry) (i : ℕ) → AllHome n i (chain_at (place_all n es) i)
  place_all-AllHome [] i = subst (AllHome n i) (sym (chain_at-empties n i)) tt
  place_all-AllHome (e ∷ es) i =
      set-AllHome n pos (place_all n es) (length-place_all n es) e.key
        (e ∷ chain_at (place_all n es) (bucket_index n e.key)) (place_all-AllHome es)
        (refl, place_all-AllHome es (bucket_index n e.key)) i

  length-entries-place_all : (es : List HcEntry) → length (entries (place_all n es)) ≡ length es
  length-entries-place_all [] = ap length (entries-empties n)
  length-entries-place_all (e ∷ es) = omega (
    arith,
    length-entries-set (place_all n es) (bucket_index n e.key)
        (e ∷ chain_at (place_all n es) (bucket_index n e.key))
        (omega (arith, index-lt n pos e.key, length-place_all n es)),
    length-entries-place_all es,
  )

module _ (h : HashChain) (valid : IsHashChain h) where
  doubled : 0 < 2 * h.nbuckets
  doubled = omega (arith, valid.some_bucket)

  matching-resized :
      (key : List ℕ) → matching key (chain_of (resized h) key) ≡ matching key (chain_of h key)
  matching-resized key =
      matching-place_all (2 * h.nbuckets) doubled (entries h.buckets) key
      ∙ matching-entries h key valid

  pub resized-IsHashChain : IsHashChain (resized h)
  resized-IsHashChain = record {
    sized = length-place_all (2 * h.nbuckets) (entries h.buckets);
    some_bucket = doubled;
    home = place_all-AllHome (2 * h.nbuckets) doubled (entries h.buckets);
    counted = length-entries-place_all (2 * h.nbuckets) doubled (entries h.buckets) ∙ valid.counted;
    once = λ key. subst (λ t. length t ≤ 1) (sym (matching-resized key)) (valid.once key);
  }

  pub value_of-resized : (key : List ℕ) → value_of (resized h) key ≡ value_of h key
  value_of-resized key =
      find_in-matching key (chain_of (resized h) key)
      ∙ ap first_value (matching-resized key)
      ∙ sym (find_in-matching key (chain_of h key))

-- A table of twice the size, with every entry rehashed, has the invariant again, and hashchain_get
-- answers for every key as it did before.
pub hashchain_get-resized :
    (h : HashChain) (key : List ℕ) (out : ℤ)
    → IsHashChain h
    → IsHashChain (resized h) × (hashchain_get (resized h) key out ≡ hashchain_get h key out)
unfolding hashchain_get
hashchain_get-resized h key out valid =
    (resized-IsHashChain h valid, ap (λ o. answer o out) (value_of-resized h valid key))
