-- ===== src/DataStructures/HashChain/Contract.antt =====
-- The contract of ProperDS/src/hashchain.h: what the header says of each function, in terms of the
-- buckets that it fixes.
use low_level.Prelude.{
  ℕ, suc, ◌+◌, ◌*◌, ◌≡◌, refl, ap, Bool, true, Option, none, some, List, is_some, if◌then◌else◌,
  ltb, Bool-cases, inl, inr, length, ◌≤◌, ◌∷◌, sym, arith,
}
use low_level.Prelude.Int.{ℤ}
use low_level.DataStructures.HashChain.{
  HashChain, IsHashChain, value_of, answer, hashchain_init, hashchain_put, hashchain_get,
  hashchain_delete, bucket_index, AllHome, find_in, matching, with_chain, overwritten, chain_of,
  grown,
}
use low_level.DataStructures.HashChain.Rehash.{chain_at-empties}
use mathlib.Core.Path.{subst}
use low_level.DataStructures.HashChain.Updates.{
  IsLoaded, Sets, hashchain_put_lem, hashchain_delete_lem,
}

-- "after an insert makes len > nbuckets, double nbuckets"
abbrev pub buckets_after : HashChain → Option ℤ → ℕ
buckets_after h (some v) = h.nbuckets
buckets_after h none = if ltb h.nbuckets (suc h.len) then 2 * h.nbuckets else h.nbuckets

-- The functions of the header, while allocation succeeds. A value `*out` is given and returned, and
-- `value_of h k` is what the bucket of the key holds for it.
pub record HashChainApi : Type 0 where
  pub hashchain_init : HashChain
  pub hashchain_free : HashChain → Unit {0}
  pub hashchain_put : HashChain → List ℕ → ℤ → Bool × HashChain
  pub hashchain_get : HashChain → List ℕ → ℤ → Bool × ℤ
  pub hashchain_delete : HashChain → List ℕ → Bool × HashChain
  pub hashchain_len : HashChain → ℕ
  pub init_valid : IsHashChain hashchain_init
  pub init_size : (hashchain_init.nbuckets ≡ 8) × (hashchain_init.len ≡ 0)
  pub init_empty : (k : List ℕ) → value_of hashchain_init k ≡ none
  pub put_law :
      (h : HashChain) (k : List ℕ) (v : ℤ)
      → IsLoaded h
      → (h' : HashChain) × (hashchain_put h k v ≡ (true, h'))
        × IsHashChain h'
        × (h'.nbuckets ≡ buckets_after h (value_of h k))
        × (h'.len ≡ (if is_some (value_of h k) then h.len else suc h.len))
        × Sets h k (some v) h'
  pub get_law :
      (h : HashChain) (k : List ℕ) (out : ℤ)
      → IsHashChain h
      → hashchain_get h k out ≡ answer (value_of h k) out
  pub delete_law :
      (h : HashChain) (k : List ℕ)
      → IsLoaded h
      → (h' : HashChain) × (hashchain_delete h k ≡ (is_some (value_of h k), h'))
        × IsHashChain h'
        × (h'.nbuckets ≡ h.nbuckets)
        × (h'.len + (if is_some (value_of h k) then 1 else 0) ≡ h.len)
        × Sets h k none h'
  pub len_law : (h : HashChain) → hashchain_len h ≡ h.len

init-IsLoaded : IsLoaded hashchain_init
init-IsLoaded = record {
  valid = record {
    sized = refl;
    some_bucket = omega arith;
    home = λ i. subst (AllHome 8 i) (sym (chain_at-empties 8 i)) tt;
    counted = refl;
    once = λ key.
        subst (λ c. length (matching key c) ≤ 1) (sym (chain_at-empties 8 (bucket_index 8 key)))
          (omega arith);
  };
  load = omega arith;
}

init-value_of : (key : List ℕ) → value_of hashchain_init key ≡ none
init-value_of key = ap (find_in key) (chain_at-empties 8 (bucket_index 8 key))

abbrev after_put : HashChain → List ℕ → ℤ → Bool → Bool × HashChain
after_put h k v there =
    if there
    then (true, with_chain h k (overwritten k v (chain_of h k)) h.len)
    else (true, grown (with_chain h k (record { key = k; value = v } ∷ chain_of h k) (suc h.len)))

after_put-buckets :
    (h : HashChain) (k : List ℕ) (v : ℤ) (o : Option ℤ)
    → (after_put h k v (is_some o)).1.nbuckets ≡ buckets_after h o
after_put-buckets h k v (some w) = refl
after_put-buckets h k v none = elim (Bool-cases (ltb h.nbuckets (suc h.len))) [
  | inl over ↦ rw over refl
  | inr within ↦ rw within refl
]

put_buckets :
    (h : HashChain) (k : List ℕ) (v : ℤ)
    → (hashchain_put h k v).1.nbuckets ≡ buckets_after h (value_of h k)
unfolding hashchain_put
put_buckets h k v = after_put-buckets h k v (value_of h k)

delete_buckets : (h : HashChain) (k : List ℕ) → (hashchain_delete h k).1.nbuckets ≡ h.nbuckets
unfolding hashchain_delete
delete_buckets h k = elim (Bool-cases (is_some (value_of h k))) [
  | inl there ↦ rw there refl
  | inr absent ↦ rw absent refl
]

-- Functions that keep the contract.
pub chaining : HashChainApi
unfolding hashchain_get
chaining = record {
  hashchain_init = hashchain_init;
  hashchain_free = λ h. tt;
  hashchain_put = hashchain_put;
  hashchain_get = hashchain_get;
  hashchain_delete = hashchain_delete;
  hashchain_len = λ h. h.len;
  init_valid = init-IsLoaded.valid;
  init_size = (refl, refl);
  init_empty = init-value_of;
  put_law = λ h k v loaded.
      let (ok, loaded', size, sets) = hashchain_put_lem h k v loaded in
      (
        (hashchain_put h k v).1,
        ap (λ b. (b, (hashchain_put h k v).1)) ok,
        loaded'.valid,
        put_buckets h k v,
        size,
        sets,
      );
  get_law = λ h k out valid. refl;
  delete_law = λ h k loaded.
      let (ok, loaded', size, sets) = hashchain_delete_lem h k loaded in
      (
        (hashchain_delete h k).1,
        ap (λ b. (b, (hashchain_delete h k).1)) ok,
        loaded'.valid,
        delete_buckets h k,
        size,
        sets,
      );
  len_law = λ h. refl;
}
