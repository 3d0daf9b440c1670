-- ===== src/DataStructures/Examples/Chains.antt =====
-- The theorems on ProperDS/src/hashchain.h at a concrete table: one entry in a table of one bucket.
use low_level.Prelude.{
  ℕ, zero, suc, ◌≤◌, ◌≡◌, refl, sym, List, [], ◌∷◌, length, Bool-cases, inl, inr, arith,
}
use mathlib.Core.Path.{subst}
use low_level.Prelude.Int.{ℤ, pos}
use native.Mathlib.Nat.{mod-lt}
use low_level.DataStructures.Fnv.{fnv1a, key_eq}
use low_level.DataStructures.HashChain.{
  HashChain, matching, bucket_index, AllHome, chain_at, IsHashChain, hashchain_get, answer, find_in,
  entries, resized,
}
use low_level.DataStructures.HashChain.Scan.{hashchain_get-entries}
use low_level.DataStructures.HashChain.Rehash.{hashchain_get-resized}

abbrev single : HashChain
single = record {
  buckets = (record { key = 97 ∷ []; value = pos 5 } ∷ []) ∷ [];
  nbuckets = 1;
  len = 1;
}

single-home : (i : ℕ) → AllHome 1 i (chain_at single.buckets i)
single-home zero = (omega (arith, mod-lt (fnv1a (97 ∷ [])) {m = 1} (omega arith)), tt)
single-home (suc i) = tt

single-once :
    (key : List ℕ) → length (matching key (chain_at single.buckets (bucket_index 1 key))) ≤ 1
single-once key =
    let first : bucket_index 1 key ≡ 0 = omega (arith, mod-lt (fnv1a key) {m = 1} (omega arith)) in
    subst (λ (i : ℕ). length (matching key (chain_at single.buckets i)) ≤ 1) (sym first)
      (elim (Bool-cases (key_eq key (97 ∷ []))) [
        | inl same ↦ rw same (omega arith)
        | inr other ↦ rw other (omega arith)
      ])

single-IsHashChain : IsHashChain single
single-IsHashChain = record {
  sized = refl;
  some_bucket = omega arith;
  home = single-home;
  counted = refl;
  once = single-once;
}

hashchain_get-entries_test :
    hashchain_get single (97 ∷ []) (pos 0)
    ≡ answer (find_in (97 ∷ []) (entries single.buckets)) (pos 0)
hashchain_get-entries_test = hashchain_get-entries single (97 ∷ []) (pos 0) single-IsHashChain

hashchain_get-resized_test :
    IsHashChain (resized single)
    × (hashchain_get (resized single) (97 ∷ []) (pos 0) ≡ hashchain_get single (97 ∷ []) (pos 0))
hashchain_get-resized_test = hashchain_get-resized single (97 ∷ []) (pos 0) single-IsHashChain

abbrev two_puts : List (List ℕ × ℤ)
two_puts = (97 ∷ [], pos 5) ∷ (98 ∷ [], pos 6) ∷ (97 ∷ [], pos 7) ∷ []
