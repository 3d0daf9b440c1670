-- ===== src/DataStructures/HashChain/Scan.antt =====
-- Looking for a key in one bucket of the table of ProperDS/src/hashchain.h, and in all of them.
use low_level.Prelude.{
  ℕ, zero, suc, ◌+◌, ◌<◌, ◌≡◌, ◌≢◌, refl, sym, ap, ◌∙◌, Option, none, some, List, [], ◌∷◌, ◌++◌,
  append-nil, Bool-cases, inl, inr, arith,
}
use mathlib.Core.Path.{subst}
use low_level.Prelude.Int.{ℤ}
use low_level.DataStructures.Fnv.{key_eq, eq_of_key_eq}
use low_level.DataStructures.HashChain.{
  HcEntry, HashChain, bucket_index, chain_at, entries, AllHome, IsHashChain, matching, chain_of,
  find_in, answer, hashchain_get,
}

-- The first entry with a key is the first of those with it.
abbrev pub first_value : List HcEntry → Option ℤ
first_value [] = none
first_value (e ∷ es) = some e.value

pub find_in-matching :
    (key : List ℕ) (es : List HcEntry) → find_in key es ≡ first_value (matching key es)
find_in-matching key [] = refl
find_in-matching key (e ∷ es) = elim (Bool-cases (key_eq key e.key)) [
  | inl same ↦ rw same refl
  | inr other ↦ rw other (find_in-matching key es)
]

matching-append :
    (key : List ℕ) (xs ys : List HcEntry)
    → matching key (xs ++ ys) ≡ matching key xs ++ matching key ys
matching-append key [] ys = refl
matching-append key (e ∷ xs) ys = elim (Bool-cases (key_eq key e.key)) [
  | inl same ↦ rw same (ap (λ t. e ∷ t) (matching-append key xs ys))
  | inr other ↦ rw other (matching-append key xs ys)
]

-- A key is in no bucket but its own.
pub matching-other :
    (n i : ℕ) (key : List ℕ) (es : List HcEntry)
    → AllHome n i es
    → bucket_index n key ≢ i
    → matching key es ≡ []
matching-other n i key [] h other = refl
matching-other n i key (e ∷ es) (here, h) other = elim (Bool-cases (key_eq key e.key)) [
  | inl same ↦ absurd (other (ap (bucket_index n) (eq_of_key_eq key e.key same) ∙ here))
  | inr differs ↦ rw differs (matching-other n i key es h other)
]

module _ (n : ℕ) (key : List ℕ) where
  rest_home :
      (b : List HcEntry) (bs : List (List HcEntry)) (k : ℕ)
      → ((i : ℕ) → AllHome n (k + i) (chain_at (b ∷ bs) i))
      → (i : ℕ) → AllHome n (suc k + i) (chain_at bs i)
  rest_home b bs k home i =
      subst (λ (t : ℕ). AllHome n t (chain_at bs i)) {x = k + suc i} {y = suc k + i} (omega arith)
        (home (suc i))

  scan-none :
      (bs : List (List HcEntry)) (k : ℕ)
      → ((i : ℕ) → AllHome n (k + i) (chain_at bs i))
      → bucket_index n key < k
      → matching key (entries bs) ≡ []
  scan-none [] k home before = refl
  scan-none (b ∷ bs) k home before =
      matching-append key b (entries bs)
      ∙ ap (λ o. o ++ matching key (entries bs))
          (matching-other n (k + 0) key b (home 0) (λ e. omega (arith, e, before)))
      ∙ scan-none bs (suc k) (rest_home b bs k home) (omega (arith, before))

  scan-at :
      (bs : List (List HcEntry)) (k j : ℕ)
      → ((i : ℕ) → AllHome n (k + i) (chain_at bs i))
      → bucket_index n key ≡ k + j
      → matching key (entries bs) ≡ matching key (chain_at bs j)
  scan-at [] k j home e = refl
  scan-at (b ∷ bs) k zero home e =
      matching-append key b (entries bs)
      ∙ ap (λ o. matching key b ++ o)
          (scan-none bs (suc k) (rest_home b bs k home) (omega (arith, e)))
      ∙ append-nil (matching key b)
  scan-at (b ∷ bs) k (suc j) home e =
      matching-append key b (entries bs)
      ∙ ap (λ o. o ++ matching key (entries bs))
          (matching-other n (k + 0) key b (home 0) (λ e'. omega (arith, e, e')))
      ∙ scan-at bs (suc k) j (rest_home b bs k home) (omega (arith, e))

pub matching-entries :
    (h : HashChain) (key : List ℕ)
    → IsHashChain h
    → matching key (entries h.buckets) ≡ matching key (chain_of h key)
matching-entries h key valid =
    scan-at h.nbuckets key h.buckets 0 (bucket_index h.nbuckets key)
      (λ i.
        subst (λ (t : ℕ). AllHome h.nbuckets t (chain_at h.buckets i)) {x = i} {y = 0 + i}
          (omega arith) (valid.home i))
      (omega arith)

-- Only the bucket that the hash of a key demands needs to be searched: hashchain_get answers what
-- a search of the whole table does.
pub hashchain_get-entries :
    (h : HashChain) (key : List ℕ) (out : ℤ)
    → IsHashChain h
    → hashchain_get h key out ≡ answer (find_in key (entries h.buckets)) out
unfolding hashchain_get
hashchain_get-entries h key out valid =
    ap (λ o. answer o out)
      (find_in-matching key (chain_of h key)
        ∙ ap first_value (sym (matching-entries h key valid))
        ∙ sym (find_in-matching key (entries h.buckets)))
