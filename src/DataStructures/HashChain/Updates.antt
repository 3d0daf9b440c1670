-- ===== src/DataStructures/HashChain/Updates.antt =====
-- hashchain_put and hashchain_delete of ProperDS/src/hashchain.h.
pub mod Chain
use low_level.Prelude.{
  is_some, ℕ, zero, suc, ◌+◌, ◌-◌, ◌*◌, ◌≤◌, ◌<◌, ◌≡◌, refl, sym, ap, ◌∙◌, Bool, true, false,
  Option, none, some, List, [], ◌∷◌, length, length-set, set, if◌then◌else◌, ltb, ltb→lt,
  Bool-cases, inl, inr, arith,
}
use mathlib.Core.Path.{subst}
use low_level.Prelude.Int.{ℤ}
use low_level.DataStructures.Fnv.{key_eq, eq_of_key_eq}
use low_level.DataStructures.HashChain.{
  HcEntry, HashChain, bucket_index, chain_at, chain_of, with_chain, value_of, entries, AllHome,
  matching, IsHashChain, find_in, overwritten, unlinked, grown, resized, hashchain_put,
  hashchain_delete,
}
use low_level.DataStructures.HashChain.Scan.{first_value, find_in-matching}
use low_level.DataStructures.HashChain.Chains.{
  index-lt, set-AllHome, matching-set, length-entries-set,
}
use low_level.DataStructures.HashChain.Rehash.{resized-IsHashChain, value_of-resized}
use low_level.DataStructures.HashChain.Updates.Chain.{
  revalued, rest, matching-overwritten, matching-unlinked, overwritten-AllHome, unlinked-AllHome,
  length-overwritten, length-unlinked,
}

-- One chain of the table is changed, and in it only the entries with the key.
module _ (h : HashChain) (valid : IsHashChain h) (k : List ℕ) (c : List HcEntry)
    (change : List HcEntry → List HcEntry)
    (local : (j : List ℕ)
      → matching j c ≡ (
          if key_eq j k
          then change (matching j (chain_of h k))
          else matching j (chain_of h k))) where
  changed-matching :
      (len : ℕ) (j : List ℕ)
      → matching j (chain_of (with_chain h k c len) j)
        ≡ (if key_eq j k then change (matching j (chain_of h j)) else matching j (chain_of h j))
  changed-matching len j =
      matching-set h.nbuckets valid.some_bucket h.buckets valid.sized k c change local j

  changed-IsHashChain :
      (len : ℕ)
      → AllHome h.nbuckets (bucket_index h.nbuckets k) c
      → len + length (chain_of h k) ≡ h.len + length c
      → length (change (matching k (chain_of h k))) ≤ 1
      → IsHashChain (with_chain h k c len)
  changed-IsHashChain len home_c longer single = record {
    sized = length-set h.buckets (bucket_index h.nbuckets k) c ∙ valid.sized;
    some_bucket = valid.some_bucket;
    home = set-AllHome h.nbuckets valid.some_bucket h.buckets valid.sized k c valid.home home_c;
    counted = omega (
      arith,
      longer,
      valid.counted,
      length-entries-set h.buckets (bucket_index h.nbuckets k) c
          (omega (arith, index-lt h.nbuckets valid.some_bucket k, valid.sized)),
    );
    once = λ j.
        subst (λ t. length t ≤ 1) (sym (changed-matching len j))
          (elim (Bool-cases (key_eq j k)) [
            | inl same ↦ rw same (
                subst (λ i. length (change (matching i (chain_of h i))) ≤ 1)
                  (sym (eq_of_key_eq j k same)) single)
            | inr other ↦ rw other (valid.once j)
          ]);
  }

  changed-value_of :
      (len : ℕ) (r : Option ℤ)
      → first_value (change (matching k (chain_of h k))) ≡ r
      → (j : List ℕ) → value_of (with_chain h k c len) j ≡ (if key_eq j k then r else value_of h j)
  changed-value_of len r e j =
      find_in-matching j (chain_of (with_chain h k c len) j)
      ∙ ap first_value (changed-matching len j)
      ∙ elim (Bool-cases (key_eq j k)) [
        | inl same ↦ rw same (
            subst (λ i. first_value (change (matching i (chain_of h i))) ≡ r)
              (sym (eq_of_key_eq j k same)) e)
        | inr other ↦ rw other (sym (find_in-matching j (chain_of h j)))
      ]

no_match : (es : List HcEntry) → is_some (first_value es) ≡ false → es ≡ []
no_match [] e = refl
no_match (x ∷ es) e = cc

first_value-revalued :
    (v : ℤ) (es : List HcEntry)
    → is_some (first_value es) ≡ true
    → first_value (revalued v es) ≡ some v
first_value-revalued v [] e = cc
first_value-revalued v (x ∷ es) e = refl

length-revalued : (v : ℤ) (es : List HcEntry) → length (revalued v es) ≡ length es
length-revalued v [] = refl
length-revalued v (x ∷ es) = refl

first_value-rest : (es : List HcEntry) → length es ≤ 1 → first_value (rest es) ≡ none
first_value-rest [] le = refl
first_value-rest (x ∷ []) le = refl
first_value-rest (x ∷ y ∷ es) le = absurd (omega (arith, le))

length-rest : (es : List HcEntry) → length es ≤ 1 → length (rest es) ≤ 1
length-rest [] le = le
length-rest (x ∷ es) le = omega (arith, le)

-- A table with the invariant whose load is at most one entry for each bucket.
pub record IsLoaded (h : HashChain) : Type 0 where
  pub valid : IsHashChain h
  pub load : h.len ≤ h.nbuckets

-- `h'` has the value `r` for the key `k`, and the values of `h` for the other keys.
abbrev pub Sets : HashChain → List ℕ → Option ℤ → HashChain → Type 0
Sets h k r h' = (j : List ℕ) → value_of h' j ≡ (if key_eq j k then r else value_of h j)

grown-IsLoaded :
    (h h' : HashChain) (k : List ℕ) (r : Option ℤ)
    → IsHashChain h'
    → h'.len ≤ 2 * h'.nbuckets
    → Sets h k r h'
    → IsLoaded (grown h') × ((grown h').len ≡ h'.len) × Sets h k r (grown h')
grown-IsLoaded h h' k r valid le sets = elim (Bool-cases (ltb h'.nbuckets h'.len)) [
  | inl over ↦ rw over (
    record { valid = resized-IsHashChain h' valid; load = le },
    refl,
    λ j. value_of-resized h' valid j ∙ sets j,
  )
  | inr within ↦ rw within (record { valid = valid; load = ground (arith, within) }, refl, sets)
]

module _ (h : HashChain) (k : List ℕ) (loaded : IsLoaded h) where
  of_matching : value_of h k ≡ first_value (matching k (chain_of h k))
  of_matching = find_in-matching k (chain_of h k)

  overwrite_lem :
      (v : ℤ)
      → is_some (value_of h k) ≡ true
      → IsLoaded (with_chain h k (overwritten k v (chain_of h k)) h.len)
        × Sets h k (some v) (with_chain h k (overwritten k v (chain_of h k)) h.len)
  overwrite_lem v there =
      let c = overwritten k v (chain_of h k) in
      let local = matching-overwritten k v (chain_of h k) in
      (
        record {
          valid =
              changed-IsHashChain h loaded.valid k c (revalued v) local h.len
                (overwritten-AllHome h.nbuckets (bucket_index h.nbuckets k) k v (chain_of h k)
                  (loaded.valid.home (bucket_index h.nbuckets k)))
                (omega (arith, length-overwritten k v (chain_of h k)))
                (subst (λ (m : ℕ). m ≤ 1) (sym (length-revalued v (matching k (chain_of h k))))
                  (loaded.valid.once k));
          load = loaded.load;
        },
        changed-value_of h loaded.valid k c (revalued v) local h.len (some v) (
            first_value-revalued v (matching k (chain_of h k))
              (ap is_some (sym of_matching) ∙ there)),
      )

  add_lem :
      (v : ℤ)
      → is_some (value_of h k) ≡ false
      → IsHashChain (with_chain h k (record { key = k; value = v } ∷ chain_of h k) (suc h.len))
        × Sets h k
            (some v)
            (with_chain h k (record { key = k; value = v } ∷ chain_of h k) (suc h.len))
  add_lem v absent =
      let c = record { key = k; value = v } ∷ chain_of h k in
      let none_yet : matching k (chain_of h k) ≡ [] =
        no_match (matching k (chain_of h k)) (ap is_some (sym of_matching) ∙ absent) in
      (
        changed-IsHashChain h loaded.valid k c (λ t. record { key = k; value = v } ∷ t) (λ j. refl)
            (suc h.len) (refl, loaded.valid.home (bucket_index h.nbuckets k)) (omega arith)
            (omega (arith, ap length none_yet)),
        changed-value_of h loaded.valid k c (λ t. record { key = k; value = v } ∷ t) (λ j. refl)
            (suc h.len) (some v) refl,
      )

  unlink_lem :
      is_some (value_of h k) ≡ true
      → IsLoaded (with_chain h k (unlinked k (chain_of h k)) (h.len - 1))
        × (h.len - 1 + 1 ≡ h.len)
        × Sets h k none (with_chain h k (unlinked k (chain_of h k)) (h.len - 1))
  unlink_lem there =
      let c = unlinked k (chain_of h k) in
      let local = matching-unlinked k (chain_of h k) in
      let shorter = length-unlinked k (chain_of h k) there in
      let whole =
        length-entries-set h.buckets (bucket_index h.nbuckets k) []
          (omega (arith, index-lt h.nbuckets loaded.valid.some_bucket k, loaded.valid.sized)) in
      let some_entry : 0 < h.len = omega (arith, loaded.valid.counted, shorter, whole) in
      (
        record {
          valid =
              changed-IsHashChain h loaded.valid k c rest local (h.len - 1)
                (unlinked-AllHome h.nbuckets (bucket_index h.nbuckets k) k (chain_of h k)
                  (loaded.valid.home (bucket_index h.nbuckets k)))
                (omega (arith, shorter, some_entry))
                (length-rest (matching k (chain_of h k)) (loaded.valid.once k));
          load = omega (arith, loaded.load);
        },
        omega (arith, some_entry),
        changed-value_of h loaded.valid k c rest local (h.len - 1) none
            (first_value-rest (matching k (chain_of h k)) (loaded.valid.once k)),
      )

-- hashchain_put gives the key its value and leaves the other keys theirs, and the table it leaves has
-- the invariant, with its load bound restored by a resize.
pub hashchain_put_lem :
    (h : HashChain) (k : List ℕ) (v : ℤ)
    → IsLoaded h
    → ((hashchain_put h k v).0 ≡ true)
      × IsLoaded (hashchain_put h k v).1
      × ((hashchain_put h k v).1.len ≡ (if is_some (value_of h k) then h.len else suc h.len))
      × Sets h k (some v) (hashchain_put h k v).1
unfolding hashchain_put
hashchain_put_lem h k v loaded = elim (Bool-cases (is_some (value_of h k))) [
  | inl there ↦
      let (valid, sets) = overwrite_lem h k loaded v there in rw there (refl, valid, refl, sets)
  | inr absent ↦
      let h' : HashChain =
        with_chain h k (record { key = k; value = v } ∷ chain_of h k) (suc h.len) in
      let (valid, sets) = add_lem h k loaded v absent in
      let (valid', same, sets') =
        grown-IsLoaded h h' k (some v) valid (omega (arith, loaded.load, loaded.valid.some_bucket))
          sets in
      rw absent (refl, valid', same, sets')
]

not_there : (o : Option ℤ) → is_some o ≡ false → o ≡ none
not_there none e = refl
not_there (some v) e = cc

-- hashchain_delete answers whether the key was present; afterwards it is absent and the other keys
-- have their values, there is one entry less when it was present, and the invariant holds.
pub hashchain_delete_lem :
    (h : HashChain) (k : List ℕ)
    → IsLoaded h
    → ((hashchain_delete h k).0 ≡ is_some (value_of h k))
      × IsLoaded (hashchain_delete h k).1
      × ((hashchain_delete h k).1.len + (if is_some (value_of h k) then 1 else 0) ≡ h.len)
      × Sets h k none (hashchain_delete h k).1
unfolding hashchain_delete
hashchain_delete_lem h k loaded = elim (Bool-cases (is_some (value_of h k))) [
  | inl there ↦
      let (valid, one_less, sets) = unlink_lem h k loaded there in
      rw there (refl, valid, one_less, sets)
  | inr absent ↦ rw absent (
    refl,
    loaded,
    omega arith,
    λ j. elim (Bool-cases (key_eq j k)) [
      | inl same ↦
          rw same (ap (value_of h) (eq_of_key_eq j k same) ∙ not_there (value_of h k) absent)
      | inr other ↦ rw other refl
    ],
  )
]
