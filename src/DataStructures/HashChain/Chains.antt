-- ===== src/DataStructures/HashChain/Chains.antt =====
-- Changing one bucket of the table of ProperDS/src/hashchain.h.
use low_level.Prelude.{
  ℕ, zero, suc, ◌+◌, ◌<◌, ◌≡◌, refl, sym, ap, ◌∙◌, true, false, List, [], ◌∷◌, length,
  length-append, set, if◌then◌else◌, ◌==◌, ==_iff, Bool-cases, inl, inr, arith,
}
use mathlib.Core.Path.{subst}
use native.Mathlib.Nat.{mod-lt}
use low_level.DataStructures.Fnv.{fnv1a, key_eq, eq_of_key_eq}
use low_level.DataStructures.HashChain.{HcEntry, bucket_index, chain_at, entries, AllHome, matching}

pub chain_at-set :
    (bs : List (List HcEntry)) (i j : ℕ) (c : List HcEntry)
    → i < length bs
    → chain_at (set bs i c) j ≡ (if i == j then c else chain_at bs j)
chain_at-set [] i j c lt = absurd (omega (arith, lt))
chain_at-set (b ∷ bs) zero zero c lt = refl
chain_at-set (b ∷ bs) zero (suc j) c lt = ground arith
chain_at-set (b ∷ bs) (suc i) zero c lt = ground arith
chain_at-set (b ∷ bs) (suc i) (suc j) c lt = ground (arith, chain_at-set bs i j c)

pub length-entries-set :
    (bs : List (List HcEntry)) (i : ℕ) (c : List HcEntry)
    → i < length bs
    → length (entries (set bs i c)) + length (chain_at bs i) ≡ length (entries bs) + length c
length-entries-set [] i c lt = absurd (omega (arith, lt))
length-entries-set (b ∷ bs) zero c lt =
    omega (arith, length-append c (entries bs), length-append b (entries bs))
length-entries-set (b ∷ bs) (suc i) c lt = omega (
  arith,
  length-append b (entries (set bs i c)),
  length-append b (entries bs),
  length-entries-set bs i c (omega (arith, lt)),
)

clash : true ≡ false → ⊥
clash x = cc

module _ (n : ℕ) (pos : 0 < n) where
  pub index-lt : (key : List ℕ) → bucket_index n key < n
  index-lt key = mod-lt (fnv1a key) pos

  module _ (bs : List (List HcEntry)) (sized : length bs ≡ n) (k : List ℕ) (c : List HcEntry) where
    at-index :
        (j : ℕ)
        → chain_at (set bs (bucket_index n k) c) j
          ≡ (if bucket_index n k == j then c else chain_at bs j)
    at-index j = chain_at-set bs (bucket_index n k) j c (omega (arith, index-lt k, sized))

    pub set-AllHome :
        ((i : ℕ) → AllHome n i (chain_at bs i))
        → AllHome n (bucket_index n k) c
        → (i : ℕ) → AllHome n i (chain_at (set bs (bucket_index n k) c) i)
    set-AllHome home home_c i = elim (Bool-cases (bucket_index n k == i)) [
      | inl here ↦
          subst (AllHome n i) (sym (at-index i ∙ ap (λ b. if b then c else chain_at bs i) here))
            (subst (λ j. AllHome n j c) ((==_iff (bucket_index n k) i).0 here) home_c)
      | inr other ↦
          subst (AllHome n i) (sym (at-index i ∙ ap (λ b. if b then c else chain_at bs i) other))
            (home i)
    ]

    -- A change that only concerns the entries with the key `k` does so in the table too.
    pub matching-set :
        (change : List HcEntry → List HcEntry)
        → ((j : List ℕ)
            → matching j c ≡ (
                if key_eq j k
                then change (matching j (chain_at bs (bucket_index n k)))
                else matching j (chain_at bs (bucket_index n k))))
        → (j : List ℕ)
        → matching j (chain_at (set bs (bucket_index n k) c) (bucket_index n j)) ≡ (
            if key_eq j k
            then change (matching j (chain_at bs (bucket_index n j)))
            else matching j (chain_at bs (bucket_index n j)))
    matching-set change local j = elim (Bool-cases (bucket_index n k == bucket_index n j)) [
      | inl together ↦
          let index : bucket_index n k ≡ bucket_index n j =
            (==_iff (bucket_index n k) (bucket_index n j)).0 together in
          ap (matching j) (
            at-index (bucket_index n j)
            ∙ ap (λ b. if b then c else chain_at bs (bucket_index n j)) together)
          ∙ (local j
              ∙ ap
                  (λ (i : ℕ).
                    if key_eq j k
                    then change (matching j (chain_at bs i))
                    else matching j (chain_at bs i))
                  index)
      | inr apart ↦
          let differs : key_eq j k ≡ false = elim (Bool-cases (key_eq j k)) [
            | inr other ↦ other
            | inl same ↦
                let index : bucket_index n k ≡ bucket_index n j =
                  ap (bucket_index n) (sym (eq_of_key_eq j k same)) in
                absurd
                  (clash (sym ((==_iff (bucket_index n k) (bucket_index n j)).1 index) ∙ apart))
          ] in
          ap (matching j) (
            at-index (bucket_index n j)
            ∙ ap (λ b. if b then c else chain_at bs (bucket_index n j)) apart)
          ∙ sym (
              ap
                (λ b.
                  if b
                  then change (matching j (chain_at bs (bucket_index n j)))
                  else matching j (chain_at bs (bucket_index n j)))
                differs)
    ]
