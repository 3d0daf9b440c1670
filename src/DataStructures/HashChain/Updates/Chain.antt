-- ===== src/DataStructures/HashChain/Updates/Chain.antt =====
-- Overwriting and unlinking an entry of a chain, for ProperDS/src/hashchain.h.
use low_level.Prelude.{
  is_some, ℕ, suc, ◌≡◌, refl, sym, ap, ◌∙◌, true, false, List, [], ◌∷◌, length, if◌then◌else◌,
  Bool-cases, inl, inr,
}
use mathlib.Core.Path.{subst}
use low_level.Prelude.Int.{ℤ}
use low_level.DataStructures.Fnv.{key_eq, eq_of_key_eq}
use low_level.DataStructures.HashChain.{HcEntry, AllHome, matching, find_in, overwritten, unlinked}

abbrev pub revalued : ℤ → List HcEntry → List HcEntry
revalued v [] = []
revalued v (e ∷ es) = record { key = e.key; value = v } ∷ es

abbrev pub rest : List HcEntry → List HcEntry
rest [] = []
rest (e ∷ es) = es

-- What happens to the entries with the key and to those with another key, in one.
both_keys :
    (k : List ℕ) (c es : List HcEntry) (change : List HcEntry → List HcEntry)
    → matching k c ≡ change (matching k es)
    → ((j : List ℕ) → key_eq j k ≡ false → matching j c ≡ matching j es)
    → (j : List ℕ) → matching j c ≡ (if key_eq j k then change (matching j es) else matching j es)
both_keys k c es change self other j = elim (Bool-cases (key_eq j k)) [
  | inl same ↦
      rw same
        (subst (λ i. matching i c ≡ change (matching i es)) (sym (eq_of_key_eq j k same)) self)
  | inr differs ↦ rw differs (other j differs)
]

differs_too : (j k e : List ℕ) → key_eq k e ≡ true → key_eq j k ≡ false → key_eq j e ≡ false
differs_too j k e same differs = ap (key_eq j) (sym (eq_of_key_eq k e same)) ∙ differs

overwritten_self :
    (k : List ℕ) (v : ℤ) (es : List HcEntry)
    → matching k (overwritten k v es) ≡ revalued v (matching k es)
overwritten_self k v [] = refl
overwritten_self k v (e ∷ es) = elim (Bool-cases (key_eq k e.key)) [
  | inl same ↦ rw (same, same) refl
  | inr other ↦ rw (other, other) (overwritten_self k v es)
]

overwritten_other :
    (k : List ℕ) (v : ℤ) (es : List HcEntry) (j : List ℕ)
    → key_eq j k ≡ false
    → matching j (overwritten k v es) ≡ matching j es
overwritten_other k v [] j differs = refl
overwritten_other k v (e ∷ es) j differs = elim (Bool-cases (key_eq k e.key)) [
  | inl same ↦ let off = differs_too j k e.key same differs in rw (same, off) refl
  | inr other ↦
      rw other (ap (λ t. if key_eq j e.key then e ∷ t else t) (overwritten_other k v es j differs))
]

pub matching-overwritten :
    (k : List ℕ) (v : ℤ) (es : List HcEntry) (j : List ℕ)
    → matching j (overwritten k v es)
      ≡ (if key_eq j k then revalued v (matching j es) else matching j es)
matching-overwritten k v es =
    both_keys k (overwritten k v es) es (revalued v) (overwritten_self k v es)
      (overwritten_other k v es)

unlinked_self : (k : List ℕ) (es : List HcEntry) → matching k (unlinked k es) ≡ rest (matching k es)
unlinked_self k [] = refl
unlinked_self k (e ∷ es) = elim (Bool-cases (key_eq k e.key)) [
  | inl same ↦ rw same refl
  | inr other ↦ rw (other, other) (unlinked_self k es)
]

unlinked_other :
    (k : List ℕ) (es : List HcEntry) (j : List ℕ)
    → key_eq j k ≡ false
    → matching j (unlinked k es) ≡ matching j es
unlinked_other k [] j differs = refl
unlinked_other k (e ∷ es) j differs = elim (Bool-cases (key_eq k e.key)) [
  | inl same ↦ let off = differs_too j k e.key same differs in rw (same, off) refl
  | inr other ↦
      rw other (ap (λ t. if key_eq j e.key then e ∷ t else t) (unlinked_other k es j differs))
]

pub matching-unlinked :
    (k : List ℕ) (es : List HcEntry) (j : List ℕ)
    → matching j (unlinked k es) ≡ (if key_eq j k then rest (matching j es) else matching j es)
matching-unlinked k es =
    both_keys k (unlinked k es) es rest (unlinked_self k es) (unlinked_other k es)

pub overwritten-AllHome :
    (n i : ℕ) (k : List ℕ) (v : ℤ) (es : List HcEntry)
    → AllHome n i es
    → AllHome n i (overwritten k v es)
overwritten-AllHome n i k v [] h = tt
overwritten-AllHome n i k v (e ∷ es) (here, h) = elim (Bool-cases (key_eq k e.key)) [
  | inl same ↦ rw same (here, h)
  | inr other ↦ rw other (here, overwritten-AllHome n i k v es h)
]

pub unlinked-AllHome :
    (n i : ℕ) (k : List ℕ) (es : List HcEntry) → AllHome n i es → AllHome n i (unlinked k es)
unlinked-AllHome n i k [] h = tt
unlinked-AllHome n i k (e ∷ es) (here, h) = elim (Bool-cases (key_eq k e.key)) [
  | inl same ↦ rw same h
  | inr other ↦ rw other (here, unlinked-AllHome n i k es h)
]

pub length-overwritten :
    (k : List ℕ) (v : ℤ) (es : List HcEntry) → length (overwritten k v es) ≡ length es
length-overwritten k v [] = refl
length-overwritten k v (e ∷ es) = elim (Bool-cases (key_eq k e.key)) [
  | inl same ↦ rw same refl
  | inr other ↦ rw other (ap suc (length-overwritten k v es))
]

pub length-unlinked :
    (k : List ℕ) (es : List HcEntry)
    → is_some (find_in k es) ≡ true
    → suc (length (unlinked k es)) ≡ length es
length-unlinked k [] e = cc
length-unlinked k (x ∷ es) e = elim (Bool-cases (key_eq k x.key)) [
  | inl same ↦ rw same refl
  | inr other ↦ rw other (ap suc (length-unlinked k es (rw other at e)))
]
