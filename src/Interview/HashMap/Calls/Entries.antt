-- ===== src/Interview/HashMap/Calls/Entries.antt =====
-- Lists of entries with different keys: lookup, insertion or update, removal.
use low_level.Prelude.{
  is_some, suc, ◌≡◌, refl, sym, ap, ◌∙◌, Bool, true, false, Option, none, some, List, [], ◌∷◌,
  length, Bool-cases, inl, inr, if◌then◌else◌,
}
use low_level.Prelude.Int.{ℤ}
use low_level.DataStructures.Fnv.{key_eq, key_eq_refl, eq_of_key_eq}
use low_level.Interview.HashMap.{Key}

abbrev pub Entry : Type 0
Entry = Key × ℤ

unfoldable pub lookup : Key → List Entry → Option ℤ
lookup k [] = none
lookup k ((j, v) ∷ xs) = let rest = lookup k xs in if key_eq k j then some v else rest

unfoldable pub upsert : Key → ℤ → List Entry → List Entry
upsert k v [] = (k, v) ∷ []
upsert k v ((j, w) ∷ xs) =
    let rest = upsert k v xs in if key_eq k j then (j, v) ∷ xs else (j, w) ∷ rest

unfoldable pub erase : Key → List Entry → List Entry
erase k [] = []
erase k ((j, w) ∷ xs) = let rest = erase k xs in if key_eq k j then rest else (j, w) ∷ rest

unfoldable pub Distinct : List Entry → Type 0
Distinct [] = Unit
Distinct ((j, w) ∷ xs) = (is_some (lookup j xs) ≡ false) × Distinct xs

differ : {A : Type 0} → true ≡ false → A
differ e = absurd (clash e)
  where
    clash : true ≡ false → ⊥
    clash h = cc

key_eq_trans : (a b c : Key) → key_eq a b ≡ true → key_eq a c ≡ key_eq b c
key_eq_trans a b c h = ap (λ k. key_eq k c) (eq_of_key_eq a b h)

pub lookup-upsert :
    (j k : Key) (v : ℤ) (xs : List Entry)
    → lookup j (upsert k v xs) ≡ (if key_eq j k then some v else lookup j xs)
unfolding lookup upsert
lookup-upsert j k v [] = refl
lookup-upsert j k v ((i, w) ∷ xs) = elim (Bool-cases (key_eq k i)) [
  | inl same ↦
      let e : key_eq j k ≡ key_eq j i = ap (key_eq j) (eq_of_key_eq k i same) in
      rw (same, e)
        (elim (Bool-cases (key_eq j i)) [ inl hit ↦ rw hit refl | inr miss ↦ rw miss refl ])
  | inr apart ↦ rw apart (elim (Bool-cases (key_eq j i)) [
    | inl hit ↦ elim (Bool-cases (key_eq j k)) [
      | inl hit' ↦ differ (sym hit ∙ key_eq_trans j k i hit' ∙ apart)
      | inr miss' ↦ rw (hit, miss') refl
    ]
    | inr miss ↦ rw miss (lookup-upsert j k v xs)
  ])
]

pub lookup-erase :
    (j k : Key) (xs : List Entry)
    → lookup j (erase k xs) ≡ (if key_eq j k then none else lookup j xs)
unfolding lookup erase
lookup-erase j k [] = elim (Bool-cases (key_eq j k)) [
  | inl hit ↦ rw hit refl
  | inr miss ↦ rw miss refl
]
lookup-erase j k ((i, w) ∷ xs) = elim (Bool-cases (key_eq k i)) [
  | inl same ↦
      let e : key_eq j k ≡ key_eq j i = ap (key_eq j) (eq_of_key_eq k i same) in
      rw same (
        lookup-erase j k xs
        ∙ rw e (elim (Bool-cases (key_eq j i)) [ inl hit ↦ rw hit refl | inr miss ↦ rw miss refl ]))
  | inr apart ↦ rw apart (elim (Bool-cases (key_eq j i)) [
    | inl hit ↦ elim (Bool-cases (key_eq j k)) [
      | inl hit' ↦ differ (sym hit ∙ key_eq_trans j k i hit' ∙ apart)
      | inr miss' ↦ rw (hit, miss') refl
    ]
    | inr miss ↦ rw miss (lookup-erase j k xs)
  ])
]

pub length-upsert :
    (k : Key) (v : ℤ) (xs : List Entry)
    → length (upsert k v xs) ≡ (if is_some (lookup k xs) then length xs else suc (length xs))
unfolding lookup upsert
length-upsert k v [] = refl
length-upsert k v ((i, w) ∷ xs) = elim (Bool-cases (key_eq k i)) [
  | inl same ↦ rw same refl
  | inr apart ↦ rw apart (ap suc (length-upsert k v xs) ∙ push (is_some (lookup k xs)))
]
  where
    push :
        (b : Bool)
        → suc (if b then length xs else suc (length xs))
          ≡ (if b then suc (length xs) else suc (suc (length xs)))
    push true = refl
    push false = refl

pub length-erase_absent :
    (k : Key) (xs : List Entry) → is_some (lookup k xs) ≡ false → length (erase k xs) ≡ length xs
unfolding lookup erase
length-erase_absent k [] h = refl
length-erase_absent k ((i, w) ∷ xs) h = elim (Bool-cases (key_eq k i)) [
  | inl same ↦ differ (rw same at h)
  | inr apart ↦ rw apart (ap suc (length-erase_absent k xs (rw apart at h)))
]

pub length-erase :
    (k : Key) (xs : List Entry)
    → Distinct xs
    → is_some (lookup k xs) ≡ true
    → suc (length (erase k xs)) ≡ length xs
unfolding lookup erase Distinct
length-erase k [] d h = differ (sym h)
length-erase k ((i, w) ∷ xs) d h = elim (Bool-cases (key_eq k i)) [
  | inl same ↦
      let absent : is_some (lookup k xs) ≡ false =
        ap (λ j. is_some (lookup j xs)) (eq_of_key_eq k i same) ∙ d.0 in
      rw same (ap suc (length-erase_absent k xs absent))
  | inr apart ↦ rw apart (ap suc (length-erase k xs d.1 (rw apart at h)))
]

pub upsert-Distinct : (k : Key) (v : ℤ) (xs : List Entry) → Distinct xs → Distinct (upsert k v xs)
unfolding lookup upsert Distinct
upsert-Distinct k v [] d = (refl, tt)
upsert-Distinct k v ((i, w) ∷ xs) d = elim (Bool-cases (key_eq k i)) [
  | inl same ↦ rw same d
  | inr apart ↦
      let flipped : key_eq i k ≡ false = key_eq_sym i k apart in
      let absent : is_some (lookup i (upsert k v xs)) ≡ false =
        ap is_some (lookup-upsert i k v xs) ∙ rw flipped d.0 in
      rw apart (absent, upsert-Distinct k v xs d.1)
]
  where
    key_eq_sym : (a b : Key) → key_eq b a ≡ false → key_eq a b ≡ false
    key_eq_sym a b h = elim (Bool-cases (key_eq a b)) [
      | inl same ↦ differ (sym (key_eq_refl b) ∙ ap (key_eq b) (sym (eq_of_key_eq a b same)) ∙ h)
      | inr apart ↦ apart
    ]

pub erase-Distinct : (k : Key) (xs : List Entry) → Distinct xs → Distinct (erase k xs)
unfolding lookup erase Distinct
erase-Distinct k [] d = tt
erase-Distinct k ((i, w) ∷ xs) d = elim (Bool-cases (key_eq k i)) [
  | inl same ↦ rw same (erase-Distinct k xs d.1)
  | inr apart ↦
      let absent : is_some (lookup i (erase k xs)) ≡ false =
        ap is_some (lookup-erase i k xs) ∙ still (key_eq i k) in
      rw apart (absent, erase-Distinct k xs d.1)
]
  where
    still : (b : Bool) → is_some (if b then none else lookup i xs) ≡ false
    still true = refl
    still false = d.0
