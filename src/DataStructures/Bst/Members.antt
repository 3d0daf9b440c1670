-- ===== src/DataStructures/Bst/Members.antt =====
-- A strictly ascending list is determined by its members, and with it what a search tree lists.
use low_level.Prelude.{
  ◌≡◌, refl, sym, ap, ap₂, ◌∙◌, Bool, true, false, ◌||◌, List, [], ◌∷◌, ◌++◌, Bool-cases, inl, inr,
  arith,
}
use low_level.Prelude.Int.{ℤ, ◌<ℤ◌, ltb_ℤ, eqb_ℤ, eqb_ℤ_iff, eq_of_parts}
use mathlib.Core.Path.{subst}
use low_level.DataStructures.Bst.{BstNode, null, node, has_key, inorder}
use low_level.DataStructures.Bst.Inorder.{AllAbove, IsStrict, AllAbove-trans}

abbrev pub member : ℤ → List ℤ → Bool
member x [] = false
member x (y ∷ ys) = eqb_ℤ x y || member x ys

pub member-append : (x : ℤ) (xs ys : List ℤ) → member x (xs ++ ys) ≡ (member x xs || member x ys)
member-append x [] ys = refl
member-append x (y ∷ xs) ys = elim (Bool-cases (eqb_ℤ x y)) [
  | inl same ↦ rw same refl
  | inr other ↦ rw other (member-append x xs ys)
]

pub member-inorder : (t : BstNode) (x : ℤ) → member x (inorder t) ≡ has_key t x
unfolding inorder has_key
member-inorder null x = refl
member-inorder (node k l r) x =
    member-append x (inorder l) (k ∷ inorder r)
    ∙ rw (member-inorder l x, member-inorder r x) (swap (has_key l x) (eqb_ℤ x k) (has_key r x))
  where
    swap : (a b c : Bool) → (a || (b || c)) ≡ (b || a || c)
    swap true true c = refl
    swap true false c = refl
    swap false b c = ground arith

eqb_refl : (x : ℤ) → eqb_ℤ x x ≡ true
eqb_refl x = (eqb_ℤ_iff x x).1 refl

-- What is below a list's elements is not among them.
above-member : (x : ℤ) (ys : List ℤ) → AllAbove x ys → member x ys ≡ false
above-member x [] above = refl
above-member x (y ∷ ys) (lt, above) =
    let apart : eqb_ℤ x y ≡ false = ground (arith, lt) in rw apart (above-member x ys above)

clash : {b : Bool} → b ≡ true → b ≡ false → ⊥
clash e h = cc

module _ (x y : ℤ) (xs ys : List ℤ) where
  not_below : IsStrict (y ∷ ys) → member x (x ∷ xs) ≡ member x (y ∷ ys) → ¬ (x <ℤ y)
  not_below (above, s) same lt =
      clash (sym same ∙ rw (eqb_refl x) refl)
        (above-member x (y ∷ ys) (lt, AllAbove-trans x y ys lt above))

pub strict_unique :
    (xs ys : List ℤ) → IsStrict xs → IsStrict ys → ((j : ℤ) → member j xs ≡ member j ys) → xs ≡ ys
strict_unique [] [] s s' same = refl
strict_unique [] (y ∷ ys) s s' same = let h : false ≡ true = same y ∙ rw (eqb_refl y) refl in cc
strict_unique (x ∷ xs) [] s s' same =
    let h : false ≡ true = sym (same x) ∙ rw (eqb_refl x) refl in cc
strict_unique (x ∷ xs) (y ∷ ys) s s' same =
    let not_lt = not_below x y xs ys s' (same x) in
    let not_gt = not_below y x ys xs s (sym (same y)) in
    let first : x ≡ y = elim (Bool-cases (ltb_ℤ x y)) [
      | inl lt ↦ absurd (not_lt (ground (arith, lt)))
      | inr ge ↦ elim (Bool-cases (ltb_ℤ y x)) [
        | inl gt ↦ absurd (not_gt (ground (arith, gt)))
        | inr le ↦ eq_of_parts x y (ground (arith, ge, le))
      ]
    ] in
    let above_y : AllAbove x ys = subst (λ z. AllAbove z ys) (sym first) s'.0 in
    ap₂ ◌∷◌ first (
      strict_unique xs ys s.1 s'.1 (λ j. elim (Bool-cases (eqb_ℤ j x)) [
        | inl here ↦
            let e : j ≡ x = (eqb_ℤ_iff j x).0 here in
            rw e (above-member x xs s.0 ∙ sym (above-member x ys above_y))
        | inr other ↦
            let other' : eqb_ℤ j y ≡ false = ap (eqb_ℤ j) (sym first) ∙ other in
            rw (other, other') at (same j)
      ]))
