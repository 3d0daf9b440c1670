-- ===== src/DataStructures/Reference/Keys.antt =====
-- Strictly ascending lists of keys: membership, insertion, removal, the least and the greatest.
use low_level.Prelude.{
  ◌≡◌, refl, Bool, true, false, ◌&&◌, ◌||◌, List, [], ◌∷◌, ◌++◌, arith, if◌then◌else◌, Bool-cases,
  inl, inr,
}
use low_level.Prelude.Int.{ℤ, ◌≤ℤ◌, ◌<ℤ◌, ltb_ℤ, eqb_ℤ}
use low_level.DataStructures.KeySet.{not}
use low_level.DataStructures.Bst.Inorder.{AllAbove, IsStrict}

unfoldable pub elem : ℤ → List ℤ → Bool
elem x [] = false
elem x (y ∷ ys) = eqb_ℤ x y || elem x ys

pub elem-append : (x : ℤ) (xs ys : List ℤ) → elem x (xs ++ ys) ≡ (elem x xs || elem x ys)
unfolding elem
elem-append x [] ys = refl
elem-append x (y ∷ xs) ys = ground (arith, elem-append x xs ys)

-- A key put in its place, unless it is there.
unfoldable pub put : ℤ → List ℤ → List ℤ
put k [] = k ∷ []
put k (x ∷ xs) =
    let rest = put k xs in if ltb_ℤ k x then k ∷ x ∷ xs else if eqb_ℤ k x then x ∷ xs else x ∷ rest

unfoldable pub cut : ℤ → List ℤ → List ℤ
cut k [] = []
cut k (x ∷ xs) = let rest = cut k xs in if eqb_ℤ x k then rest else x ∷ rest

pub elem-put : (k j : ℤ) (xs : List ℤ) → elem j (put k xs) ≡ (eqb_ℤ j k || elem j xs)
unfolding elem put
elem-put k j [] = refl
elem-put k j (x ∷ xs) = elim (Bool-cases (ltb_ℤ k x)) [
  | inl less ↦ rw less refl
  | inr more ↦ elim (Bool-cases (eqb_ℤ k x)) [
    | inl same ↦ rw (more, same) (ground (arith, same))
    | inr differ ↦ rw (more, differ) (ground (arith, elem-put k j xs))
  ]
]

pub elem-cut : (k j : ℤ) (xs : List ℤ) → elem j (cut k xs) ≡ (not (eqb_ℤ j k) && elem j xs)
unfolding elem cut
elem-cut k j [] = ground arith
elem-cut k j (x ∷ xs) = elim (Bool-cases (eqb_ℤ x k)) [
  | inl same ↦ rw same (ground (arith, same, elem-cut k j xs))
  | inr differ ↦ rw differ (ground (arith, differ, elem-cut k j xs))
]

AllAbove-put : (y k : ℤ) (xs : List ℤ) → y <ℤ k → AllAbove y xs → AllAbove y (put k xs)
unfolding put
AllAbove-put y k [] lt h = (lt, tt)
AllAbove-put y k (x ∷ xs) lt h = elim (Bool-cases (ltb_ℤ k x)) [
  | inl less ↦ rw less (lt, h)
  | inr more ↦ elim (Bool-cases (eqb_ℤ k x)) [
    | inl same ↦ rw (more, same) h
    | inr differ ↦ rw (more, differ) (h.0, AllAbove-put y k xs lt h.1)
  ]
]

AllAbove-le : (y k : ℤ) (xs : List ℤ) → y <ℤ k → AllAbove k xs → AllAbove y xs
AllAbove-le y k [] lt h = tt
AllAbove-le y k (x ∷ xs) lt h = (omega (arith, h.0), AllAbove-le y k xs lt h.1)

pub IsStrict-put : (k : ℤ) (xs : List ℤ) → IsStrict xs → IsStrict (put k xs)
unfolding put
IsStrict-put k [] h = (tt, tt)
IsStrict-put k (x ∷ xs) h = elim (Bool-cases (ltb_ℤ k x)) [
  | inl less ↦
      let lt : k <ℤ x = ground (arith, less) in rw less ((lt, AllAbove-le k x xs lt h.0), h)
  | inr more ↦ elim (Bool-cases (eqb_ℤ k x)) [
    | inl same ↦ rw (more, same) h
    | inr differ ↦
        let lt : x <ℤ k = ground (arith, more, differ) in
        rw (more, differ) (AllAbove-put x k xs lt h.0, IsStrict-put k xs h.1)
  ]
]

AllAbove-cut : (y k : ℤ) (xs : List ℤ) → AllAbove y xs → AllAbove y (cut k xs)
unfolding cut
AllAbove-cut y k [] h = tt
AllAbove-cut y k (x ∷ xs) h = elim (Bool-cases (eqb_ℤ x k)) [
  | inl e ↦ rw e (AllAbove-cut y k xs h.1)
  | inr ne ↦ rw ne (h.0, AllAbove-cut y k xs h.1)
]

pub IsStrict-cut : (k : ℤ) (xs : List ℤ) → IsStrict xs → IsStrict (cut k xs)
unfolding cut
IsStrict-cut k [] h = tt
IsStrict-cut k (x ∷ xs) h = elim (Bool-cases (eqb_ℤ x k)) [
  | inl e ↦ rw e (IsStrict-cut k xs h.1)
  | inr ne ↦ rw ne (AllAbove-cut x k xs h.0, IsStrict-cut k xs h.1)
]

AllAbove-elem : (k : ℤ) (xs : List ℤ) (i : ℤ) → AllAbove k xs → elem i xs ≡ true → k <ℤ i
unfolding elem
AllAbove-elem k [] i h e = absurd (differ e)
  where
    differ : false ≡ true → ⊥
    differ d = cc
AllAbove-elem k (x ∷ xs) i h e = elim (Bool-cases (eqb_ℤ i x)) [
  | inl same ↦ ground (arith, same, h.0)
  | inr apart ↦ AllAbove-elem k xs i h.1 (rw apart at e)
]

unfoldable pub least : List ℤ → ℤ → Bool × ℤ
least [] out = (false, out)
least (x ∷ xs) out = (true, x)

unfoldable pub top : ℤ → List ℤ → ℤ
top x [] = x
top x (y ∷ ys) = top y ys

unfoldable pub greatest : List ℤ → ℤ → Bool × ℤ
greatest [] out = (false, out)
greatest (x ∷ xs) out = (true, top x xs)

pub least_lem :
    (xs : List ℤ) (out j : ℤ)
    → IsStrict xs
    → elem j xs ≡ true
    → (m : ℤ) × (least xs out ≡ (true, m))
      × (elem m xs ≡ true)
      × ((i : ℤ) → elem i xs ≡ true → m ≤ℤ i)
unfolding least elem
least_lem [] out j h e = absurd (differ e)
  where
    differ : false ≡ true → ⊥
    differ d = cc
least_lem (x ∷ xs) out j h e = (
  x,
  refl,
  ground arith,
  λ i e'. elim (Bool-cases (eqb_ℤ i x)) [
    | inl same ↦ ground (arith, same)
    | inr apart ↦ let above = AllAbove-elem x xs i h.0 (rw apart at e') in omega (arith, above)
  ],
)

top_lem :
    (x : ℤ) (xs : List ℤ)
    → IsStrict (x ∷ xs)
    → (elem (top x xs) (x ∷ xs) ≡ true) × ((i : ℤ) → elem i (x ∷ xs) ≡ true → i ≤ℤ top x xs)
unfolding top elem
top_lem x [] h = (ground arith, λ i e. ground (arith, e))
top_lem x (y ∷ ys) h =
    let (there, most) = top_lem y ys h.1 in
    (
      ground (arith, there),
      λ i e. elim (Bool-cases (eqb_ℤ i x)) [
        | inl same ↦ let least_y = most y (ground arith) in ground (arith, same, least_y, h.0.0)
        | inr apart ↦ most i (rw apart at e)
      ],
    )

pub greatest_lem :
    (xs : List ℤ) (out j : ℤ)
    → IsStrict xs
    → elem j xs ≡ true
    → (m : ℤ) × (greatest xs out ≡ (true, m))
      × (elem m xs ≡ true)
      × ((i : ℤ) → elem i xs ≡ true → i ≤ℤ m)
unfolding greatest elem
greatest_lem [] out j h e = absurd (differ e)
  where
    differ : false ≡ true → ⊥
    differ d = cc
greatest_lem (x ∷ xs) out j h e =
    let (there, most) = top_lem x xs h in (top x xs, refl, there, most)
