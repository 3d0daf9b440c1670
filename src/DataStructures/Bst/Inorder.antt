-- ===== src/DataStructures/Bst/Inorder.antt =====
-- The order of the keys in a valid tree of ProperDS/src/bst.h.
use low_level.Prelude.{
  Bool, ◌≡◌, refl, ◌∙◌, true, List, [], ◌∷◌, ◌++◌, arith, length, length-append,
}
use low_level.Prelude.Int.{ℤ, ◌<ℤ◌, ltb_ℤ}
use low_level.DataStructures.Bst.{
  BstNode, null, node, Bst, all_keys, ordered, node_count, inorder, IsBst, BstApi,
}

abbrev pub Every : (ℤ → Type 0) → List ℤ → Type 0
Every P [] = Unit
Every P (y ∷ ys) = P y × Every P ys

abbrev pub AllAbove : ℤ → List ℤ → Type 0
AllAbove x = Every (λ y. x <ℤ y)

abbrev pub AllBelow : ℤ → List ℤ → Type 0
AllBelow x = Every (λ y. y <ℤ x)

-- Strictly ascending: no key twice.
abbrev pub IsStrict : List ℤ → Type 0
IsStrict [] = Unit
IsStrict (x ∷ xs) = AllAbove x xs × IsStrict xs

pub Every-append : (P : ℤ → Type 0) (xs ys : List ℤ) → Every P xs → Every P ys → Every P (xs ++ ys)
Every-append P [] ys h h' = h'
Every-append P (y ∷ xs) ys h h' = (h.0, Every-append P xs ys h.1 h')

pub Every-split : (P : ℤ → Type 0) (xs ys : List ℤ) → Every P (xs ++ ys) → Every P xs × Every P ys
Every-split P [] ys h = (tt, h)
Every-split P (x ∷ xs) ys (here, h) =
    let (left, right) = Every-split P xs ys h in ((here, left), right)

pub AllAbove-trans : (x k : ℤ) (ys : List ℤ) → x <ℤ k → AllAbove k ys → AllAbove x ys
AllAbove-trans x k [] lt h = tt
AllAbove-trans x k (y ∷ ys) lt h = (omega (arith, h.0), AllAbove-trans x k ys lt h.1)

pub IsStrict-join :
    (xs ys : List ℤ) (k : ℤ)
    → IsStrict xs
    → AllBelow k xs
    → AllAbove k ys
    → IsStrict ys
    → IsStrict (xs ++ k ∷ ys)
IsStrict-join [] ys k s below above s' = (above, s')
IsStrict-join (x ∷ xs) ys k s below above s' = (
  Every-append (λ y. x <ℤ y) xs (k ∷ ys) s.0 (below.0, AllAbove-trans x k ys below.0 above),
  IsStrict-join xs ys k s.1 below.1 above s',
)

pub IsStrict-split :
    (xs ys : List ℤ) (k : ℤ)
    → IsStrict (xs ++ k ∷ ys)
    → IsStrict xs × AllBelow k xs × AllAbove k ys × IsStrict ys
IsStrict-split [] ys k (above, s) = (tt, tt, above, s)
IsStrict-split (x ∷ xs) ys k (above, s) =
    let (left, below, above', right) = IsStrict-split xs ys k s in
    let (first, rest) = Every-split (λ y. x <ℤ y) xs (k ∷ ys) above in
    ((first, left), (rest.0, below), above', right)

inorder-AllBelow :
    (t : BstNode) (k : ℤ) → all_keys (λ x. ltb_ℤ x k) t ≡ true → AllBelow k (inorder t)
unfolding all_keys inorder
inorder-AllBelow null k h = tt
inorder-AllBelow (node j l r) k h =
    Every-append (λ y. y <ℤ k) (inorder l) (j ∷ inorder r)
      (inorder-AllBelow l k (ground (arith, h)))
      (ground (arith, h), inorder-AllBelow r k (ground (arith, h)))

inorder-AllAbove :
    (t : BstNode) (k : ℤ) → all_keys (λ x. ltb_ℤ k x) t ≡ true → AllAbove k (inorder t)
unfolding all_keys inorder
inorder-AllAbove null k h = tt
inorder-AllAbove (node j l r) k h =
    Every-append (λ y. k <ℤ y) (inorder l) (j ∷ inorder r)
      (inorder-AllAbove l k (ground (arith, h)))
      (ground (arith, h), inorder-AllAbove r k (ground (arith, h)))

pub inorder-IsStrict : (t : BstNode) → ordered t ≡ true → IsStrict (inorder t)
unfolding ordered inorder
inorder-IsStrict null h = tt
inorder-IsStrict (node k l r) h =
    IsStrict-join (inorder l) (inorder r) k (inorder-IsStrict l (ground (arith, h)))
      (inorder-AllBelow l k (ground (arith, h))) (inorder-AllAbove r k (ground (arith, h)))
      (inorder-IsStrict r (ground (arith, h)))

all_keys-inorder :
    (P : ℤ → Type 0) (test : ℤ → Bool)
    → ((y : ℤ) → P y → test y ≡ true)
    → (t : BstNode) → Every P (inorder t)
    → all_keys test t ≡ true
unfolding all_keys inorder
all_keys-inorder P test f null h = refl
all_keys-inorder P test f (node k l r) h =
    let (left, (here, right)) = Every-split P (inorder l) (k ∷ inorder r) h in
    rw (f k here, all_keys-inorder P test f l left, all_keys-inorder P test f r right) refl

-- A tree whose keys ascend is ordered.
pub IsStrict-ordered : (t : BstNode) → IsStrict (inorder t) → ordered t ≡ true
unfolding ordered inorder
IsStrict-ordered null s = refl
IsStrict-ordered (node k l r) s =
    let (sl, below, above, sr) = IsStrict-split (inorder l) (inorder r) k s in
    rw
      (
        all_keys-inorder (λ y. y <ℤ k) (λ y. ltb_ℤ y k) (λ y h. ground (arith, h)) l below,
        all_keys-inorder (λ y. k <ℤ y) (λ y. ltb_ℤ k y) (λ y h. ground (arith, h)) r above,
        IsStrict-ordered l sl,
        IsStrict-ordered r sr,
      )
      refl

pub length-inorder : (t : BstNode) → length (inorder t) ≡ node_count t
unfolding inorder node_count
length-inorder null = refl
length-inorder (node k l r) =
    omega (arith, length-append (inorder l) (k ∷ inorder r), length-inorder l, length-inorder r)

-- bst_inorder lists the keys of a valid tree in strictly ascending order, as many as bst_size says.
pub bst_inorder-IsStrict :
    (api : BstApi) (t : Bst)
    → IsBst t
    → IsStrict (api.bst_inorder t) × (length (api.bst_inorder t) ≡ api.bst_size t)
bst_inorder-IsStrict api t valid =
    rw (api.inorder_law t valid, api.size_law t valid)
      (
        inorder-IsStrict t.root (ground (arith, valid)),
        length-inorder t.root ∙ ground (arith, valid),
      )
