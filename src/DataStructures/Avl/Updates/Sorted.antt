-- ===== src/DataStructures/Avl/Updates/Sorted.antt =====
-- What insertion and removal in a tree of ProperDS/src/avl.h do to its keys.
use low_level.Prelude.{
  suc, ◌+◌, ◌≡◌, refl, sym, ap, ap₂, ◌∙◌, Bool, true, false, ◌||◌, List, [], ◌∷◌, length,
  length-append, if◌then◌else◌, Bool-cases, inl, inr, arith,
}
use mathlib.Core.Path.{subst}
use low_level.Prelude.Int.{ℤ, ◌<ℤ◌, eqb_ℤ, eqb_ℤ_iff, ltb_ℤ, eq_of_parts}
use low_level.DataStructures.Bst.Inorder.{
  Every, AllAbove, AllBelow, IsStrict, Every-append, Every-split, IsStrict-join, IsStrict-split,
}
use low_level.DataStructures.Avl.{AvlNode, null, node, rebalanced, search, inserted}
use low_level.DataStructures.Avl.Keys.{keys, rebalanced-keys}
use low_level.DataStructures.Bst.Members.{member, member-append}

-- Where a key stands in relation to that of a node.
pub data Order (x k : ℤ) : Type 0 where
  less : ltb_ℤ x k ≡ true → x <ℤ k → eqb_ℤ x k ≡ false → Order x k
  more : ltb_ℤ x k ≡ false → ltb_ℤ k x ≡ true → k <ℤ x → eqb_ℤ x k ≡ false → Order x k
  same : ltb_ℤ x k ≡ false → ltb_ℤ k x ≡ false → x ≡ k → Order x k

pub order : (x k : ℤ) → Order x k
order x k = elim (Bool-cases (ltb_ℤ x k)) [
  | inl lt ↦ less lt (ground (arith, lt)) (ground (arith, lt))
  | inr not_lt ↦ elim (Bool-cases (ltb_ℤ k x)) [
    | inl gt ↦ more not_lt gt (ground (arith, gt)) (ground (arith, gt))
    | inr not_gt ↦ same not_lt not_gt (eq_of_parts x k (ground (arith, not_lt, not_gt)))
  ]
]

inserted-Every :
    (P : ℤ → Type 0) (t : AvlNode) (x : ℤ) → P x → Every P (keys t) → Every P (keys (inserted t x))
unfolding inserted keys
inserted-Every P null x here h = (here, tt)
inserted-Every P (node k i l r) x here h =
    let (hl, (hk, hr)) = Every-split P (keys l) (k ∷ keys r) h in
    elim (order x k) [
      | less lt _ _ ↦ rw lt (
          subst (Every P) (sym (rebalanced-keys k (inserted l x) r)) (
            Every-append P (keys (inserted l x)) (k ∷ keys r) (inserted-Every P l x here hl)
              (hk, hr)))
      | more lt gt _ _ ↦
          rw (lt, gt)
            (subst (Every P) (sym (rebalanced-keys k l (inserted r x))) (
              Every-append P (keys l) (k ∷ keys (inserted r x)) hl
                (hk, inserted-Every P r x here hr)))
      | same lt gt _ ↦ rw (lt, gt) h
    ]

pub inserted-IsStrict : (t : AvlNode) (x : ℤ) → IsStrict (keys t) → IsStrict (keys (inserted t x))
unfolding inserted keys
inserted-IsStrict null x s = (tt, tt)
inserted-IsStrict (node k i l r) x s =
    let (sl, below, above, sr) = IsStrict-split (keys l) (keys r) k s in
    elim (order x k) [
      | less lt is_less _ ↦ rw lt (
          subst IsStrict (sym (rebalanced-keys k (inserted l x) r)) (
            IsStrict-join (keys (inserted l x)) (keys r) k (inserted-IsStrict l x sl)
              (inserted-Every (λ y. y <ℤ k) l x is_less below) above sr))
      | more lt gt is_more _ ↦
          rw (lt, gt)
            (subst IsStrict (sym (rebalanced-keys k l (inserted r x))) (
              IsStrict-join (keys l) (keys (inserted r x)) k sl below
                (inserted-Every (λ y. k <ℤ y) r x is_more above) (inserted-IsStrict r x sr)))
      | same lt gt _ ↦ rw (lt, gt) s
    ]

-- A key is found exactly when it is there.
pub member-none : (x : ℤ) (ys : List ℤ) → Every (λ y. eqb_ℤ x y ≡ false) ys → member x ys ≡ false
member-none x [] h = refl
member-none x (y ∷ ys) (other, h) = rw other (member-none x ys h)

pub Every-map : (P Q : ℤ → Type 0) → ((y : ℤ) → P y → Q y) → (ys : List ℤ) → Every P ys → Every Q ys
Every-map P Q f [] h = tt
Every-map P Q f (y ∷ ys) (here, h) = (f y here, Every-map P Q f ys h)

pub absent_below : (x k : ℤ) (ys : List ℤ) → x <ℤ k → AllAbove k ys → member x ys ≡ false
absent_below x k ys lt above =
    member-none x ys
      (Every-map (λ y. k <ℤ y) (λ y. eqb_ℤ x y ≡ false) (λ y gt. ground (arith, gt, lt)) ys above)

pub absent_above : (x k : ℤ) (ys : List ℤ) → k <ℤ x → AllBelow k ys → member x ys ≡ false
absent_above x k ys gt below =
    member-none x ys
      (Every-map (λ y. y <ℤ k) (λ y. eqb_ℤ x y ≡ false) (λ y lt. ground (arith, gt, lt)) ys below)

or_false : (b : Bool) → (b || false) ≡ b
or_false true = refl
or_false false = refl

or_true : (b : Bool) → (b || true) ≡ true
or_true true = refl
or_true false = refl

pub search-member : (t : AvlNode) (x : ℤ) → IsStrict (keys t) → search t x ≡ member x (keys t)
unfolding search keys
search-member null x s = refl
search-member (node k i l r) x s =
    let (sl, below, above, sr) = IsStrict-split (keys l) (keys r) k s in
    let split = member-append x (keys l) (k ∷ keys r) in
    elim (order x k) [
      | less lt is_less other ↦
          let gone = absent_below x k (keys r) is_less above in
          let rest = search-member l x sl in
          rw lt (rest ∙ sym (split ∙ rw (other, gone) (or_false (member x (keys l)))))
      | more lt gt is_more other ↦
          let gone = absent_above x k (keys l) is_more below in
          let rest = search-member r x sr in
          rw (lt, gt) (rest ∙ sym (split ∙ rw (gone, other) refl))
      | same lt gt e ↦
          rw (lt, gt) (sym (split ∙ rw ((eqb_ℤ_iff x k).1 e) (or_true (member x (keys l)))))
    ]

or_left : (e a b : Bool) → ((e || a) || b) ≡ (e || (a || b))
or_left true a b = refl
or_left false a b = refl

or_right : (e a b c : Bool) → (a || (b || (e || c))) ≡ (e || (a || (b || c)))
or_right true a true c = or_true a
or_right true a false c = or_true a
or_right false a b c = refl

or_again : (a b c : Bool) → (a || (b || c)) ≡ (b || (a || (b || c)))
or_again a true c = or_true a
or_again a false c = refl

pub inserted-member :
    (t : AvlNode) (x j : ℤ) → member j (keys (inserted t x)) ≡ (eqb_ℤ j x || member j (keys t))
unfolding inserted keys
inserted-member null x j = refl
inserted-member (node k i l r) x j =
    let split = member-append j (keys l) (k ∷ keys r) in
    elim (order x k) [
      | less lt _ _ ↦ rw lt (
          ap (member j) (rebalanced-keys k (inserted l x) r)
          ∙ member-append j (keys (inserted l x)) (k ∷ keys r)
          ∙ ap (λ b. b || member j (k ∷ keys r)) (inserted-member l x j)
          ∙ or_left (eqb_ℤ j x) (member j (keys l)) (member j (k ∷ keys r))
          ∙ ap (λ b. eqb_ℤ j x || b) (sym split))
      | more lt gt _ _ ↦
          rw (lt, gt)
            (ap (member j) (rebalanced-keys k l (inserted r x))
              ∙ member-append j (keys l) (k ∷ keys (inserted r x))
              ∙ ap (λ b. member j (keys l) || (eqb_ℤ j k || b)) (inserted-member r x j)
              ∙ or_right (eqb_ℤ j x) (member j (keys l)) (eqb_ℤ j k) (member j (keys r))
              ∙ ap (λ b. eqb_ℤ j x || b) (sym split))
      | same lt gt e ↦
          rw (lt, gt)
            (split
              ∙ or_again (member j (keys l)) (eqb_ℤ j k) (member j (keys r))
              ∙ ap₂ (λ a b. a || b) (ap (eqb_ℤ j) (sym e)) (sym split))
    ]

pub length-inserted :
    (t : AvlNode) (x : ℤ)
    → length (keys (inserted t x)) ≡ (if search t x then length (keys t) else suc (length (keys t)))
unfolding inserted keys search
length-inserted null x = refl
length-inserted (node k i l r) x =
    let whole = length-append (keys l) (k ∷ keys r) in
    elim (order x k) [
      | less lt _ _ ↦
          let kept : length (keys (rebalanced k (inserted l x) r))
              ≡ length (keys (inserted l x)) + suc (length (keys r)) =
            ap length (rebalanced-keys k (inserted l x) r)
            ∙ length-append (keys (inserted l x)) (k ∷ keys r) in
          rw lt (ground (arith, kept, whole, length-inserted l x))
      | more lt gt _ _ ↦
          let kept : length (keys (rebalanced k l (inserted r x)))
              ≡ length (keys l) + suc (length (keys (inserted r x))) =
            ap length (rebalanced-keys k l (inserted r x))
            ∙ length-append (keys l) (k ∷ keys (inserted r x)) in
          rw (lt, gt) (ground (arith, kept, whole, length-inserted r x))
      | same lt gt _ ↦ rw (lt, gt) refl
    ]
