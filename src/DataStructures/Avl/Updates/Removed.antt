-- ===== src/DataStructures/Avl/Updates/Removed.antt =====
-- What a removal from a tree of ProperDS/src/avl.h does to its keys.
use low_level.Prelude.{
  suc, ◌+◌, ◌≡◌, refl, sym, ap, ap₂, ◌∙◌, Bool, true, false, ◌&&◌, ◌||◌, List, [], ◌∷◌, ◌++◌,
  length, length-append, if◌then◌else◌, Bool-cases, inl, inr, arith,
}
use mathlib.Core.Path.{subst}
use low_level.Prelude.Int.{ℤ, ◌<ℤ◌, eqb_ℤ, eqb_ℤ_iff}
use low_level.DataStructures.KeySet.{not}
use low_level.DataStructures.Bst.Inorder.{
  Every, AllAbove, AllBelow, IsStrict, Every-append, Every-split, IsStrict-join, IsStrict-split,
  AllAbove-trans,
}
use low_level.DataStructures.Avl.{AvlNode, null, node, rebalanced, search, removed}
use low_level.DataStructures.Avl.Keys.{keys, rebalanced-keys, joined-keys}
use low_level.DataStructures.Bst.Members.{member, member-append}
use low_level.DataStructures.Avl.Updates.Sorted.{
  less, more, same, order, absent_below, absent_above, Every-map, member-none,
}

removed-Every :
    (P : ℤ → Type 0) (t : AvlNode) (x : ℤ) → Every P (keys t) → Every P (keys (removed t x))
unfolding removed keys
removed-Every P null x h = tt
removed-Every P (node k i l r) x h =
    let (hl, (hk, hr)) = Every-split P (keys l) (k ∷ keys r) h in
    elim (order x k) [
      | less lt _ _ ↦ rw lt (
          subst (Every P) (sym (rebalanced-keys k (removed l x) r))
            (Every-append P (keys (removed l x)) (k ∷ keys r) (removed-Every P l x hl) (hk, hr)))
      | more lt gt _ _ ↦
          rw (lt, gt)
            (subst (Every P) (sym (rebalanced-keys k l (removed r x)))
              (Every-append P (keys l) (k ∷ keys (removed r x)) hl (hk, removed-Every P r x hr)))
      | same lt gt _ ↦
          rw (lt, gt)
            (subst (Every P) (sym (joined-keys l r)) (Every-append P (keys l) (keys r) hl hr))
    ]

IsStrict-without :
    (xs ys : List ℤ) (k : ℤ)
    → IsStrict xs
    → AllBelow k xs
    → AllAbove k ys
    → IsStrict ys
    → IsStrict (xs ++ ys)
IsStrict-without [] ys k s below above s' = s'
IsStrict-without (x ∷ xs) ys k (first, s) (lt, below) above s' = (
  Every-append (λ y. x <ℤ y) xs ys first (AllAbove-trans x k ys lt above),
  IsStrict-without xs ys k s below above s',
)

pub removed-IsStrict : (t : AvlNode) (x : ℤ) → IsStrict (keys t) → IsStrict (keys (removed t x))
unfolding removed keys
removed-IsStrict null x s = tt
removed-IsStrict (node k i l r) x s =
    let (sl, below, above, sr) = IsStrict-split (keys l) (keys r) k s in
    elim (order x k) [
      | less lt _ _ ↦ rw lt (
          subst IsStrict (sym (rebalanced-keys k (removed l x) r)) (
            IsStrict-join (keys (removed l x)) (keys r) k (removed-IsStrict l x sl)
              (removed-Every (λ y. y <ℤ k) l x below) above sr))
      | more lt gt _ _ ↦
          rw (lt, gt)
            (subst IsStrict (sym (rebalanced-keys k l (removed r x))) (
              IsStrict-join (keys l) (keys (removed r x)) k sl below
                (removed-Every (λ y. k <ℤ y) r x above) (removed-IsStrict r x sr)))
      | same lt gt _ ↦
          rw (lt, gt)
            (subst IsStrict (sym (joined-keys l r))
              (IsStrict-without (keys l) (keys r) k sl below above sr))
    ]

not_left : (e a b : Bool) → (e ≡ true → b ≡ false) → ((not e && a) || b) ≡ (not e && (a || b))
not_left true a b h = h refl
not_left false a b h = refl

not_right :
    (e a b c : Bool)
    → (e ≡ true → a ≡ false)
    → (e ≡ true → b ≡ false)
    → (a || (b || (not e && c))) ≡ (not e && (a || (b || c)))
not_right true a b c h h' = rw (h refl, h' refl) refl
not_right false a b c h h' = refl

not_here :
    (e a c : Bool)
    → (e ≡ true → a ≡ false)
    → (e ≡ true → c ≡ false)
    → (a || c) ≡ (not e && (a || (e || c)))
not_here true a c h h' = rw (h refl, h' refl) refl
not_here false a c h h' = refl

module _ (j x : ℤ) (e : eqb_ℤ j x ≡ true) where
  as_x {ℓ} : {A : Type ℓ} (f : ℤ → A) {b : A} → f x ≡ b → f j ≡ b
  as_x f h = ap f ((eqb_ℤ_iff j x).0 e) ∙ h

pub removed-member :
    (t : AvlNode) (x j : ℤ)
    → IsStrict (keys t)
    → member j (keys (removed t x)) ≡ (not (eqb_ℤ j x) && member j (keys t))
unfolding removed keys
removed-member null x j s = elim (Bool-cases (eqb_ℤ j x)) [ inl e ↦ rw e refl | inr e ↦ rw e refl ]
removed-member (node k i l r) x j s =
    let (sl, below, above, sr) = IsStrict-split (keys l) (keys r) k s in
    let split = member-append j (keys l) (k ∷ keys r) in
    elim (order x k) [
      | less lt is_less other ↦
          let gone : (eqb_ℤ j x ≡ true) → member j (k ∷ keys r) ≡ false = λ e.
            as_x j x e (λ y. member y (k ∷ keys r))
              (rw other (absent_below x k (keys r) is_less above)) in
          rw lt (
            ap (member j) (rebalanced-keys k (removed l x) r)
            ∙ member-append j (keys (removed l x)) (k ∷ keys r)
            ∙ ap (λ b. b || member j (k ∷ keys r)) (removed-member l x j sl)
            ∙ not_left (eqb_ℤ j x) (member j (keys l)) (member j (k ∷ keys r)) gone
            ∙ ap (λ b. not (eqb_ℤ j x) && b) (sym split))
      | more lt gt is_more other ↦
          let gone : (eqb_ℤ j x ≡ true) → member j (keys l) ≡ false =
            λ e. as_x j x e (λ y. member y (keys l)) (absent_above x k (keys l) is_more below) in
          rw (lt, gt)
            (ap (member j) (rebalanced-keys k l (removed r x))
              ∙ member-append j (keys l) (k ∷ keys (removed r x))
              ∙ ap (λ b. member j (keys l) || (eqb_ℤ j k || b)) (removed-member r x j sr)
              ∙ not_right (eqb_ℤ j x) (member j (keys l)) (eqb_ℤ j k) (member j (keys r)) gone
                  (λ e. as_x j x e (λ y. eqb_ℤ y k) other)
              ∙ ap (λ b. not (eqb_ℤ j x) && b) (sym split))
      | same lt gt here ↦
          let at_k : eqb_ℤ j x ≡ eqb_ℤ j k = ap (eqb_ℤ j) here in
          let no_left : (eqb_ℤ j k ≡ true) → member j (keys l) ≡ false = λ e.
            as_x j k e (λ y. member y (keys l))
              (member-none k (keys l) (
                Every-map (λ y. y <ℤ k) (λ y. eqb_ℤ k y ≡ false) (λ y h. ground (arith, h)) (keys l)
                  below)) in
          let no_right : (eqb_ℤ j k ≡ true) → member j (keys r) ≡ false = λ e.
            as_x j k e (λ y. member y (keys r))
              (member-none k (keys r) (
                Every-map (λ y. k <ℤ y) (λ y. eqb_ℤ k y ≡ false) (λ y h. ground (arith, h)) (keys r)
                  above)) in
          rw (lt, gt)
            (ap (member j) (joined-keys l r)
              ∙ member-append j (keys l) (keys r)
              ∙ not_here (eqb_ℤ j k) (member j (keys l)) (member j (keys r)) no_left no_right
              ∙ ap₂ (λ a b. not a && b) (sym at_k) (sym split))
    ]

pub length-removed :
    (t : AvlNode) (x : ℤ)
    → length (keys (removed t x)) + (if search t x then 1 else 0) ≡ length (keys t)
unfolding removed keys search
length-removed null x = refl
length-removed (node k i l r) x =
    let whole = length-append (keys l) (k ∷ keys r) in
    elim (order x k) [
      | less lt _ _ ↦
          let kept : length (keys (rebalanced k (removed l x) r))
              ≡ length (keys (removed l x)) + suc (length (keys r)) =
            ap length (rebalanced-keys k (removed l x) r)
            ∙ length-append (keys (removed l x)) (k ∷ keys r) in
          rw lt (omega (arith, kept, whole, length-removed l x))
      | more lt gt _ _ ↦
          let kept : length (keys (rebalanced k l (removed r x)))
              ≡ length (keys l) + suc (length (keys (removed r x))) =
            ap length (rebalanced-keys k l (removed r x))
            ∙ length-append (keys l) (k ∷ keys (removed r x)) in
          rw (lt, gt) (omega (arith, kept, whole, length-removed r x))
      | same lt gt _ ↦
          rw (lt, gt)
            (omega (arith, ap length (joined-keys l r), length-append (keys l) (keys r), whole))
    ]
