-- ===== src/DataStructures/Reference/Bsts.antt =====
-- Search trees whose nodes have no left child, and with them functions that keep the laws of
-- ProperDS/src/bst.h.
use low_level.Prelude.{
  ◌≡◌, refl, sym, ap, ◌∙◌, true, false, ◌&&◌, ◌||◌, List, [], ◌∷◌, length, arith, if◌then◌else◌,
}
use low_level.Prelude.Int.{ℤ, ltb_ℤ, eqb_ℤ}
use low_level.DataStructures.KeySet.{not}
use low_level.DataStructures.Bst.{
  BstNode, null, node, Bst, empty, all_keys, ordered, node_count, has_key, validate, inorder, IsBst,
  has, BstApi,
}
use low_level.DataStructures.Bst.Inorder.{AllAbove, IsStrict, inorder-IsStrict}
use low_level.DataStructures.Reference.Keys.{
  elem, put, cut, elem-append, elem-put, elem-cut, IsStrict-put, IsStrict-cut, least, greatest,
  least_lem, greatest_lem,
}

unfoldable pub chain : List ℤ → BstNode
chain [] = null
chain (x ∷ xs) = node x null (chain xs)

abbrev pub tree_of : List ℤ → Bst
tree_of xs = record { root = chain xs; size = length xs }

elem-inorder : (x : ℤ) (t : BstNode) → elem x (inorder t) ≡ has_key t x
unfolding elem inorder has_key
elem-inorder x null = refl
elem-inorder x (node k l r) =
    elem-append x (inorder l) (k ∷ inorder r) ∙ ground (arith, elem-inorder x l, elem-inorder x r)

has-chain : (x : ℤ) (xs : List ℤ) → has_key (chain xs) x ≡ elem x xs
unfolding has_key chain elem
has-chain x [] = refl
has-chain x (y ∷ xs) = ground (arith, has-chain x xs)

all_keys-chain : (k : ℤ) (xs : List ℤ) → AllAbove k xs → all_keys (λ x. ltb_ℤ k x) (chain xs) ≡ true
unfolding all_keys chain
all_keys-chain k [] h = refl
all_keys-chain k (x ∷ xs) h = ground (arith, all_keys-chain k xs h.1, h.0)

ordered-chain : (xs : List ℤ) → IsStrict xs → ordered (chain xs) ≡ true
unfolding ordered chain all_keys
ordered-chain [] h = refl
ordered-chain (x ∷ xs) h = ground (arith, all_keys-chain x xs h.0, ordered-chain xs h.1)

count-chain : (xs : List ℤ) → node_count (chain xs) ≡ length xs
unfolding node_count chain
count-chain [] = refl
count-chain (x ∷ xs) = omega (arith, count-chain xs)

tree_of-IsBst : (xs : List ℤ) → IsStrict xs → IsBst (tree_of xs)
tree_of-IsBst xs h = ground (arith, ordered-chain xs h, count-chain xs)

keys : Bst → List ℤ
keys t = inorder t.root

keys-IsStrict : (t : Bst) → IsBst t → IsStrict (keys t)
unfolding keys
keys-IsStrict t valid = inorder-IsStrict t.root (ground (arith, valid))

elem-keys : (t : Bst) (j : ℤ) → elem j (keys t) ≡ has t j
unfolding keys
elem-keys t j = elem-inorder j t.root

abbrev added : Bst → ℤ → Bst
added t k = tree_of (put k (keys t))

abbrev removed : Bst → ℤ → Bst
removed t k = tree_of (cut k (keys t))

has-added : (t : Bst) (k j : ℤ) → has (added t k) j ≡ (eqb_ℤ j k || has t j)
has-added t k j =
    has-chain j (put k (keys t)) ∙ elem-put k j (keys t) ∙ ap (λ b. eqb_ℤ j k || b) (elem-keys t j)

has-removed : (t : Bst) (k j : ℤ) → has (removed t k) j ≡ (not (eqb_ℤ j k) && has t j)
has-removed t k j =
    has-chain j (cut k (keys t))
    ∙ elem-cut k j (keys t)
    ∙ ap (λ b. not (eqb_ℤ j k) && b) (elem-keys t j)

added-IsBst : (t : Bst) (k : ℤ) → IsBst t → IsBst (added t k)
added-IsBst t k valid =
    tree_of-IsBst (put k (keys t)) (IsStrict-put k (keys t) (keys-IsStrict t valid))

removed-IsBst : (t : Bst) (k : ℤ) → IsBst t → IsBst (removed t k)
removed-IsBst t k valid =
    tree_of-IsBst (cut k (keys t)) (IsStrict-cut k (keys t) (keys-IsStrict t valid))

pub chains : BstApi
unfolding keys least greatest inorder
chains = record {
  bst_init = empty;
  bst_free = λ t. empty;
  bst_insert = λ t k. if has t k then (false, t) else (true, added t k);
  bst_contains = has;
  bst_remove = λ t k. if has t k then (true, removed t k) else (false, t);
  bst_min = λ t out. least (keys t) out;
  bst_max = λ t out. greatest (keys t) out;
  bst_size = λ t. t.size;
  bst_inorder = keys;
  bst_validate = validate;
  init_law = refl;
  free_law = λ t valid. refl;
  insert_new = λ t k valid new. (added t k, rw new refl, added-IsBst t k valid, has-added t k);
  insert_present = λ t k valid old. rw old refl;
  contains_law = λ t k valid. refl;
  remove_present =
      λ t k valid old. (removed t k, rw old refl, removed-IsBst t k valid, has-removed t k);
  remove_absent = λ t k valid new. (t, rw new refl, valid, λ j. refl);
  min_law = λ t out j valid here.
      let (m, runs, there, le) =
        least_lem (keys t) out j (keys-IsStrict t valid) (elem-keys t j ∙ here) in
      (m, runs, sym (elem-keys t m) ∙ there, λ i e. le i (elem-keys t i ∙ e));
  max_law = λ t out j valid here.
      let (m, runs, there, le) =
        greatest_lem (keys t) out j (keys-IsStrict t valid) (elem-keys t j ∙ here) in
      (m, runs, sym (elem-keys t m) ∙ there, λ i e. le i (elem-keys t i ∙ e));
  min_empty = λ t out e. rw e refl;
  max_empty = λ t out e. rw e refl;
  size_law = λ t valid. refl;
  inorder_law = λ t valid. refl;
  validate_law = λ t. refl;
}
