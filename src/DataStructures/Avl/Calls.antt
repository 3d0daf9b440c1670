-- ===== src/DataStructures/Avl/Calls.antt =====
-- Insertion and removal with rotations keep the contract of ProperDS/src/avl.h.
use low_level.Prelude.{
  suc, ◌+◌, ◌-◌, ◌≡◌, refl, sym, ap, ◌∙◌, Bool, true, ◌&&◌, ◌||◌, length, if◌then◌else◌, ==_iff,
  Bool-cases, inl, inr, arith,
}
use mathlib.Core.Path.{subst}
use low_level.Prelude.Int.{ℤ, eqb_ℤ}
use low_level.DataStructures.KeySet.{not}
use low_level.DataStructures.Avl.Contract.{AvlApi, in_tree}
use low_level.DataStructures.Bst.{ordered, node_count, inorder}
use low_level.DataStructures.Bst.Inorder.{
  IsStrict, inorder-IsStrict, IsStrict-ordered, length-inorder,
}
use low_level.DataStructures.Bst.Calls.{has-insert, has-remove}
use low_level.DataStructures.Avl.{
  Avl, keys_of, IsAvl, search, inserted, removed, avl_init, avl_insert, avl_contains, avl_remove,
  avl_height,
}
use low_level.DataStructures.Avl.Height.{avl_height_bound}
use low_level.DataStructures.Avl.Balance.{Good, Good-of_tests, Good-tests}
use low_level.DataStructures.Avl.Keys.{keys, keys-inorder}
use low_level.DataStructures.Bst.Members.{member, member-inorder}
use low_level.DataStructures.Avl.Updates.{inserted-Good, removed-Good}
use low_level.DataStructures.Avl.Updates.Sorted.{
  inserted-IsStrict, inserted-member, length-inserted, search-member,
}
use low_level.DataStructures.Avl.Updates.Removed.{removed-IsStrict, removed-member, length-removed}

-- The invariant without its tests.
record Sound (t : Avl) : Type 0 where
  strict : IsStrict (keys t.root)
  good : Good t.root
  size : length (keys t.root) ≡ t.size

Sound-of_IsAvl : (t : Avl) → IsAvl t → Sound t
Sound-of_IsAvl t valid = record {
  strict =
      subst IsStrict (sym (keys-inorder t.root))
        (inorder-IsStrict (keys_of t.root) (ground (arith, valid)));
  good = Good-of_tests t.root (ground (arith, valid)) (ground (arith, valid));
  size = ap length (keys-inorder t.root) ∙ length-inorder (keys_of t.root) ∙ ground (arith, valid);
}

IsAvl-of_Sound : (t : Avl) → Sound t → IsAvl t
IsAvl-of_Sound t sound =
    let (caches, balance) = Good-tests t.root sound.good in
    let order : ordered (keys_of t.root) ≡ true =
      IsStrict-ordered (keys_of t.root) (subst IsStrict (keys-inorder t.root) sound.strict) in
    let count : node_count (keys_of t.root) ≡ t.size =
      sym (length-inorder (keys_of t.root)) ∙ ap length (sym (keys-inorder t.root)) ∙ sound.size in
    rw (order, caches, balance) ((==_iff (node_count (keys_of t.root)) t.size).1 count)

abbrev pub has : Avl → ℤ → Bool
has t x = member x (keys t.root)

found : (t : Avl) (x : ℤ) → Sound t → search t.root x ≡ has t x
found t x sound = search-member t.root x sound.strict

insert_lem :
    (t : Avl) (x : ℤ)
    → IsAvl t
    → ((avl_insert t x).0 ≡ not (has t x))
      × IsAvl (avl_insert t x).1
      × ((j : ℤ) → has (avl_insert t x).1 j ≡ (eqb_ℤ j x || has t j))
unfolding avl_insert
insert_lem t x valid =
    let sound = Sound-of_IsAvl t valid in
    let there = found t x sound in
    elim (Bool-cases (search t.root x)) [
      | inl old ↦
          rw old (ap not (sym old ∙ there), valid, λ j. has-insert (has t) x j (sym there ∙ old))
      | inr new ↦ rw new (
        ap not (sym new ∙ there),
        IsAvl-of_Sound (record { root = inserted t.root x; size = suc t.size })
            (record {
              strict = inserted-IsStrict t.root x sound.strict;
              good = (inserted-Good t.root x sound.good).0;
              size = length-inserted t.root x ∙ rw new (ap suc sound.size);
            }),
        λ j. inserted-member t.root x j,
      )
    ]

remove_lem :
    (t : Avl) (x : ℤ)
    → IsAvl t
    → ((avl_remove t x).0 ≡ has t x)
      × IsAvl (avl_remove t x).1
      × ((j : ℤ) → has (avl_remove t x).1 j ≡ (not (eqb_ℤ j x) && has t j))
unfolding avl_remove
remove_lem t x valid =
    let sound = Sound-of_IsAvl t valid in
    let there = found t x sound in
    elim (Bool-cases (search t.root x)) [
      | inl old ↦
          let fewer : length (keys (removed t.root x)) + 1 ≡ t.size =
            ap (λ b. length (keys (removed t.root x)) + (if b then 1 else 0)) (sym old)
            ∙ length-removed t.root x
            ∙ sound.size in
          rw old (
            sym old ∙ there,
            IsAvl-of_Sound (record { root = removed t.root x; size = t.size - 1 })
                (record {
                  strict = removed-IsStrict t.root x sound.strict;
                  good = (removed-Good t.root x sound.good).0;
                  size = omega (arith, fewer);
                }),
            λ j. removed-member t.root x j sound.strict,
          )
      | inr new ↦ rw new (sym new ∙ there, valid, λ j. has-remove (has t) x j (sym there ∙ new))
    ]

in_tree-has : (t : Avl) (x : ℤ) → in_tree t x ≡ has t x
in_tree-has t x =
    sym (member-inorder (keys_of t.root) x) ∙ ap (member x) (sym (keys-inorder t.root))

-- Rotations keep the contract.
pub rotating : AvlApi
rotating = record {
  avl_init = avl_init;
  avl_free = λ t. avl_init;
  avl_insert = avl_insert;
  avl_contains = avl_contains;
  avl_remove = avl_remove;
  avl_height = avl_height;
  avl_size = λ t. t.size;
  avl_inorder = λ t. inorder (keys_of t.root);
  init_law = refl;
  free_law = λ t. refl;
  insert_answer = λ t k valid. (insert_lem t k valid).0 ∙ ap not (sym (in_tree-has t k));
  insert_valid = λ t k valid. (insert_lem t k valid).1;
  insert_keys = λ t k j valid.
      in_tree-has (avl_insert t k).1 j
      ∙ (insert_lem t k valid).2 j
      ∙ ap (λ b. eqb_ℤ j k || b) (sym (in_tree-has t j));
  contains_law = λ t k valid. found t k (Sound-of_IsAvl t valid) ∙ sym (in_tree-has t k);
  remove_answer = λ t k valid. (remove_lem t k valid).0 ∙ sym (in_tree-has t k);
  remove_valid = λ t k valid. (remove_lem t k valid).1;
  remove_keys = λ t k j valid.
      in_tree-has (avl_remove t k).1 j
      ∙ (remove_lem t k valid).2 j
      ∙ ap (λ b. not (eqb_ℤ j k) && b) (sym (in_tree-has t j));
  height_law = λ t valid. (avl_height_bound t valid).0;
  size_law = λ t. refl;
  inorder_law = λ t valid. refl;
}
