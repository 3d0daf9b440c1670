-- ===== src/DataStructures/Bst/Calls.antt =====
-- A tree of ProperDS/src/bst.h is a set of keys.
use low_level.Prelude.{
  ◌≡◌, refl, ap, ◌∙◌, Bool, true, false, ◌&&◌, ◌||◌, List, inl, inr, Bool-cases,
}
use low_level.Prelude.Int.{ℤ, eqb_ℤ, eqb_ℤ_iff}
use low_level.DataStructures.Trace.{run}
use low_level.DataStructures.KeySet.{KeySet, Call, spec, step, key_set_refines, not}
use low_level.DataStructures.Bst.{Bst, empty, has_key, ordered, node_count, IsBst, has, BstApi}

-- The laws for both answers in one.
pub has-insert : (f : ℤ → Bool) (k j : ℤ) → f k ≡ true → f j ≡ (eqb_ℤ j k || f j)
has-insert f k j h = elim (Bool-cases (eqb_ℤ j k)) [
  | inl e ↦ rw e (ap f ((eqb_ℤ_iff j k).0 e) ∙ h)
  | inr ne ↦ rw ne refl
]

pub has-remove : (f : ℤ → Bool) (k j : ℤ) → f k ≡ false → f j ≡ (not (eqb_ℤ j k) && f j)
has-remove f k j h = elim (Bool-cases (eqb_ℤ j k)) [
  | inl e ↦ rw e (ap f ((eqb_ℤ_iff j k).0 e) ∙ h)
  | inr ne ↦ rw ne refl
]

module _ (api : BstApi) where
  pub insert_lem :
      (t : Bst) (k : ℤ)
      → IsBst t
      → ((api.bst_insert t k).0 ≡ not (has t k))
        × IsBst (api.bst_insert t k).1
        × ((j : ℤ) → has (api.bst_insert t k).1 j ≡ (eqb_ℤ j k || has t j))
  insert_lem t k valid = elim (Bool-cases (has t k)) [
    | inl old ↦
        rw (api.insert_present t k valid old) (rw old refl, valid, λ j. has-insert (has t) k j old)
    | inr new ↦
        let (t', runs, valid', keys) = api.insert_new t k valid new in
        rw runs (rw new refl, valid', keys)
  ]

  pub remove_lem :
      (t : Bst) (k : ℤ)
      → IsBst t
      → ((api.bst_remove t k).0 ≡ has t k)
        × IsBst (api.bst_remove t k).1
        × ((j : ℤ) → has (api.bst_remove t k).1 j ≡ (not (eqb_ℤ j k) && has t j))
  remove_lem t k valid = elim (Bool-cases (has t k)) [
    | inl old ↦
        let (t', runs, valid', keys) = api.remove_present t k valid old in
        rw runs (rw old refl, valid', keys)
    | inr new ↦
        let (t', runs, valid', keys) = api.remove_absent t k valid new in
        rw runs (rw new refl, valid', λ j. keys j ∙ has-remove (has t) k j new)
  ]

  abbrev pub bst_set : KeySet ℤ eqb_ℤ Bst
  bst_set = record {
    Valid = IsBst;
    has = has;
    insert = api.bst_insert;
    contains = api.bst_contains;
    remove = api.bst_remove;
    insert_answer = λ t k valid. (insert_lem t k valid).0;
    insert_valid = λ t k valid. (insert_lem t k valid).1;
    insert_has = λ t k j valid. (insert_lem t k valid).2 j;
    contains_answer = api.contains_law;
    remove_answer = λ t k valid. (remove_lem t k valid).0;
    remove_valid = λ t k valid. (remove_lem t k valid).1;
    remove_has = λ t k j valid. (remove_lem t k valid).2 j;
  }

  -- While `malloc` succeeds, every sequence of insertions, removals and questions on a fresh tree is
  -- answered as a set of integers would, which is empty at first.
  pub bst_refines :
      (calls : List (Call ℤ))
      → run (step eqb_ℤ bst_set) calls api.bst_init ≡ run (spec eqb_ℤ) calls (λ k. false)
  unfolding has_key ordered node_count
  bst_refines calls = rw api.init_law (key_set_refines eqb_ℤ bst_set calls empty refl)
