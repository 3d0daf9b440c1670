-- ===== src/DataStructures/KeySet.antt =====
-- What the search trees and the trie of ProperDS/src promise in common: a set of keys, changed and
-- asked by calls.
use low_level.Prelude.{◌≡◌, refl, ap, ◌∙◌, Bool, true, false, ◌||◌, ◌&&◌, List, [], ◌∷◌, sym}
use low_level.DataStructures.Trace.{run, Follows, run-Follows}

abbrev pub not : Bool → Bool
not true = false
not false = true

module _ {ℓ} (Key : Type ℓ) (eqb : Key → Key → Bool) where
  -- A structure with the states `S`; `Valid` is its invariant, and `has` says which keys it holds.
  -- An insertion answers whether the key is new, a removal whether it was there.
  pub record KeySet {κ} (S : Type κ) : Type (ℓ ⊔ (κ + 1)) where
    pub Valid : S → Type κ
    pub has : S → Key → Bool
    pub insert : S → Key → Bool × S
    pub contains : S → Key → Bool
    pub remove : S → Key → Bool × S
    pub insert_answer : (s : S) (k : Key) → Valid s → (insert s k).0 ≡ not (has s k)
    pub insert_valid : (s : S) (k : Key) → Valid s → Valid (insert s k).1
    pub insert_has : (s : S) (k j : Key) → Valid s → has (insert s k).1 j ≡ (eqb j k || has s j)
    pub contains_answer : (s : S) (k : Key) → Valid s → contains s k ≡ has s k
    pub remove_answer : (s : S) (k : Key) → Valid s → (remove s k).0 ≡ has s k
    pub remove_valid : (s : S) (k : Key) → Valid s → Valid (remove s k).1
    pub remove_has :
        (s : S) (k j : Key) → Valid s → has (remove s k).1 j ≡ (not (eqb j k) && has s j)

pub data Call {ℓ} (Key : Type ℓ) : Type ℓ where
  insert : Key → Call Key
  contains : Key → Call Key
  remove : Key → Call Key

module _ {ℓ} {Key : Type ℓ} (eqb : Key → Key → Bool) where
  -- The specification: the set as a test on keys.
  abbrev pub spec : Call Key → (Key → Bool) → Bool × (Key → Bool)
  spec (insert k) f = (not (f k), λ j. eqb j k || f j)
  spec (contains k) f = (f k, f)
  spec (remove k) f = (f k, λ j. not (eqb j k) && f j)

  module _ {κ} {S : Type κ} (set : KeySet Key eqb S) where
    unfoldable pub step : Call Key → S → Bool × S
    step (insert k) s = set.insert s k
    step (contains k) s = (set.contains s k, s)
    step (remove k) s = set.remove s k

    abbrev Shows : S → (Key → Bool) → Type (ℓ ⊔ κ)
    Shows s f = set.Valid s × ((j : Key) → set.has s j ≡ f j)

    step-Follows : Follows step spec Shows
    unfolding step
    step-Follows (insert k) s f (valid, h) = (
      set.insert_answer s k valid ∙ ap not (h k),
      (set.insert_valid s k valid, λ j. set.insert_has s k j valid ∙ ap (λ b. eqb j k || b) (h j)),
    )
    step-Follows (contains k) s f (valid, h) = (set.contains_answer s k valid ∙ h k, (valid, h))
    step-Follows (remove k) s f (valid, h) = (
      set.remove_answer s k valid ∙ h k,
      (
        set.remove_valid s k valid,
        λ j. set.remove_has s k j valid ∙ ap (λ b. not (eqb j k) && b) (h j),
      ),
    )

    -- Every sequence of calls on a valid state is answered as the set of its keys would.
    pub key_set_refines :
        (calls : List (Call Key)) (s : S)
        → set.Valid s
        → run step calls s ≡ run spec calls (set.has s)
    key_set_refines calls s valid =
        run-Follows step spec Shows calls s (set.has s) step-Follows (valid, λ j. refl)

module _ {ℓ κ} {Key : Type ℓ} (eqb : Key → Key → Bool) {S : Type κ} (set : KeySet Key eqb S) where
  -- The state that a sequence of calls leaves.
  unfoldable pub left_by : List (Call Key) → S → S
  left_by [] s = s
  left_by (insert k ∷ calls) s = left_by calls (set.insert s k).1
  left_by (contains k ∷ calls) s = left_by calls s
  left_by (remove k ∷ calls) s = left_by calls (set.remove s k).1

module _ {ℓ κ} {Key : Type ℓ} (eqb : Key → Key → Bool) {S : Type κ} (set : KeySet Key eqb S) where
  pub left_by-Valid :
      (calls : List (Call Key)) (s : S) → set.Valid s → set.Valid (left_by eqb set calls s)
  unfolding left_by
  left_by-Valid [] s valid = valid
  left_by-Valid (insert k ∷ calls) s valid =
      left_by-Valid calls (set.insert s k).1 (set.insert_valid s k valid)
  left_by-Valid (contains k ∷ calls) s valid = left_by-Valid calls s valid
  left_by-Valid (remove k ∷ calls) s valid =
      left_by-Valid calls (set.remove s k).1 (set.remove_valid s k valid)

module _ {ℓ κ κ'} {Key : Type ℓ} (eqb : Key → Key → Bool) {S : Type κ} {S' : Type κ'}
    (set : KeySet Key eqb S) (set' : KeySet Key eqb S') where
  abbrev Agree : S → S' → Type (ℓ ⊔ κ ⊔ κ')
  Agree s t = set.Valid s × set'.Valid t × ((j : Key) → set.has s j ≡ set'.has t j)

  -- The same calls keep two structures with the same keys together.
  pub left_by-Agree :
      (calls : List (Call Key)) (s : S) (t : S')
      → Agree s t
      → Agree (left_by eqb set calls s) (left_by eqb set' calls t)
  unfolding left_by
  left_by-Agree [] s t agree = agree
  left_by-Agree (insert k ∷ calls) s t (valid, valid', same) =
      left_by-Agree calls (set.insert s k).1 (set'.insert t k).1 (
        set.insert_valid s k valid,
        set'.insert_valid t k valid',
        λ j.
            set.insert_has s k j valid
            ∙ ap (λ b. eqb j k || b) (same j)
            ∙ sym (set'.insert_has t k j valid'),
      )
  left_by-Agree (contains k ∷ calls) s t agree = left_by-Agree calls s t agree
  left_by-Agree (remove k ∷ calls) s t (valid, valid', same) =
      left_by-Agree calls (set.remove s k).1 (set'.remove t k).1 (
        set.remove_valid s k valid,
        set'.remove_valid t k valid',
        λ j.
            set.remove_has s k j valid
            ∙ ap (λ b. not (eqb j k) && b) (same j)
            ∙ sym (set'.remove_has t k j valid'),
      )
