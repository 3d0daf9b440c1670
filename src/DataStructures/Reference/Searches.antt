-- ===== src/DataStructures/Reference/Searches.antt =====
-- Linear searches that keep the laws of the searches of ProperDS/src/search.h.
use mathlib.Core.Option
use mathlib.Core.Option.{some-injective}
use mathlib.Core.Path.{subst}
use low_level.Prelude.{
  ℕ, zero, suc, ◌≤◌, ◌<◌, ◌≡◌, ◌≢◌, refl, sym, ap, ◌∙◌, Bool, true, false, Option, none, some, List,
  [], ◌∷◌, length, get_elem?, if◌then◌else◌, Bool-cases, inl, inr, arith,
}
use low_level.Prelude.Int.{ℤ, ltb_ℤ, leb_ℤ, eqb_ℤ, eqb_ℤ_iff}
use low_level.DataStructures.Search.{Searching}

-- The length of the longest prefix whose elements all pass.
unfoldable pub prefix_length : (ℤ → Bool) → List ℤ → ℕ
prefix_length test [] = 0
prefix_length test (x ∷ xs) = if test x then suc (prefix_length test xs) else 0

prefix_length-inside : (test : ℤ → Bool) (xs : List ℤ) → prefix_length test xs ≤ length xs
unfolding prefix_length
prefix_length-inside test [] = omega arith
prefix_length-inside test (x ∷ xs) = ground (arith, prefix_length-inside test xs)

prefix_length-before :
    (test : ℤ → Bool) (xs : List ℤ) (j : ℕ) (x : ℤ)
    → j < prefix_length test xs
    → get_elem? xs j ≡ some x
    → test x ≡ true
unfolding prefix_length
prefix_length-before test [] j x h e = absurd (omega arith)
prefix_length-before test (y ∷ xs) zero x h e = ap test (sym (some-injective y x e)) ∙ ground arith
prefix_length-before test (y ∷ xs) (suc j) x h e = prefix_length-before test xs j x (ground arith) e

prefix_length-there :
    (test : ℤ → Bool) (xs : List ℤ) (x : ℤ)
    → get_elem? xs (prefix_length test xs) ≡ some x
    → test x ≡ false
unfolding prefix_length
prefix_length-there test [] x e = cc
prefix_length-there test (y ∷ xs) x e = elim (Bool-cases (test y)) [
  | inl more ↦ prefix_length-there test xs x (rw more at e)
  | inr stop ↦
      let same : some y ≡ some x = rw stop at e in ap test (sym (some-injective y x same)) ∙ stop
]

unfoldable pub first_index : (ℤ → Bool) → List ℤ → Option ℕ
first_index test [] = none
first_index test (x ∷ xs) =
    let rest = first_index test xs in
    if test x then some 0 else elim rest [ none ↦ none | some i ↦ some (suc i) ]

abbrev pub find_index : ℤ → List ℤ → Option ℕ
find_index key xs = first_index (λ x. eqb_ℤ x key) xs

-- Where the list starts with the key, and where it does not.
first_index-here :
    (test : ℤ → Bool) (x : ℤ) (xs : List ℤ) → test x ≡ true → first_index test (x ∷ xs) ≡ some 0
unfolding first_index
first_index-here test x xs h = rw h refl

first_index-later :
    (test : ℤ → Bool) (x : ℤ) (xs : List ℤ)
    → test x ≡ false
    → first_index test (x ∷ xs) ≡ Option.map suc (first_index test xs)
unfolding first_index
first_index-later test x xs h = rw h refl

find_index-found :
    (key : ℤ) (xs : List ℤ) (i : ℕ) → find_index key xs ≡ some i → get_elem? xs i ≡ some key
unfolding first_index
find_index-found key [] i e = cc
find_index-found key (x ∷ xs) i e = elim (Bool-cases (eqb_ℤ x key)) [
  | inl here ↦
      let at_0 : 0 ≡ i =
        some-injective 0 i (sym (first_index-here (λ y. eqb_ℤ y key) x xs here) ∙ e) in
      subst (λ j. get_elem? (x ∷ xs) j ≡ some key) at_0 (ap some ((eqb_ℤ_iff x key).0 here))
  | inr later ↦
      tail (find_index key xs) (find_index-found key xs) i
        (sym (first_index-later (λ y. eqb_ℤ y key) x xs later) ∙ e)
]
  where
    tail :
        (r : Option ℕ)
        → ((j : ℕ) → r ≡ some j → get_elem? xs j ≡ some key)
        → (j : ℕ) → Option.map suc r ≡ some j
        → get_elem? (x ∷ xs) j ≡ some key
    tail none ih j h = cc
    tail (some k) ih j h =
        subst (λ n. get_elem? (x ∷ xs) n ≡ some key) (some-injective (suc k) j h) (ih k refl)

find_index-absent :
    (key : ℤ) (xs : List ℤ) (i : ℕ) → find_index key xs ≡ none → get_elem? xs i ≢ some key
unfolding first_index
find_index-absent key [] i e h = cc
find_index-absent key (x ∷ xs) i e h = elim (Bool-cases (eqb_ℤ x key)) [
  | inl here ↦ clash 0 (sym (first_index-here (λ y. eqb_ℤ y key) x xs here) ∙ e)
  | inr later ↦
      let rest : find_index key xs ≡ none =
        none_of (find_index key xs) (sym (first_index-later (λ y. eqb_ℤ y key) x xs later) ∙ e) in
      go i later (find_index-absent key xs) rest h
]
  where
    clash : (n : ℕ) → some n ≡ none → ⊥
    clash n h' = cc

    none_of : (r : Option ℕ) → Option.map suc r ≡ none → r ≡ none
    none_of none h' = refl
    none_of (some k) h' = cc

    go :
        (j : ℕ)
        → eqb_ℤ x key ≡ false
        → ((j' : ℕ) → find_index key xs ≡ none → get_elem? xs j' ≢ some key)
        → find_index key xs ≡ none
        → get_elem? (x ∷ xs) j ≡ some key
        → ⊥
    go zero later ih rest at_j =
        differ (sym ((eqb_ℤ_iff x key).1 (some-injective x key at_j)) ∙ later)
      where
        differ : true ≡ false → ⊥
        differ d = cc
    go (suc j) later ih rest at_j = ih j rest at_j

pub linear_searching : Searching
linear_searching = record {
  binary_search_idx = λ a key. find_index key a;
  lower_bound = λ a key. prefix_length (λ x. ltb_ℤ x key) a;
  upper_bound = λ a key. prefix_length (λ x. leb_ℤ x key) a;
  found = λ a key i asc. find_index-found key a i;
  absent = λ a key i asc. find_index-absent key a i;
  lower = λ a key asc. record {
    inside = prefix_length-inside (λ x. ltb_ℤ x key) a;
    before = λ j x h e. ground (arith, prefix_length-before (λ x. ltb_ℤ x key) a j x h e);
    there = λ x e. ground (arith, prefix_length-there (λ x. ltb_ℤ x key) a x e);
  };
  upper = λ a key asc. record {
    inside = prefix_length-inside (λ x. leb_ℤ x key) a;
    before = λ j x h e. ground (arith, prefix_length-before (λ x. leb_ℤ x key) a j x h e);
    there = λ x e. ground (arith, prefix_length-there (λ x. leb_ℤ x key) a x e);
  };
}
