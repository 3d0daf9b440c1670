-- ===== src/DataStructures/Search/Count.antt =====
-- What ProperDS/src/search.h says of the two bounds together.
use mathlib.Core.List.{Perm, foldr}
use mathlib.Core.List.Perm
use native.Mathlib.Nat.{ℕ_set}
use low_level.Prelude.{
  ℕ, zero, suc, ◌+◌, ◌≤◌, ◌<◌, ◌≡◌, ◌↔◌, refl, ap, ◌∙◌, none, some, List, [], ◌∷◌, arith, get_elem?,
  get_elem?-in_range, lt_of_get_elem?, if◌then◌else◌, Option-cases, inl, inr, dec_lt,
}
use low_level.Prelude.Int.{ℤ, ◌≤ℤ◌, ◌<ℤ◌, eqb_ℤ, eqb_ℤ_iff, eq_of_parts}
use low_level.DataStructures.Search.{AllAtLeast, IsAscending, IsLowerBound, IsUpperBound, Searching}

abbrev pub occurrences : ℤ → List ℤ → ℕ
occurrences key xs = foldr (λ x t. (if eqb_ℤ x key then 1 else 0) + t) 0 xs

pub occurrences-perm :
    (key : ℤ) {xs ys : List ℤ} → Perm xs ys → occurrences key xs ≡ occurrences key ys
occurrences-perm key p =
    Perm.foldr-eq ℕ_set (λ x t. (if eqb_ℤ x key then 1 else 0) + t) (λ a b t. omega arith) p 0

lower_tail :
    (x : ℤ) (xs : List ℤ) (key : ℤ) (i : ℕ)
    → IsLowerBound (x ∷ xs) key (suc i)
    → IsLowerBound xs key i
lower_tail x xs key i h = record {
  inside = omega (arith, h.inside);
  before = λ j y lt. h.before (suc j) y (omega arith);
  there = h.there;
}

upper_tail :
    (x : ℤ) (xs : List ℤ) (key : ℤ) (i : ℕ)
    → IsUpperBound (x ∷ xs) key (suc i)
    → IsUpperBound xs key i
upper_tail x xs key i h = record {
  inside = omega (arith, h.inside);
  before = λ j y lt. h.before (suc j) y (omega arith);
  there = h.there;
}

AllAtLeast-get :
    (x : ℤ) (xs : List ℤ) (i : ℕ) (y : ℤ) → AllAtLeast x xs → get_elem? xs i ≡ some y → x ≤ℤ y
AllAtLeast-get x [] i y all e = cc
AllAtLeast-get x (z ∷ xs) zero y all e = ground arith
AllAtLeast-get x (z ∷ xs) (suc i) y all e = AllAtLeast-get x xs i y all.1 e

-- Nothing occurs in front of a least element that is larger.
occurrences_below : (key x : ℤ) (xs : List ℤ) → AllAtLeast x xs → key <ℤ x → occurrences key xs ≡ 0
occurrences_below key x [] all lt = refl
occurrences_below key x (y ∷ xs) all lt =
    ground (arith, eqb_ℤ_iff y key, occurrences_below key x xs all.1 lt)

lower_first : (x : ℤ) (xs : List ℤ) (key : ℤ) → AllAtLeast x xs → key ≤ℤ x → IsLowerBound xs key 0
lower_first x xs key all least = record {
  inside = omega arith;
  before = λ j y lt. absurd (omega arith);
  there = λ y e. omega (arith, AllAtLeast-get x xs 0 y all e);
}

bounds-occurrences :
    (a : List ℤ) (key : ℤ) (i j : ℕ)
    → IsAscending a
    → IsLowerBound a key i
    → IsUpperBound a key j
    → i + occurrences key a ≡ j
bounds-occurrences [] key i j asc low up = omega (arith, low.inside, up.inside)
bounds-occurrences (x ∷ xs) key zero zero asc low up =
    let above : key <ℤ x = up.there x refl in ground (arith, occurrences_below key x xs asc.0 above)
bounds-occurrences (x ∷ xs) key zero (suc j) asc low up =
    let least : key ≤ℤ x = low.there x refl in
    let most : x ≤ℤ key = up.before 0 x (omega arith) refl in
    let rest =
      bounds-occurrences xs key 0 j asc.1 (lower_first x xs key asc.0 least)
        (upper_tail x xs key j up) in
    ground (arith, rest)
bounds-occurrences (x ∷ xs) key (suc i) zero asc low up =
    let above : key <ℤ x = up.there x refl in
    let below : x <ℤ key = low.before 0 x (omega arith) refl in absurd (omega arith)
bounds-occurrences (x ∷ xs) key (suc i) (suc j) asc low up =
    let below : x <ℤ key = low.before 0 x (omega arith) refl in
    let rest =
      bounds-occurrences xs key i j asc.1 (lower_tail x xs key i low) (upper_tail x xs key j up) in
    ground (arith, rest)

IsAscending-get :
    (a : List ℤ) (i j : ℕ) (x y : ℤ)
    → IsAscending a
    → i ≤ j
    → get_elem? a i ≡ some x
    → get_elem? a j ≡ some y
    → x ≤ℤ y
IsAscending-get [] i j x y asc le e e' = cc
IsAscending-get (z ∷ a) zero zero x y asc le e e' = ground arith
IsAscending-get (z ∷ a) zero (suc j) x y asc le e e' =
    ground (arith, AllAtLeast-get z a j y asc.0 e')
IsAscending-get (z ∷ a) (suc i) zero x y asc le e e' = absurd (omega arith)
IsAscending-get (z ∷ a) (suc i) (suc j) x y asc le e e' =
    IsAscending-get a i j x y asc.1 (omega arith) e e'

module _ (s : Searching) (a : List ℤ) (key : ℤ) (asc : IsAscending a) where
  abbrev low : ℕ
  low = s.lower_bound a key

  abbrev high : ℕ
  high = s.upper_bound a key

  -- In an ascending array the indices from the lower bound up to the upper bound are exactly those
  -- of the key, and there are as many of them as the key occurs.
  pub bounds_lem :
      (low + occurrences key a ≡ high)
      × ((k : ℕ) → (get_elem? a k ≡ some key) ↔ ((low ≤ k) × (k < high)))
  bounds_lem =
      let l = s.lower a key asc in
      let u = s.upper a key asc in
      (
        bounds-occurrences a key low high asc l u,
        λ k. (λ e. (not_below k e, not_above k e), λ (from, to). between k from to),
      )
    where
      not_below : (k : ℕ) → get_elem? a k ≡ some key → low ≤ k
      not_below k e = elim (dec_lt k low) [
        | yes below ↦ absurd (omega (arith, (s.lower a key asc).before k key below e))
        | no above ↦ omega arith
      ]

      not_above : (k : ℕ) → get_elem? a k ≡ some key → k < high
      not_above k e = elim (dec_lt k high) [
        | yes below ↦ below
        | no above ↦
            let (y, at_high) = get_elem?-in_range a high (omega (arith, lt_of_get_elem? a k e)) in
            absurd (
              omega (
                arith,
                (s.upper a key asc).there y at_high,
                IsAscending-get a high k y key asc (omega arith) at_high e,
              ))
      ]

      between : (k : ℕ) → low ≤ k → k < high → get_elem? a k ≡ some key
      between k from to =
          let u = s.upper a key asc in
          let (x, here) = get_elem?-in_range a k (omega (arith, u.inside)) in
          let (y, first) = get_elem?-in_range a low (omega (arith, u.inside)) in
          let same : x ≡ key = eq_of_parts x key (
            omega (
              arith,
              u.before k x to here,
              (s.lower a key asc).there y first,
              IsAscending-get a low k y x asc from first here,
            )) in
          here ∙ ap some same

  -- A search finds nothing exactly if the bounds are the same index.
  pub binary_search_idx_iff : (s.binary_search_idx a key ≡ none) ↔ (low ≡ high)
  binary_search_idx_iff =
      let (sum, run) = bounds_lem in
      (
        λ none_found. elim (dec_lt low high) [
          | yes room ↦ absurd (s.absent a key low asc none_found ((run low).1 (omega arith, room)))
          | no full ↦ omega arith
        ],
        λ same. elim (Option-cases (s.binary_search_idx a key)) [
          | inl nothing ↦ nothing
          | inr (i, hit) ↦
              let (from, to) = (run i).0 (s.found a key i asc hit) in absurd (omega arith)
        ],
      )
