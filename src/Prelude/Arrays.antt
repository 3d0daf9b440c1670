-- ===== src/Prelude/Arrays.antt =====
-- C arrays as lists: a read or a write past the end is `none`.
use Prim.Native.Nat.{ℕ, zero, suc, ◌+◌, ◌≤◌, ◌<◌}
use mathlib.Core.Path.{◌≡◌, refl, ap, ap₂}
use mathlib.Core.List.{List, [], ◌∷◌, ◌++◌, append_assoc}
use mathlib.Core.Option.{Option, none, some, some-injective}
use native.Mathlib.Omega.{arith}
use low_level.Prelude.Tests.{ltb, lt→ltb, ◌==◌, if◌then◌else◌}
use low_level.Prelude.Lists.{length, get_elem?, set, drop, length-append, length-set}

module _ {ℓ} {A : Type ℓ} where
  -- `arr[i] = v`
  abbrev pub store : List A → ℕ → A → Option (List A)
  store xs i v = if ltb i (length xs) then some (set xs i v) else none

  pub store-eq-set :
      (xs : List A) (i : ℕ) (v : A) → i < length xs → store xs i v ≡ some (set xs i v)
  store-eq-set xs i v h = ground arith

  pub store-eq-none : (xs : List A) (i : ℕ) (v : A) → length xs ≤ i → store xs i v ≡ none
  store-eq-none xs i v h = ground arith

  pub length-store :
      (xs : List A) (i : ℕ) (v : A) {ys : List A} → store xs i v ≡ some ys → length ys ≡ length xs
  length-store xs i v h = ground (arith, length-set xs i v)

  -- The read of the element that a split of the array shows.
  pub get_elem?-append :
      (pre : List A) (x : A) (rest : List A) → get_elem? (pre ++ x ∷ rest) (length pre) ≡ some x
  get_elem?-append [] x rest = refl
  get_elem?-append (y ∷ pre) x rest = get_elem?-append pre x rest

  set-append :
      (pre : List A) (x : A) (rest : List A) (v : A)
      → set (pre ++ x ∷ rest) (length pre) v ≡ pre ++ v ∷ rest
  set-append [] x rest v = refl
  set-append (y ∷ pre) x rest v = ap (λ t. y ∷ t) (set-append pre x rest v)

  -- The write of that element.
  pub store-append :
      (pre : List A) (x : A) (rest : List A) (v : A)
      → store (pre ++ x ∷ rest) (length pre) v ≡ some (pre ++ v ∷ rest)
  store-append pre x rest v =
      rw
        (lt→ltb (length pre) (length (pre ++ x ∷ rest))
          (omega (arith, length-append pre (x ∷ rest))))
        (ap some (set-append pre x rest v))

  -- Both, at an index that equals the length of the front.
  pub get_elem?-split :
      {i : ℕ} (pre : List A) (x : A) (rest : List A)
      → i ≡ length pre
      → get_elem? (pre ++ x ∷ rest) i ≡ some x
  get_elem?-split pre x rest e = rw e (get_elem?-append pre x rest)

  pub store-split :
      {i : ℕ} (pre : List A) (x : A) (rest : List A) (v : A)
      → i ≡ length pre
      → store (pre ++ x ∷ rest) i v ≡ some (pre ++ v ∷ rest)
  store-split pre x rest v e = rw e (store-append pre x rest v)

  -- The same behind another element that the split shows.
  later_position :
      {j : ℕ} (pre : List A) (x : A) (mid : List A)
      → j ≡ length pre + 1 + length mid
      → j ≡ length (pre ++ x ∷ mid)
  later_position pre x mid e = omega (arith, length-append pre (x ∷ mid))

  pub get_elem?-split_later :
      {j : ℕ} (pre : List A) (x : A) (mid : List A) (y : A) (post : List A)
      → j ≡ length pre + 1 + length mid
      → get_elem? (pre ++ x ∷ (mid ++ y ∷ post)) j ≡ some y
  get_elem?-split_later pre x mid y post e =
      rw (append_assoc pre (x ∷ mid) (y ∷ post)) at
        (get_elem?-split (pre ++ x ∷ mid) y post (later_position pre x mid e))

  pub store-split_later :
      {j : ℕ} (pre : List A) (x : A) (mid : List A) (y : A) (post : List A) (v : A)
      → j ≡ length pre + 1 + length mid
      → store (pre ++ x ∷ (mid ++ y ∷ post)) j v ≡ some (pre ++ x ∷ (mid ++ v ∷ post))
  store-split_later pre x mid y post v e =
      rw (append_assoc pre (x ∷ mid) (y ∷ post), append_assoc pre (x ∷ mid) (v ∷ post)) at
        (store-split (pre ++ x ∷ mid) y post v (later_position pre x mid e))

  -- Reading after a write, in one equation.
  pub get_elem?-set :
      (xs : List A) (i j : ℕ) (v : A)
      → i < length xs
      → get_elem? (set xs i v) j ≡ (if i == j then some v else get_elem? xs j)
  get_elem?-set [] i j v h = absurd (omega arith)
  get_elem?-set (x ∷ xs) zero zero v h = refl
  get_elem?-set (x ∷ xs) zero (suc j) v h = ground arith
  get_elem?-set (x ∷ xs) (suc i) zero v h = ground arith
  get_elem?-set (x ∷ xs) (suc i) (suc j) v h = ground (arith, get_elem?-set xs i j v)

  pub get_elem?-in_range :
      (xs : List A) (i : ℕ) → i < length xs → (x : A) × (get_elem? xs i ≡ some x)
  get_elem?-in_range [] i h = absurd (omega arith)
  get_elem?-in_range (x ∷ xs) zero h = (x, refl)
  get_elem?-in_range (x ∷ xs) (suc i) h = get_elem?-in_range xs i (omega arith)

  pub get_elem?-out_of_range : (xs : List A) (i : ℕ) → length xs ≤ i → get_elem? xs i ≡ none
  get_elem?-out_of_range [] i h = refl
  get_elem?-out_of_range (x ∷ xs) zero h = absurd (omega arith)
  get_elem?-out_of_range (x ∷ xs) (suc i) h = get_elem?-out_of_range xs i (omega arith)

  pub lt_of_get_elem? : (xs : List A) (i : ℕ) {x : A} → get_elem? xs i ≡ some x → i < length xs
  lt_of_get_elem? [] i e = cc
  lt_of_get_elem? (x ∷ xs) zero e = omega arith
  lt_of_get_elem? (x ∷ xs) (suc i) e = omega (arith, lt_of_get_elem? xs i e)

  drop-length : (xs ys : List A) → drop (length xs) (xs ++ ys) ≡ ys
  drop-length [] ys = refl
  drop-length (x ∷ xs) ys = drop-length xs ys

  pub drop_front : (n : ℕ) (xs ys : List A) → n ≡ length xs → drop n (xs ++ ys) ≡ ys
  drop_front n xs ys e = rw e (drop-length xs ys)

  -- Arrays of one length with the same elements are equal.
  pub get_elem?_ext :
      (xs ys : List A)
      → length xs ≡ length ys
      → ((i : ℕ) → get_elem? xs i ≡ get_elem? ys i)
      → xs ≡ ys
  get_elem?_ext [] [] e h = refl
  get_elem?_ext [] (y ∷ ys) e h = absurd (omega arith)
  get_elem?_ext (x ∷ xs) [] e h = absurd (omega arith)
  get_elem?_ext (x ∷ xs) (y ∷ ys) e h =
      ap₂ ◌∷◌ (some-injective x y (h 0)) (get_elem?_ext xs ys (omega arith) (λ i. h (suc i)))

  -- An array that is long enough splits around the element at an index.
  pub record SplitAt (n : ℕ) (xs : List A) : Type ℓ where
    pub before : List A
    pub item : A
    pub behind : List A
    pub split : xs ≡ before ++ item ∷ behind
    pub size : length before ≡ n

  pub split_at : (n : ℕ) (xs : List A) → n < length xs → SplitAt n xs
  split_at n [] h = absurd (omega arith)
  split_at zero (x ∷ xs) h = record {
    before = [];
    item = x;
    behind = xs;
    split = refl;
    size = refl;
  }
  split_at (suc n) (x ∷ xs) h =
      let r = split_at n xs (omega arith) in
      record {
        before = x ∷ r.before;
        item = r.item;
        behind = r.behind;
        split = ap (λ t. x ∷ t) r.split;
        size = ap suc r.size;
      }
