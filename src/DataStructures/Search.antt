-- ===== src/DataStructures/Search.antt =====
-- ProperDS/src/search.h: searching in an ascending array.
pub mod Members
pub mod Count
use low_level.Prelude.{ℕ, ◌≤◌, ◌<◌, ◌≡◌, ◌≢◌, Option, none, some, List, [], ◌∷◌, length, get_elem?}
use low_level.Prelude.Int.{ℤ, ◌≤ℤ◌, ◌<ℤ◌}

abbrev pub AllAtLeast : ℤ → List ℤ → Type 0
AllAtLeast x [] = Unit
AllAtLeast x (y ∷ ys) = (x ≤ℤ y) × AllAtLeast x ys

-- Ascending, duplicates allowed.
abbrev pub IsAscending : List ℤ → Type 0
IsAscending [] = Unit
IsAscending (x ∷ xs) = AllAtLeast x xs × IsAscending xs

-- `i` is the first index with `a[i] >= key`, or `n` if there is none.
pub record IsLowerBound (a : List ℤ) (key : ℤ) (i : ℕ) : Type 0 where
  pub inside : i ≤ length a
  pub before : (j : ℕ) (x : ℤ) → j < i → get_elem? a j ≡ some x → x <ℤ key
  pub there : (x : ℤ) → get_elem? a i ≡ some x → key ≤ℤ x

-- `i` is the first index with `a[i] > key`, or `n` if there is none.
pub record IsUpperBound (a : List ℤ) (key : ℤ) (i : ℕ) : Type 0 where
  pub inside : i ≤ length a
  pub before : (j : ℕ) (x : ℤ) → j < i → get_elem? a j ≡ some x → x ≤ℤ key
  pub there : (x : ℤ) → get_elem? a i ≡ some x → key <ℤ x

-- The functions of the header; `none` is the index -1.
pub record Searching : Type 0 where
  pub binary_search_idx : List ℤ → ℤ → Option ℕ
  pub lower_bound : List ℤ → ℤ → ℕ
  pub upper_bound : List ℤ → ℤ → ℕ
  pub found :
      (a : List ℤ) (key : ℤ) (i : ℕ)
      → IsAscending a
      → binary_search_idx a key ≡ some i
      → get_elem? a i ≡ some key
  pub absent :
      (a : List ℤ) (key : ℤ) (i : ℕ)
      → IsAscending a
      → binary_search_idx a key ≡ none
      → get_elem? a i ≢ some key
  pub lower : (a : List ℤ) (key : ℤ) → IsAscending a → IsLowerBound a key (lower_bound a key)
  pub upper : (a : List ℤ) (key : ℤ) → IsAscending a → IsUpperBound a key (upper_bound a key)
