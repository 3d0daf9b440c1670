-- ===== src/Interview/Lru.antt =====
-- ProperInterview/src/lru.h: a cache that evicts the least recently used entry. Keys and values are
-- not negative.
pub mod Recency
pub mod Survival
use low_level.Prelude.{
  ℕ, zero, suc, ◌+◌, ◌≤◌, ◌<◌, ◌≡◌, Bool, true, false, Option, none, some, List, [], ◌∷◌, length,
  ◌==◌, if◌then◌else◌,
}
use low_level.Prelude.Int.{ℤ, pos, negsuc}

-- A key and its value.
abbrev pub Entry : Type 0
Entry = ℕ × ℕ

unfoldable pub lookup : ℕ → List Entry → Option ℕ
lookup k [] = none
lookup k ((j, v) ∷ xs) = let rest = lookup k xs in if j == k then some v else rest

unfoldable pub without : ℕ → List Entry → List Entry
without k [] = []
without k ((j, v) ∷ xs) = let rest = without k xs in if j == k then rest else (j, v) ∷ rest

-- Promoted to most recently used.
abbrev pub used : ℕ → ℕ → List Entry → List Entry
used k v xs = (k, v) ∷ without k xs

-- Without the least recently used entry.
unfoldable pub evicted : List Entry → List Entry
evicted [] = []
evicted (x ∷ []) = []
evicted (x ∷ y ∷ xs) = x ∷ evicted (y ∷ xs)

-- The functions of the header, while `malloc` succeeds. `entries` are those of the cache, the most
-- recently used one first. After lru_destroy there is no cache.
pub record LruApi (LRU : Type 0) : Type 0 where
  pub entries : LRU → List Entry
  pub capacity : LRU → ℕ
  pub lru_create : ℕ → LRU
  pub lru_destroy : LRU → Unit {0}
  pub lru_get : LRU → ℕ → ℤ × LRU
  pub lru_put : LRU → ℕ → ℕ → LRU
  pub lru_len : LRU → ℕ
  pub create_law : (n : ℕ) → 1 ≤ n → (entries (lru_create n) ≡ []) × (capacity (lru_create n) ≡ n)
  pub get_capacity : (c : LRU) (k : ℕ) → capacity (lru_get c k).1 ≡ capacity c
  pub put_capacity : (c : LRU) (k v : ℕ) → capacity (lru_put c k v) ≡ capacity c
  pub get_hit :
      (c : LRU) (k v : ℕ)
      → lookup k (entries c) ≡ some v
      → ((lru_get c k).0 ≡ pos v) × (entries (lru_get c k).1 ≡ used k v (entries c))
  pub get_miss :
      (c : LRU) (k : ℕ)
      → lookup k (entries c) ≡ none
      → ((lru_get c k).0 ≡ negsuc 0) × (entries (lru_get c k).1 ≡ entries c)
  pub put_present :
      (c : LRU) (k v w : ℕ)
      → lookup k (entries c) ≡ some w
      → entries (lru_put c k v) ≡ used k v (entries c)
  pub put_new :
      (c : LRU) (k v : ℕ)
      → lookup k (entries c) ≡ none
      → length (entries c) < capacity c
      → entries (lru_put c k v) ≡ (k, v) ∷ entries c
  pub put_full :
      (c : LRU) (k v : ℕ)
      → lookup k (entries c) ≡ none
      → length (entries c) ≡ capacity c
      → entries (lru_put c k v) ≡ (k, v) ∷ evicted (entries c)
  pub len_law : (c : LRU) → lru_len c ≡ length (entries c)
