-- ===== src/DataStructures/HashChain/Growth.antt =====
-- How a table of ProperDS/src/hashchain.h grows, and that no entry is lost on the way.
use low_level.Prelude.{ℕ, ◌*◌, ◌<◌, ◌≡◌, ◌⊎◌, Option, some, List, [], ◌∷◌, if◌then◌else◌}
use low_level.Prelude.Int.{ℤ}
use low_level.DataStructures.Fnv.{key_eq}
use low_level.DataStructures.HashChain.{HashChain, value_of}
use low_level.DataStructures.HashChain.Updates.{IsLoaded}
use low_level.DataStructures.HashChain.Contract.{HashChainApi}

-- The value that a key has after puts, the last of which counts, if it had `old` before.
unfoldable pub latest : List (List ℕ × ℤ) → List ℕ → Option ℤ → Option ℤ
latest [] j old = old
latest ((k, v) ∷ puts) j old = latest puts j (if key_eq j k then some v else old)

-- Eight buckets, or fewer than twice as many as there are keys.
abbrev pub IsSized : HashChain → Type 0
IsSized h = (h.nbuckets ≡ 8) ⊎ (h.nbuckets < 2 * h.len)

module _ (api : HashChainApi) where
  unfoldable pub put_all : List (List ℕ × ℤ) → HashChain → HashChain
  put_all [] h = h
  put_all ((k, v) ∷ puts) h = put_all puts (api.hashchain_put h k v).1

  -- What the puts make of `h`.
  abbrev Outcome : List (List ℕ × ℤ) → HashChain → HashChain → Type 0
  Outcome puts h g =
      IsLoaded g × IsSized g × ((j : List ℕ) → value_of g j ≡ latest puts j (value_of h j))
