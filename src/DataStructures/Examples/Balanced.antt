-- ===== src/DataStructures/Examples/Balanced.antt =====
-- The theorem on the search trees of ProperDS/src at concrete calls.
use low_level.Prelude.{List, [], ◌∷◌}
use low_level.Prelude.Int.{ℤ, pos}
use low_level.DataStructures.KeySet.{Call, insert, contains, remove}

-- The third insertion makes a rotation.
abbrev key_calls : List (Call ℤ)
key_calls =
    insert (pos 1)
    ∷ insert (pos 2)
    ∷ insert (pos 3)
    ∷ insert (pos 4)
    ∷ remove (pos 2)
    ∷ contains (pos 2)
    ∷ []
