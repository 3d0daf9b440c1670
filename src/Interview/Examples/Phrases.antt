-- ===== src/Interview/Examples/Phrases.antt =====
-- The theorems on the words of ProperInterview/src/cstrings.h at concrete strings.
use low_level.Prelude.{ℕ, List, [], ◌∷◌}

-- "the", "fox".
abbrev words : List (List ℕ)
words = (116 ∷ 104 ∷ 101 ∷ []) ∷ (102 ∷ 111 ∷ 120 ∷ []) ∷ []
