-- ===== src/Interview/Cstrings/Agreement.antt =====
-- What the two functions on words of ProperInterview/src/cstrings.h have to do with each other, and
-- with the techniques for them.
use low_level.Prelude.{ℕ, List, [], ◌∷◌}

-- Each word with the single space behind it, the last one without.
abbrev one_apart : List (List ℕ) → List (List ℕ × List ℕ)
one_apart [] = []
one_apart (w ∷ []) = (w, []) ∷ []
one_apart (w ∷ v ∷ ws) = (w, 32 ∷ []) ∷ one_apart (v ∷ ws)
