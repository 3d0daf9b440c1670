-- ===== src/Interview/Strfns.antt =====
-- ProperInterview/src/strfns.h: the basic functions on strings. A buffer is the list of its bytes,
-- and what a function writes to is given and returned.
pub mod Concat
use low_level.Prelude.{
  ℕ, suc, ◌+◌, ◌≤◌, ◌<◌, ◌≡◌, ◌≢◌, ◌⊎◌, List, [], ◌∷◌, ◌++◌, take, drop, length,
}
use low_level.Prelude.Int.{ℤ, pos, ◌<ℤ◌}

abbrev pub NoNul : List ℕ → Type 0
NoNul [] = Unit
NoNul (c ∷ s) = (c ≢ 0) × NoNul s

-- The buffer holds the string `s`: its bytes, the terminator, and whatever follows.
pub record Holds (buffer s : List ℕ) : Type 0 where
  pub behind : List ℕ
  pub split : buffer ≡ s ++ 0 ∷ behind
  pub no_nul : NoNul s

-- Lexicographic order of bytes.
abbrev pub Less : List ℕ → List ℕ → Type 0
Less s [] = ⊥
Less [] (d ∷ t) = Unit
Less (c ∷ s) (d ∷ t) = (c < d) ⊎ ((c ≡ d) × Less s t)

-- The functions of the header. That a buffer has room is a hypothesis of the law; that buffers do
-- not overlap is part of the model.
pub record StrfnsApi : Type 0 where
  pub my_strlen : List ℕ → ℕ
  pub my_strcpy : (dst src : List ℕ) → List ℕ
  pub my_strcmp : List ℕ → List ℕ → ℤ
  pub my_memcpy : (dst src : List ℕ) → ℕ → List ℕ
  pub my_strcat : (dst src : List ℕ) → List ℕ
  pub strlen_law : (buffer s : List ℕ) → Holds buffer s → my_strlen buffer ≡ length s
  pub strcpy_law :
      (dst src s : List ℕ)
      → Holds src s
      → length s < length dst
      → my_strcpy dst src ≡ s ++ 0 ∷ drop (suc (length s)) dst
  pub strcmp_equal : (a b s : List ℕ) → Holds a s → Holds b s → my_strcmp a b ≡ pos 0
  pub strcmp_less : (a b s t : List ℕ) → Holds a s → Holds b t → Less s t → my_strcmp a b <ℤ pos 0
  pub strcmp_greater :
      (a b s t : List ℕ) → Holds a s → Holds b t → Less t s → pos 0 <ℤ my_strcmp a b
  pub memcpy_law :
      (dst src : List ℕ) (n : ℕ)
      → n ≤ length dst
      → n ≤ length src
      → my_memcpy dst src n ≡ take n src ++ drop n dst
  pub strcat_law :
      (dst src s t : List ℕ)
      → Holds dst s
      → Holds src t
      → length s + length t < length dst
      → my_strcat dst src ≡ s ++ t ++ 0 ∷ drop (suc (length s + length t)) dst
