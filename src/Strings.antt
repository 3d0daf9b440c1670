-- ===== src/Strings.antt =====
-- ProperC/src/strings.h, whose functions are not written yet: what the header says of them. A buffer
-- is the list of its bytes, what a function writes to is given and returned, and a pointer into a
-- buffer is an index.
pub mod Search
pub mod Palindromes
pub mod Reference
mod Examples
use low_level.Prelude.{
  ℕ, zero, suc, ◌+◌, ◌%◌, ◌≤◌, ◌<◌, ◌≡◌, ◌↔◌, Bool, true, false, ◌&&◌, Option, none, some, List, [],
  ◌∷◌, ◌++◌, take, drop, length, ◌==◌,
}
use low_level.Prelude.Int.{ℤ, pos, ◌<ℤ◌}
use mathlib.Core.List.{reverse}
use low_level.Interview.Strfns.{Holds, Less}

-- Does the second string start with the first?
abbrev pub starts : List ℕ → List ℕ → Bool
starts [] s = true
starts (c ∷ t) [] = false
starts (c ∷ t) (d ∷ s) = (c == d) && starts t s

-- The terminator is part of the string here.
abbrev pub at_byte : ℕ → List ℕ → ℕ → Bool
at_byte c s j = starts (c ∷ []) (drop j (s ++ 0 ∷ []))

abbrev pub at_text : List ℕ → List ℕ → ℕ → Bool
at_text t s j = starts t (drop j s)

-- The first index up to `bound` that passes the test, or that there is none.
abbrev pub IsFirst : (ℕ → Bool) → ℕ → Option ℕ → Type 0
IsFirst p bound none = (j : ℕ) → j ≤ bound → p j ≡ false
IsFirst p bound (some i) = (i ≤ bound) × (p i ≡ true) × ((j : ℕ) → j < i → p j ≡ false)

abbrev pub zeros : ℕ → List ℕ
zeros zero = []
zeros (suc n) = 0 ∷ zeros n

-- The functions of the header. That a buffer has room is a hypothesis of the law; that buffers do
-- not overlap is part of the model. `(char)c` is the byte `c % 256`.
pub record StringsApi : Type 0 where
  pub my_strlen : List ℕ → ℕ
  pub my_strcpy : (dst src : List ℕ) → List ℕ
  pub my_strncpy : (dst src : List ℕ) → ℕ → List ℕ
  pub my_strcmp : List ℕ → List ℕ → ℤ
  pub my_strcat : (dst src : List ℕ) → List ℕ
  pub my_strchr : List ℕ → ℕ → Option ℕ
  pub my_strstr : (haystack needle : List ℕ) → Option ℕ
  pub str_reverse : List ℕ → List ℕ
  pub is_palindrome : List ℕ → Bool
  pub strlen_law : (b s : List ℕ) → Holds b s → my_strlen b ≡ length s
  pub strcpy_law :
      (dst src s : List ℕ)
      → Holds src s
      → length s < length dst
      → my_strcpy dst src ≡ s ++ 0 ∷ drop (suc (length s)) dst
  pub strncpy_law :
      (dst src s : List ℕ) (n : ℕ)
      → Holds src s
      → n ≤ length dst
      → my_strncpy dst src n ≡ take n (s ++ zeros n) ++ drop n dst
  pub strcmp_equal : (a b s : List ℕ) → Holds a s → Holds b s → my_strcmp a b ≡ pos 0
  pub strcmp_less : (a b s t : List ℕ) → Holds a s → Holds b t → Less s t → my_strcmp a b <ℤ pos 0
  pub strcmp_greater :
      (a b s t : List ℕ) → Holds a s → Holds b t → Less t s → pos 0 <ℤ my_strcmp a b
  pub strcat_law :
      (dst src s t : List ℕ)
      → Holds dst s
      → Holds src t
      → length s + length t < length dst
      → my_strcat dst src ≡ s ++ t ++ 0 ∷ drop (suc (length s + length t)) dst
  pub strchr_law :
      (b s : List ℕ) (c : ℕ) → Holds b s → IsFirst (at_byte (c % 256) s) (length s) (my_strchr b c)
  pub strstr_law :
      (b n s t : List ℕ) → Holds b s → Holds n t → IsFirst (at_text t s) (length s) (my_strstr b n)
  pub reverse_law :
      (s behind : List ℕ)
      → Holds (s ++ 0 ∷ behind) s
      → str_reverse (s ++ 0 ∷ behind) ≡ reverse s ++ 0 ∷ behind
  pub palindrome_law : (b s : List ℕ) → Holds b s → (is_palindrome b ≡ true) ↔ (reverse s ≡ s)
