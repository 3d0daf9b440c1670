-- ===== src/Interview/Cstrings.antt =====
-- ProperInterview/src/cstrings.h. A string is the list of its bytes, without the terminator, and an
-- int has 32 bits.
pub mod Roundtrip
pub mod Words
pub mod Count
pub mod Contract
pub mod Agreement
use low_level.Prelude.{
  ℕ, zero, suc, ◌+◌, ◌-◌, ◌*◌, ◌^◌, ◌≡◌, Bool, true, false, ◌&&◌, ◌||◌, Option, none, some, List,
  [], ◌∷◌, ◌++◌, leb, ◌==◌, if◌then◌else◌, ◌>>=◌,
}
use mathlib.Core.List.{reverse}
use low_level.Prelude.Int.{ℤ, pos, negsuc, sub_ℕ, leb_ℤ}

abbrev pub is_digit : ℕ → Bool
is_digit c = leb 48 c && leb c 57

-- The digits that follow `acc`, and nothing else.
unfoldable pub number : ℕ → List ℕ → Option ℕ
number acc [] = some acc
number acc (c ∷ s) = let rest = number (10 * acc + (c - 48)) s in if is_digit c then rest else none

-- One or more digits.
abbrev pub digits : List ℕ → Option ℕ
digits [] = none
digits (c ∷ s) = number 0 (c ∷ s)

-- An optional single sign and digits: '+' is 43, '-' is 45.
unfoldable pub parsed : List ℕ → Option ℤ
parsed [] = none
parsed (c ∷ s) =
    if c == 43
    then (digits s >>= λ n. some (pos n))
    else (if c == 45
        then (digits s >>= λ n. some (sub_ℕ 0 n))
        else (digits (c ∷ s) >>= λ n. some (pos n)))

abbrev pub fits_int : ℤ → Bool
fits_int z = leb_ℤ (negsuc (2 ^ 31 - 1)) z && leb_ℤ z (pos (2 ^ 31 - 1))

-- The value that is returned, and `*out`, which is given.
pub record AtoiApi : Type 0 where
  pub my_atoi : List ℕ → ℤ → ℤ × ℤ
  pub parses :
      (s : List ℕ) (z out : ℤ) → parsed s ≡ some z → fits_int z ≡ true → my_atoi s out ≡ (pos 0, z)
  pub overflows :
      (s : List ℕ) (z out : ℤ)
      → parsed s ≡ some z
      → fits_int z ≡ false
      → my_atoi s out ≡ (negsuc 1, out)
  pub refuses : (s : List ℕ) (out : ℤ) → parsed s ≡ none → my_atoi s out ≡ (negsuc 0, out)

abbrev pub is_gap : ℕ → Bool
is_gap c = c == 32

-- Each word is reversed where it stands; `word` is what has been read of one, reversed.
unfoldable pub reverse_each : (word : List ℕ) → List ℕ → List ℕ
reverse_each word [] = word
reverse_each word (c ∷ s) = elim (is_gap c) [
  | true ↦ word ++ c ∷ reverse_each [] s
  | false ↦ reverse_each (c ∷ word) s
]

abbrev pub gaps : List ℕ → ℕ
gaps [] = 0
gaps (c ∷ s) = let rest = gaps s in if is_gap c then suc rest else rest

abbrev pub word_count : List ℕ → ℕ
word_count [] = 0
word_count (c ∷ s) = suc (gaps (c ∷ s))

-- The technique that the header names: reverse the whole string, then each word.
unfoldable pub two_reversals : List ℕ → ℕ × List ℕ
two_reversals s = (word_count s, reverse_each [] (reverse s))

-- isspace in the "C" locale: ' ', and '\t' to '\r'.
abbrev pub is_space : ℕ → Bool
is_space c = (c == 32) || (leb 9 c && leb c 13)

-- `inside` says whether the byte before was one of a word.
unfoldable pub count_words : (inside : Bool) → List ℕ → ℕ
count_words inside [] = 0
count_words inside (c ∷ s) = elim (is_space c) [
  | true ↦ count_words false s
  | false ↦ (if inside then 0 else 1) + count_words true s
]

abbrev pub word_runs : List ℕ → ℕ
word_runs s = count_words false s
