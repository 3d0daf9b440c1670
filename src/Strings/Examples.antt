-- ===== src/Strings/Examples.antt =====
-- The theorems on ProperC/src/strings.h at concrete strings.
use low_level.Prelude.{ℕ, ◌≡◌, ◌↔◌, refl, true, List, [], ◌∷◌, arith}
use low_level.Interview.Strfns.{Holds}
use low_level.Strings.Reference.{strings}
use low_level.Strings.Search.{my_strstr-my_strchr}
use low_level.Strings.Palindromes.{is_palindrome-str_reverse}

-- "ab" with a byte behind it, and "b".
abbrev haystack : List ℕ
haystack = 97 ∷ 98 ∷ 0 ∷ 7 ∷ []

abbrev needle : List ℕ
needle = 98 ∷ 0 ∷ []

haystack-Holds : Holds haystack (97 ∷ 98 ∷ [])
haystack-Holds = record {
  behind = 7 ∷ [];
  split = refl;
  no_nul = ((λ e. omega (arith, e)), ((λ e. omega (arith, e)), tt));
}

needle-Holds : Holds needle (98 ∷ [])
needle-Holds = record { behind = []; split = refl; no_nul = ((λ e. omega (arith, e)), tt) }

my_strstr-my_strchr_test : strings.my_strstr haystack needle ≡ strings.my_strchr haystack 98
my_strstr-my_strchr_test =
    my_strstr-my_strchr strings haystack needle (97 ∷ 98 ∷ []) 98 haystack-Holds needle-Holds
      (omega arith) (λ e. omega (arith, e))

is_palindrome-str_reverse_test :
    (strings.is_palindrome haystack ≡ true) ↔ (strings.str_reverse haystack ≡ haystack)
is_palindrome-str_reverse_test =
    is_palindrome-str_reverse strings haystack (97 ∷ 98 ∷ []) haystack-Holds
