-- ===== src/Strings/Palindromes.antt =====
-- Reversing a string, for ProperC/src/strings.h.
use low_level.Prelude.{
  ℕ, zero, suc, ◌≡◌, ◌↔◌, refl, sym, ap, ◌∙◌, true, List, [], ◌∷◌, ◌++◌, take, length,
  length-append, arith,
}
use mathlib.Core.List.{reverse, reverse-cons}
use mathlib.Core.Path.{subst}
use low_level.Interview.Strfns.{Holds}
use low_level.Strings.{StringsApi}

length-reverse : (s : List ℕ) → length (reverse s) ≡ length s
length-reverse [] = refl
length-reverse (c ∷ s) =
    ap length (reverse-cons c s)
    ∙ omega (arith, length-append (reverse s) (c ∷ []), length-reverse s)

take-front : (s t : List ℕ) (n : ℕ) → length s ≡ n → take n (s ++ t) ≡ s
take-front [] t zero e = refl
take-front [] t (suc n) e = absurd (omega (arith, e))
take-front (c ∷ s) t zero e = absurd (omega (arith, e))
take-front (c ∷ s) t (suc n) e = ap (λ u. c ∷ u) (take-front s t n (omega (arith, e)))

-- is_palindrome answers true exactly for the buffers that str_reverse leaves as they are.
pub is_palindrome-str_reverse :
    (api : StringsApi) (b s : List ℕ)
    → Holds b s
    → (api.is_palindrome b ≡ true) ↔ (api.str_reverse b ≡ b)
is_palindrome-str_reverse api b s h =
    let reversed : api.str_reverse b ≡ reverse s ++ 0 ∷ h.behind =
      ap api.str_reverse h.split ∙ api.reverse_law s h.behind (subst (λ t. Holds t s) h.split h) in
    (
      λ yes_it_is.
          reversed
          ∙ ap (λ t. t ++ 0 ∷ h.behind) ((api.palindrome_law b s h).0 yes_it_is)
          ∙ sym h.split,
      λ unchanged. (api.palindrome_law b s h).1 (
          sym (take-front (reverse s) (0 ∷ h.behind) (length s) (length-reverse s))
          ∙ ap (take (length s)) (sym reversed ∙ unchanged ∙ h.split)
          ∙ take-front s (0 ∷ h.behind) (length s) refl),
    )
