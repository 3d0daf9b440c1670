-- ===== src/Strings/Reference.antt =====
-- Functions that keep the laws of ProperC/src/strings.h, for the tests.
use low_level.Prelude.{
  ℕ, zero, suc, ◌+◌, ◌%◌, ◌<◌, ◌≡◌, ◌↔◌, refl, sym, ap, ◌∙◌, Bool, true, false, Option, none, some,
  List, [], ◌∷◌, ◌++◌, take, drop, length, if◌then◌else◌, Bool-cases, inl, inr, arith, ℕ_discrete,
}
use mathlib.Core.List.{reverse, List-discrete}
use mathlib.Core.Path.{subst}
use low_level.Interview.Texts.{text, text-append, text-Holds, text_functions}
use low_level.Strings.{at_byte, at_text, IsFirst, zeros, StringsApi}

-- From the index `i` on, over the `n` indices that follow it too.
find_from : (ℕ → Bool) → (n i : ℕ) → Option ℕ
find_from p zero i = if p i then some i else none
find_from p (suc n) i = let rest = find_from p n (suc i) in if p i then some i else rest

one_more :
    (p : ℕ → Bool) (i : ℕ)
    → ((j : ℕ) → j < i → p j ≡ false)
    → p i ≡ false
    → (j : ℕ) → j < suc i
    → p j ≡ false
one_more p i h e j lt = elim (ℕ_discrete j i) [
  | yes same ↦ ap p same ∙ e
  | no other ↦ h j (omega (arith, lt, other))
]

find_from-IsFirst :
    (p : ℕ → Bool) (n i : ℕ) → ((j : ℕ) → j < i → p j ≡ false) → IsFirst p (i + n) (find_from p n i)
unfolding find_from
find_from-IsFirst p zero i h = elim (Bool-cases (p i)) [
  | inl found ↦ rw found (omega arith, found, h)
  | inr other ↦ rw other (λ j le. one_more p i h other j (omega (arith, le)))
]
find_from-IsFirst p (suc n) i h = elim (Bool-cases (p i)) [
  | inl found ↦ rw found (omega arith, found, h)
  | inr other ↦ rw other (
      subst (λ (b : ℕ). IsFirst p b (find_from p n (suc i))) {x = suc i + n} {y = i + suc n}
        (omega arith) (find_from-IsFirst p n (suc i) (one_more p i h other)))
]

find : (ℕ → Bool) → ℕ → Option ℕ
find p bound = find_from p bound 0

find-IsFirst : (p : ℕ → Bool) (bound : ℕ) → IsFirst p bound (find p bound)
unfolding find
find-IsFirst p bound =
    subst (λ (b : ℕ). IsFirst p b (find_from p bound 0)) {x = 0 + bound} {y = bound} (omega arith)
      (find_from-IsFirst p bound 0 (λ j lt. absurd (omega (arith, lt))))

drop-front : (s t : List ℕ) → drop (length s) (s ++ t) ≡ t
drop-front [] t = refl
drop-front (c ∷ s) t = drop-front s t

decided : {A : Type 0} → Dec A → Bool
decided (yes a) = true
decided (no f) = false

decided_iff : {A : Type 0} (d : Dec A) → (decided d ≡ true) ↔ A
unfolding decided
decided_iff (yes a) = ((λ e. a), λ b. refl)
decided_iff (no f) = ((λ e. cc), λ b. absurd (f b))

same_reversed : (s : List ℕ) → Dec (reverse s ≡ s)
same_reversed s = List-discrete ℕ_discrete (reverse s) s

pub strings : StringsApi
strings = record {
  my_strlen = text_functions.my_strlen;
  my_strcpy = text_functions.my_strcpy;
  my_strncpy = λ dst src n. take n (text src ++ zeros n) ++ drop n dst;
  my_strcmp = text_functions.my_strcmp;
  my_strcat = text_functions.my_strcat;
  my_strchr = λ b c. find (at_byte (c % 256) (text b)) (length (text b));
  my_strstr = λ b n. find (at_text (text n) (text b)) (length (text b));
  str_reverse = λ b. reverse (text b) ++ drop (length (text b)) b;
  is_palindrome = λ b. decided (same_reversed (text b));
  strlen_law = text_functions.strlen_law;
  strcpy_law = text_functions.strcpy_law;
  strncpy_law =
      λ dst src s n h room. ap (λ t. take n (t ++ zeros n) ++ drop n dst) (text-Holds src s h);
  strcmp_equal = text_functions.strcmp_equal;
  strcmp_less = text_functions.strcmp_less;
  strcmp_greater = text_functions.strcmp_greater;
  strcat_law = text_functions.strcat_law;
  strchr_law = λ b s c h.
      subst (λ t. IsFirst (at_byte (c % 256) s) (length s) (find (at_byte (c % 256) t) (length t)))
        (sym (text-Holds b s h)) (find-IsFirst (at_byte (c % 256) s) (length s));
  strstr_law = λ b n s t h k.
      subst (λ u. IsFirst (at_text t s) (length s) (find (at_text u (text b)) (length (text b))))
        (sym (text-Holds n t k))
        (subst (λ u. IsFirst (at_text t s) (length s) (find (at_text t u) (length u)))
          (sym (text-Holds b s h)) (find-IsFirst (at_text t s) (length s)));
  reverse_law = λ s behind h.
      ap (λ t. reverse t ++ drop (length t) (s ++ 0 ∷ behind)) (text-append s behind h.no_nul)
      ∙ ap (λ r. reverse s ++ r) (drop-front s (0 ∷ behind));
  palindrome_law = λ b s h.
      subst (λ t. (decided (same_reversed t) ≡ true) ↔ (reverse s ≡ s)) (sym (text-Holds b s h))
        (decided_iff (same_reversed s));
}
