-- ===== src/Interview/Cstrings/Count.antt =====
-- str_count_words of ProperInterview/src/cstrings.h.
use low_level.Prelude.{
  ℕ, suc, ◌<◌, ◌≡◌, refl, sym, ap, ◌∙◌, true, false, List, [], ◌∷◌, ◌++◌, length, append-nil, arith,
}
use low_level.Net.Bytes.{none_of, none_of-cons}
use low_level.Interview.Cstrings.{is_space, count_words, word_runs}
use low_level.Interview.Cstrings.Words.{IsWord}

-- Whitespace only.
abbrev pub AllBlank : List ℕ → Type 0
AllBlank [] = Unit {0}
AllBlank (c ∷ s) = (is_space c ≡ true) × AllBlank s

-- Words, each with the whitespace behind it, after some whitespace.
abbrev pub spaced : List ℕ → List (List ℕ × List ℕ) → List ℕ
spaced lead [] = lead
spaced lead ((w, gap) ∷ ws) = lead ++ (w ++ spaced gap ws)

-- Between two words there is some whitespace.
abbrev pub AllSpaced : List (List ℕ × List ℕ) → Type 0
AllSpaced [] = Unit {0}
AllSpaced ((w, gap) ∷ []) = IsWord is_space w × AllBlank gap
AllSpaced ((w, gap) ∷ v ∷ ws) =
    IsWord is_space w × AllBlank gap × (0 < length gap) × AllSpaced (v ∷ ws)

count_words-blank : (s t : List ℕ) → AllBlank s → count_words false (s ++ t) ≡ count_words false t
unfolding count_words
count_words-blank [] t blank = refl
count_words-blank (c ∷ s) t (here, blank) = rw (count_words, here) (count_words-blank s t blank)

count_words-gap :
    (s t : List ℕ) → AllBlank s → 0 < length s → count_words true (s ++ t) ≡ count_words false t
unfolding count_words
count_words-gap [] t blank h = absurd (omega (arith, h))
count_words-gap (c ∷ s) t (here, blank) h = rw (count_words, here) (count_words-blank s t blank)

count_words-inside :
    (w t : List ℕ) → none_of is_space w ≡ true → count_words true (w ++ t) ≡ count_words true t
unfolding count_words
count_words-inside [] t plain = refl
count_words-inside (c ∷ w) t plain =
    let (here, rest) = none_of-cons is_space c w plain in
    rw (count_words, here) (omega (arith, count_words-inside w t rest))

count_words-word :
    (w t : List ℕ) → IsWord is_space w → count_words false (w ++ t) ≡ suc (count_words true t)
unfolding count_words
count_words-word [] t word = absurd (omega (arith, word.0))
count_words-word (c ∷ w) t (h, plain) =
    let (here, rest) = none_of-cons is_space c w plain in
    rw (count_words, here) (omega (arith, count_words-inside w t rest))

blank_end : (s : List ℕ) → AllBlank s → count_words true s ≡ 0
unfolding count_words
blank_end [] blank = refl
blank_end (c ∷ s) (here, blank) =
    rw (count_words, here)
      (ap (count_words false) (sym (append-nil s)) ∙ count_words-blank s [] blank)

-- For words that hold no whitespace, in any amounts of whitespace, with some between any two words:
-- word_runs returns the number of the words.
pub word_runs-spaced :
    (lead : List ℕ) (ws : List (List ℕ × List ℕ))
    → AllBlank lead
    → AllSpaced ws
    → word_runs (spaced lead ws) ≡ length ws
unfolding count_words
word_runs-spaced lead [] blank words =
    ap (count_words false) (sym (append-nil lead)) ∙ count_words-blank lead [] blank
word_runs-spaced lead ((w, gap) ∷ []) blank (word, blank') =
    count_words-blank lead (w ++ gap) blank
    ∙ count_words-word w gap word
    ∙ ap suc (blank_end gap blank')
word_runs-spaced lead ((w, gap) ∷ (v, gap') ∷ ws) blank (word, blank', h, words) =
    count_words-blank lead (w ++ spaced gap ((v, gap') ∷ ws)) blank
    ∙ count_words-word w (spaced gap ((v, gap') ∷ ws)) word
    ∙ ap suc (
        count_words-gap gap (v ++ spaced gap' ws) blank' h
        ∙ word_runs-spaced [] ((v, gap') ∷ ws) tt words)
