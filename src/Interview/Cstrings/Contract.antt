-- ===== src/Interview/Cstrings/Contract.antt =====
-- The contract of words_reverse and str_count_words of ProperInterview/src/cstrings.h.
use low_level.Prelude.{ℕ, ◌≡◌, List, length}
use mathlib.Core.List.{reverse}
use low_level.Interview.Cstrings.{is_gap, two_reversals, word_runs}
use low_level.Interview.Cstrings.Words.{join, AllWords, two_reversals-join}
use low_level.Interview.Cstrings.Count.{AllBlank, spaced, AllSpaced, word_runs-spaced}

-- The number that is returned, and the string that is left. Words for words_reverse are separated by
-- exactly one space; those for str_count_words stand in any whitespace.
pub record WordsApi : Type 0 where
  pub words_reverse : List ℕ → ℕ × List ℕ
  pub str_count_words : List ℕ → ℕ
  pub reverse_law :
      (ws : List (List ℕ))
      → AllWords is_gap ws
      → words_reverse (join ws) ≡ (length ws, join (reverse ws))
  pub count_law :
      (lead : List ℕ) (ws : List (List ℕ × List ℕ))
      → AllBlank lead
      → AllSpaced ws
      → str_count_words (spaced lead ws) ≡ length ws

-- Functions that keep the contract.
pub scanning : WordsApi
scanning = record {
  words_reverse = two_reversals;
  str_count_words = word_runs;
  reverse_law = two_reversals-join;
  count_law = word_runs-spaced;
}
