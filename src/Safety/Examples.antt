-- ===== src/Safety/Examples.antt =====
-- Runs of the functions of ProperC/src/safety.c, and their theorems at short strings.
use low_level.Prelude.{
  ℕ, ◌+◌, ◌≡◌, refl, true, false, none, some, List, [], ◌∷◌, ◌++◌, arith, length, take, drop, ltb,
  if◌then◌else◌,
}
use low_level.Safety.{safe_strcpy, safe_strcat, copy_n_safe}
use low_level.Safety.Concat.{IsConcat, returned, safe_strcat-IsConcat, safe_strcat_zero}
use low_level.Safety.Copy.{safe_strcpy-IsConcat, copy_n_safe_lem}

abbrev foo : List ℕ
foo = 102 ∷ 111 ∷ 111 ∷ []

abbrev bar : List ℕ
bar = 98 ∷ 97 ∷ 114 ∷ []

abbrev six : List ℕ
six = 9 ∷ 9 ∷ 9 ∷ 9 ∷ 9 ∷ 9 ∷ []

-- strlcat would return 6 for the second.
runs :
    (safe_strcpy six 3 (foo ++ 0 ∷ [])
      ≡ some (record { dst = 102 ∷ 111 ∷ 0 ∷ 9 ∷ 9 ∷ 9 ∷ []; result = 3 }))
    × (safe_strcat (foo ++ 0 ∷ 9 ∷ []) 5 (bar ++ 0 ∷ [])
        ≡ some (record { dst = 102 ∷ 111 ∷ 111 ∷ 98 ∷ 0 ∷ []; result = 5 }))
unfolding safe_strcpy safe_strcat
runs = (refl, refl)

safe_strcat-IsConcat_example :
    (out : List ℕ) × (safe_strcat (foo ++ 0 ∷ 9 ∷ []) 5 (bar ++ 0 ∷ [])
      ≡ some (record { dst = out; result = returned (length bar + length foo) 5 }))
    × IsConcat foo (foo ++ 0 ∷ 9 ∷ []) bar 5 out
safe_strcat-IsConcat_example =
    safe_strcat-IsConcat foo (9 ∷ []) bar [] 5 (omega arith) (omega arith) (omega arith)
      (omega arith) (omega arith)

safe_strcat_zero_test : safe_strcat six 0 (foo ++ 0 ∷ []) ≡ none
safe_strcat_zero_test = safe_strcat_zero six (foo ++ 0 ∷ []) (omega arith)

safe_strcpy-IsConcat_example :
    (out : List ℕ) × (safe_strcpy six 3 (foo ++ 0 ∷ [])
      ≡ some (record { dst = out; result = length foo }))
    × IsConcat [] six foo 3 out
safe_strcpy-IsConcat_example =
    safe_strcpy-IsConcat six foo [] 3 (omega arith) (omega arith) (omega arith)

copy_n_safe_lem_example :
    copy_n_safe six 4 foo 3
    ≡ some (
        if ltb 4 3
        then record { dst = six; copied = false }
        else record { dst = take 3 foo ++ drop 3 six; copied = true })
copy_n_safe_lem_example = copy_n_safe_lem six 4 foo 3 (omega arith) (omega arith)
