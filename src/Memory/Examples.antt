-- ===== src/Memory/Examples.antt =====
-- The theorems on ProperC/src/memory.h at concrete values.
use low_level.Prelude.{ℕ, ◌≡◌, refl, List, [], ◌∷◌, ◌++◌, length, arith}
use low_level.Prelude.Int.{ℤ, pos}
use low_level.Interview.Strfns.{Holds}
use low_level.Strings.Reference.{strings}
use low_level.Memory.{IsIntVec, elements, empty_vec}
use low_level.Memory.Calls.{accepted, push_all, vec_push-accepted, my_strdup-my_strcmp}
use low_level.Memory.Reference.{memory, my_strdup-made}

abbrev three_values : List ℤ
three_values = pos 1 ∷ pos 2 ∷ pos 3 ∷ []

vec_push-accepted_test :
    IsIntVec (push_all memory empty_vec three_values).1
    × (length (push_all memory empty_vec three_values).0 ≡ length three_values)
    × (elements (push_all memory empty_vec three_values).1
        ≡ elements empty_vec ++ accepted three_values (push_all memory empty_vec three_values).0)
vec_push-accepted_test =
    vec_push-accepted memory empty_vec three_values (record { inside = omega arith; room = refl })

abbrev letter : List ℕ
letter = 97 ∷ 0 ∷ 7 ∷ []

letter-Holds : Holds letter (97 ∷ [])
letter-Holds = record { behind = 7 ∷ []; split = refl; no_nul = ((λ e. omega (arith, e)), tt) }

my_strdup-my_strcmp_test :
    Holds (97 ∷ 0 ∷ []) (97 ∷ [])
    × (strings.my_strcmp letter (97 ∷ 0 ∷ []) ≡ pos 0)
    × (strings.my_strlen (97 ∷ 0 ∷ []) ≡ strings.my_strlen letter)
my_strdup-my_strcmp_test =
    my_strdup-my_strcmp memory strings letter (97 ∷ []) (97 ∷ 0 ∷ []) letter-Holds
      (my_strdup-made letter (97 ∷ []) letter-Holds)
