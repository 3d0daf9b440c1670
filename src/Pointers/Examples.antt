-- ===== src/Pointers/Examples.antt =====
-- Runs of the functions of ProperC/src/pointers.c, and their theorems at arrays.
use low_level.Prelude.{
  ℕ, ◌*◌, ◌≡◌, ◌↔◌, refl, none, some, List, [], ◌∷◌, inl, arith, ◌==◌, if◌then◌else◌,
}
use low_level.Prelude.Int.{ℤ, pos}
use low_level.Pointers.{Memory, swap_int, reverse_array, my_memcpy, my_memmove, rotate_left}
use low_level.Pointers.Swap.{swap_int-iff_equal}
use low_level.Pointers.Reverse.{IsReversed, reverse_array-IsReversed}
use low_level.Pointers.Copy.{IsCopied, my_memcpy-IsCopied}

abbrev memory : Memory
memory p = pos (10 * p)

abbrev numbers : List ℤ
numbers = pos 1 ∷ pos 2 ∷ pos 3 ∷ pos 4 ∷ pos 5 ∷ []

abbrev bytes : List ℕ
bytes = 1 ∷ 2 ∷ 3 ∷ 4 ∷ 5 ∷ []

runs :
    (swap_int memory 1 2 1 ≡ pos 10)
    × (swap_int memory 1 2 2 ≡ pos 10)
    × (reverse_array numbers 4 ≡ some (pos 4 ∷ pos 3 ∷ pos 2 ∷ pos 1 ∷ pos 5 ∷ []))
    × (my_memcpy bytes 0 2 3 ≡ some (record { bytes = 3 ∷ 4 ∷ 5 ∷ 4 ∷ 5 ∷ []; result = none }))
unfolding swap_int reverse_array my_memcpy
runs = (refl, refl, refl, refl)

-- The bodies that do nothing: pointers.h asks for a copy, and for 3, 4, 5, 1, 2.
idle :
    (my_memmove bytes 0 2 3 ≡ some (record { bytes = bytes; result = some 0 }))
    × (rotate_left numbers 5 2 ≡ numbers)
unfolding my_memmove rotate_left
idle = (refl, refl)

swap_int-iff_equal_test :
    ((c : ℕ) → swap_int memory 1 2 c ≡ (if c == 2 then memory 1 else memory c))
    × (((swap_int memory 1 2 1 ≡ memory 2) × (swap_int memory 1 2 2 ≡ memory 1))
        ↔ (memory 1 ≡ memory 2))
swap_int-iff_equal_test = swap_int-iff_equal memory 1 2

reverse_array-IsReversed_example :
    (out : List ℤ) × (reverse_array numbers 4 ≡ some out) × IsReversed numbers 4 out
reverse_array-IsReversed_example = reverse_array-IsReversed numbers 4 (omega arith)

my_memcpy-IsCopied_test :
    (out : List ℕ) × (my_memcpy bytes 1 2 3 ≡ some (record { bytes = out; result = none }))
    × IsCopied bytes 1 2 0 3 out
my_memcpy-IsCopied_test =
    my_memcpy-IsCopied bytes 1 2 3 (inl (omega arith)) (omega arith) (omega arith)
