-- ===== src/Layout/Examples.antt =====
-- The sizes and offsets that ProperMachine/src/layout.c asks for.
use low_level.Prelude.{◌+◌, ◌*◌, ◌<◌, ◌≡◌, refl, [], ◌∷◌, arith}
use low_level.Layout.{
  align_up, offsets, end_of, strictest, size_of, l_char_int, l_char_int_char, l_int_char_char,
  l_char_double, l_nested, l_just_char, l_long_long_char, l_chars_short,
}
use low_level.Layout.Placement.{Multiple, Placed, size_of-Placed, array_element-Multiple}

sizes_test :
    (size_of l_char_int
      ∷ size_of l_char_int_char
      ∷ size_of l_int_char_char
      ∷ size_of l_char_double
      ∷ size_of l_nested
      ∷ size_of l_just_char
      ∷ size_of l_long_long_char
      ∷ size_of l_chars_short
      ∷ [])
    ≡ 8 ∷ 12 ∷ 8 ∷ 16 ∷ 12 ∷ 1 ∷ 16 ∷ 6 ∷ []
unfolding size_of align_up end_of strictest
sizes_test = refl

offsets_test :
    (offsets 0 l_char_int
      ∷ offsets 0 l_char_double
      ∷ offsets 0 l_nested
      ∷ offsets 0 l_chars_short
      ∷ [])
    ≡ (0 ∷ 4 ∷ []) ∷ (0 ∷ 8 ∷ []) ∷ (0 ∷ 4 ∷ []) ∷ (0 ∷ 4 ∷ []) ∷ []
unfolding offsets size_of align_up end_of strictest
offsets_test = refl

size_of-Placed_test :
    Placed (size_of l_char_int_char) l_char_int_char (offsets 0 l_char_int_char) 0
    × Multiple (strictest l_char_int_char) (size_of l_char_int_char)
    × (size_of l_char_int_char < end_of 0 l_char_int_char + strictest l_char_int_char)
size_of-Placed_test = size_of-Placed l_char_int_char (omega arith, (omega arith, (omega arith, tt)))

two_divides_four : Multiple 2 (strictest l_char_int)
unfolding strictest
two_divides_four = (2, refl)

array_element-Multiple_test : Multiple 2 (3 * size_of l_char_int + 6)
array_element-Multiple_test = array_element-Multiple l_char_int 3 6 2 two_divides_four (3, refl)
