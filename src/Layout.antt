-- ===== src/Layout.antt =====
-- ProperMachine/src/layout.h: its structs, and the two rules by which it says that a compiler lays
-- them out. A member is known by its size and its alignment, in bytes.
pub mod Placement
pub mod Examples
use low_level.Prelude.{ℕ, ◌+◌, ◌-◌, ◌*◌, ◌/◌, max, List, [], ◌∷◌}

pub record Member : Type 0 where
  pub size : ℕ
  pub align : ℕ

abbrev pub member : ℕ → ℕ → Member
member s a = record { size = s; align = a }

-- The next multiple of `a` from `n` on.
unfoldable pub align_up : ℕ → ℕ → ℕ
align_up n a = (n + (a - 1)) / a * a

-- Rule 1, from the end `n` of the members in front: the offsets, and the end of the last member.
unfoldable pub offsets : ℕ → List Member → List ℕ
offsets n [] = []
offsets n (m ∷ ms) = align_up n m.align ∷ offsets (align_up n m.align + m.size) ms

unfoldable pub end_of : ℕ → List Member → ℕ
end_of n [] = n
end_of n (m ∷ ms) = end_of (align_up n m.align + m.size) ms

unfoldable pub strictest : List Member → ℕ
strictest [] = 1
strictest (m ∷ ms) = max m.align (strictest ms)

-- Rule 2.
unfoldable pub size_of : List Member → ℕ
size_of ms = align_up (end_of 0 ms) (strictest ms)

-- A struct as a member of another.
abbrev pub nested : List Member → Member
nested ms = member (size_of ms) (strictest ms)

abbrev pub char : Member
char = member 1 1

abbrev pub short : Member
short = member 2 2

abbrev pub int : Member
int = member 4 4

abbrev pub long_long : Member
long_long = member 8 8

abbrev pub double : Member
double = member 8 8

abbrev pub l_char_int : List Member
l_char_int = char ∷ int ∷ []

abbrev pub l_char_int_char : List Member
l_char_int_char = char ∷ int ∷ char ∷ []

abbrev pub l_int_char_char : List Member
l_int_char_char = int ∷ char ∷ char ∷ []

abbrev pub l_char_double : List Member
l_char_double = char ∷ double ∷ []

abbrev pub l_nested : List Member
l_nested = char ∷ nested l_char_int ∷ []

abbrev pub l_just_char : List Member
l_just_char = char ∷ []

abbrev pub l_long_long_char : List Member
l_long_long_char = long_long ∷ char ∷ []

-- `char a[3]` has three times the size of a `char` and its alignment.
abbrev pub l_chars_short : List Member
l_chars_short = member 3 1 ∷ short ∷ []
