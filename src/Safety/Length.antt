-- ===== src/Safety/Length.antt =====
-- Strings that end at a 0, and the bytes that the loops of ProperC/src/safety.c write.
use low_level.Prelude.{
  ℕ, zero, suc, ◌≡◌, ◌≢◌, refl, ap, some, List, [], ◌∷◌, ◌++◌, arith, length, take, ◌==◌,
  if◌then◌else◌,
}
use low_level.Safety.{str_length}

abbrev pub NonZero : List ℕ → Type 0
NonZero [] = Unit
NonZero (c ∷ s) = (c ≢ 0) × NonZero s

-- The string that an array holds: what stands in front of its first 0.
unfoldable pub content : List ℕ → List ℕ
content [] = []
content (c ∷ cs) = if c == 0 then [] else c ∷ content cs

pub str_length-append : (s rest : List ℕ) → NonZero s → str_length (s ++ 0 ∷ rest) ≡ some (length s)
unfolding str_length
str_length-append [] rest h = refl
str_length-append (c ∷ s) rest (ne, h) = ground (arith, str_length-append s rest h)

pub content-append : (s rest : List ℕ) → NonZero s → content (s ++ 0 ∷ rest) ≡ s
unfolding content
content-append [] rest h = refl
content-append (c ∷ s) rest (ne, h) = ground (arith, content-append s rest h)

-- `m` bytes: those of `s`, and zeros behind them.
unfoldable pub padded : ℕ → List ℕ → List ℕ
padded zero s = []
padded (suc m) [] = 0 ∷ padded m []
padded (suc m) (c ∷ s) = c ∷ padded m s

pub length-padded : (m : ℕ) (s : List ℕ) → length (padded m s) ≡ m
unfolding padded
length-padded zero s = refl
length-padded (suc m) [] = ap suc (length-padded m [])
length-padded (suc m) (c ∷ s) = ap suc (length-padded m s)

-- Behind a front without zeros they hold as much of `s` as fits.
pub content-padded :
    (d : List ℕ) (m : ℕ) (s rest : List ℕ)
    → NonZero d
    → NonZero s
    → content (d ++ (padded m s ++ 0 ∷ rest)) ≡ d ++ take m s
unfolding content padded
content-padded [] zero s rest hd hs = refl
content-padded [] (suc m) [] rest hd hs = refl
content-padded [] (suc m) (c ∷ s) rest hd (ne, hs) =
    ground (arith, content-padded [] m s rest tt hs)
content-padded (c ∷ d) m s rest (ne, hd) hs = ground (arith, content-padded d m s rest hd hs)
