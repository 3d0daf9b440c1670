-- ===== src/DataStructures/UnionFind/Tops.antt =====
-- Counting the elements that represent themselves, for ProperDS/src/unionfind.h.
use low_level.Prelude.{
  ℕ, zero, suc, ◌+◌, ◌≡◌, ◌≢◌, some, List, [], ◌∷◌, get_elem?, set, if◌then◌else◌, ◌==◌, arith,
}
use mathlib.Core.Option.{some-injective}
use low_level.DataStructures.UnionFind.{tops_from}

abbrev is_top : ℕ → ℕ → ℕ
is_top p x = if p == x then 1 else 0

tops_from-set :
    (ps : List ℕ) (k x p q : ℕ)
    → get_elem? ps x ≡ some p
    → tops_from k (set ps x q) + is_top p (k + x) ≡ tops_from k ps + is_top q (k + x)
tops_from-set [] k x p q e = cc
tops_from-set (p' ∷ ps) k zero p q e = ground (arith, some-injective p' p e)
tops_from-set (p' ∷ ps) k (suc x) p q e = ground (arith, tops_from-set ps (suc k) x p q e)

-- Pointing an element elsewhere that did not represent itself changes no number of sets ...
pub tops_from-redirect :
    (ps : List ℕ) (x p q : ℕ)
    → get_elem? ps x ≡ some p
    → p ≢ x
    → q ≢ x
    → tops_from 0 (set ps x q) ≡ tops_from 0 ps
tops_from-redirect ps x p q e other other' = ground (arith, tops_from-set ps 0 x p q e)

-- ... and pointing one elsewhere that did makes it one less.
pub tops_from-attach :
    (ps : List ℕ) (x q : ℕ)
    → get_elem? ps x ≡ some x
    → q ≢ x
    → suc (tops_from 0 (set ps x q)) ≡ tops_from 0 ps
tops_from-attach ps x q e other = ground (arith, tops_from-set ps 0 x x q e)
