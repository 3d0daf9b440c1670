-- ===== src/DataStructures/UnionFind/Initial.antt =====
-- The initial structure of ProperDS/src/unionfind.h.
use low_level.Prelude.{
  ℕ, zero, suc, ◌+◌, ◌≡◌, refl, ap, some, length, get_elem?, lt_of_get_elem?, arith,
}
use mathlib.Core.Option.{some-injective}
use low_level.DataStructures.UnionFind.{IsUnionFind, tops_from, counting, zeros, uf_init}

length-counting : (start n : ℕ) → length (counting start n) ≡ n
length-counting start zero = refl
length-counting start (suc n) = ap suc (length-counting (suc start) n)

length-zeros : (n : ℕ) → length (zeros n) ≡ n
length-zeros zero = refl
length-zeros (suc n) = ap suc (length-zeros n)

get_elem?-counting : (start n x p : ℕ) → get_elem? (counting start n) x ≡ some p → p ≡ start + x
get_elem?-counting start zero x p e = cc
get_elem?-counting start (suc n) zero p e = omega (arith, some-injective start p e)
get_elem?-counting start (suc n) (suc x) p e = omega (arith, get_elem?-counting (suc start) n x p e)

tops_from-counting : (start n : ℕ) → tops_from start (counting start n) ≡ n
tops_from-counting start zero = refl
tops_from-counting start (suc n) = ground (arith, tops_from-counting (suc start) n)

-- It has the invariant, and every element represents itself.
pub uf_init-IsUnionFind : (n : ℕ) → IsUnionFind (uf_init n)
uf_init-IsUnionFind n = record {
  parents = length-counting 0 n;
  ranks = length-zeros n;
  inside = λ x p e. omega (
    arith,
    get_elem?-counting 0 n x p e,
    lt_of_get_elem? (counting 0 n) x e,
    length-counting 0 n,
  );
  climbs = λ x p e other. absurd (other (omega (arith, get_elem?-counting 0 n x p e)));
  counted = tops_from-counting 0 n;
}
