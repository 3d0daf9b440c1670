-- ===== src/DataStructures/UnionFind.antt =====
-- ProperDS/src/unionfind.h: disjoint sets as trees of parents. The functions of the header are not
-- written yet; those written down here are one way to do what it says, by union by rank and path
-- compression.
pub mod Tops
pub mod Roots
pub mod Merging
pub mod Initial
pub mod Connected
use low_level.Prelude.{
  ℕ, zero, suc, ◌+◌, ◌-◌, ◌≤◌, ◌<◌, ◌≡◌, ◌≢◌, Bool, true, false, Option, none, some, List, [], ◌∷◌,
  length, get_elem?, set, if◌then◌else◌, ltb, ◌==◌, ◌>>=◌,
}

pub record UnionFind : Type 0 where
  pub parent : List ℕ
  pub rank : List ℕ
  pub n : ℕ
  pub count : ℕ

abbrev pub given : Option ℕ → ℕ
given none = 0
given (some k) = k

abbrev pub rank_at : List ℕ → ℕ → ℕ
rank_at ranks x = given (get_elem? ranks x)

-- The representative of `x`: the end of the chain of its parents.
pub data Root (parent : List ℕ) : ℕ → ℕ → Type 0 where
  top : {r : ℕ} → get_elem? parent r ≡ some r → Root parent r r
  up : {x p r : ℕ} → get_elem? parent x ≡ some p → p ≢ x → Root parent p r → Root parent x r

-- How many elements represent themselves, where the first is the element `k`.
abbrev pub tops_from : ℕ → List ℕ → ℕ
tops_from k [] = 0
tops_from k (p ∷ ps) = (if p == k then 1 else 0) + tops_from (suc k) ps

-- Every parent is an element, ranks grow from a child to its parent, and `count` is the number of sets.
pub record IsUnionFind (u : UnionFind) : Type 0 where
  pub parents : length u.parent ≡ u.n
  pub ranks : length u.rank ≡ u.n
  pub inside : (x p : ℕ) → get_elem? u.parent x ≡ some p → p < u.n
  pub climbs :
      (x p : ℕ) → get_elem? u.parent x ≡ some p → p ≢ x → rank_at u.rank x < rank_at u.rank p
  pub counted : tops_from 0 u.parent ≡ u.count

-- The walk to the root ...
unfoldable pub root_loop : (fuel : ℕ) → List ℕ → ℕ → Option ℕ
root_loop zero parent x = none
root_loop (suc fuel) parent x = elim (get_elem? parent x) [
  | none ↦ none
  | some p ↦ elim (p == x) [ true ↦ some x | false ↦ root_loop fuel parent p ]
]

-- ... and the one that points every visited node at it.
unfoldable pub compress : (fuel : ℕ) → List ℕ → (x root : ℕ) → List ℕ
compress zero parent x root = parent
compress (suc fuel) parent x root = elim (x == root) [
  | true ↦ parent
  | false ↦ compress fuel (set parent x root) (given (get_elem? parent x)) root
]

abbrev pub total_rank : List ℕ → ℕ
total_rank [] = 0
total_rank (k ∷ ks) = k + total_rank ks

-- Ranks grow on the way, which bounds its length.
abbrev pub rounds : UnionFind → ℕ
rounds u = total_rank u.rank + 1

unfoldable pub uf_find : UnionFind → ℕ → Option (ℕ × UnionFind)
uf_find u x = root_loop (rounds u) u.parent x >>= λ r.
    some (r, record u { parent = compress (rounds u) u.parent x r })

-- One root goes under the other.
abbrev pub attach : UnionFind → (loser winner : ℕ) → UnionFind
attach u loser winner = record {
  parent = set u.parent loser winner;
  rank =
      if rank_at u.rank loser == rank_at u.rank winner
      then set u.rank winner (rank_at u.rank winner + 1)
      else u.rank;
  n = u.n;
  count = u.count - 1;
}

-- The root of the shorter tree goes under that of the taller one. For trees of the same rank the
-- header leaves open which goes under which, and `tie` says.
unfoldable pub link : (tie : Bool) → UnionFind → ℕ → ℕ → UnionFind
link tie u a b =
    if ltb (rank_at u.rank a) (rank_at u.rank b)
    then attach u a b
    else if ltb (rank_at u.rank b) (rank_at u.rank a)
    then attach u b a
    else if tie
    then attach u a b
    else attach u b a

unfoldable pub uf_union : (tie : Bool) → UnionFind → ℕ → ℕ → Option (Bool × UnionFind)
uf_union tie u a b = uf_find u a >>= λ (ra, v).
    (uf_find v b >>= λ (rb, w). some (if ra == rb then (false, w) else (true, link tie w ra rb)))

unfoldable pub uf_connected : UnionFind → ℕ → ℕ → Option (Bool × UnionFind)
uf_connected u a b = uf_find u a >>= λ (ra, v). (uf_find v b >>= λ (rb, w). some (ra == rb, w))

abbrev pub uf_count : UnionFind → ℕ
uf_count u = u.count

abbrev pub counting : (start n : ℕ) → List ℕ
counting start zero = []
counting start (suc n) = start ∷ counting (suc start) n

abbrev pub zeros : ℕ → List ℕ
zeros zero = []
zeros (suc n) = 0 ∷ zeros n

-- `n` sets of one element each.
abbrev pub uf_init : ℕ → UnionFind
uf_init n = record { parent = counting 0 n; rank = zeros n; n = n; count = n }
