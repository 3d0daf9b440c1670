-- ===== src/DataStructures/Examples/Unions.antt =====
-- The theorems on ProperDS/src/unionfind.h at concrete values: 0 and 1 of three elements.
use low_level.Prelude.{Bool, ◌↔◌, ℕ, ◌-◌, ◌≡◌, true, false, some, if◌then◌else◌, ◌==◌, arith}
use low_level.DataStructures.UnionFind.{
  UnionFind, Root, IsUnionFind, uf_init, uf_find, uf_union, uf_connected, uf_count,
}
use low_level.DataStructures.UnionFind.Roots.{uf_find-Root}
use low_level.DataStructures.UnionFind.Merging.{Joins, Joined, uf_union-Joins}
use low_level.DataStructures.UnionFind.Connected.{uf_connected-union}
use low_level.DataStructures.UnionFind.Initial.{uf_init-IsUnionFind}

uf_union-Joins_test :
    (ra : ℕ) × (rb : ℕ) × (v : UnionFind) × (uf_union true (uf_init 3) 0 1
      ≡ some (if ra == rb then false else true, v))
    × Root (uf_init 3).parent 0 ra
    × Root (uf_init 3).parent 1 rb
    × IsUnionFind v
    × (v.count ≡ (if ra == rb then 3 else 3 - 1))
    × Joins ra rb (uf_init 3) v
uf_union-Joins_test =
    uf_union-Joins true (uf_init 3) 0 1 (uf_init-IsUnionFind 3) (omega arith) (omega arith)

uf_find-Root_test :
    (r : ℕ) × (v : UnionFind) × (uf_find (uf_init 3) 2 ≡ some (r, v))
    × Root (uf_init 3).parent 2 r
    × IsUnionFind v
    × (v.n ≡ 3)
    × (v.count ≡ 3)
    × ((y s : ℕ) → Root (uf_init 3).parent y s → Root v.parent y s)
uf_find-Root_test = uf_find-Root (uf_init 3) 2 (uf_init-IsUnionFind 3) (omega arith)

uf_connected-union_test :
    (ra : ℕ) × (rb : ℕ) × (s : ℕ) × (t : ℕ) × Root (uf_init 3).parent 0 ra
    × Root (uf_init 3).parent 1 rb
    × Root (uf_init 3).parent 1 s
    × Root (uf_init 3).parent 2 t
    × ((v : UnionFind) × (uf_union true (uf_init 3) 0 1
          ≡ some (if ra == rb then false else true, v))
        × (uf_count v ≡ (if ra == rb then 3 else 3 - 1))
        × ((c : Bool) × (w : UnionFind) × (uf_connected v 1 2 ≡ some (c, w))
            × ((c ≡ true) ↔ Joined ra rb s t)))
uf_connected-union_test =
    uf_connected-union true (uf_init 3) 0 1 1 2 (uf_init-IsUnionFind 3) (omega arith) (omega arith)
      (omega arith) (omega arith)
