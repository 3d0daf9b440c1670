-- ===== src/DataStructures/UnionFind/Connected.antt =====
-- uf_connected of ProperDS/src/unionfind.h, after a union.
use low_level.Prelude.{
  List, length, lt_of_get_elem?, ℕ, ◌-◌, ◌<◌, ◌≡◌, ◌↔◌, sym, ap, ◌∙◌, Bool, true, false, Option,
  some, ◌==◌, ==_iff, ◌>>=◌, if◌then◌else◌, arith,
}
use mathlib.Core.Path.{subst}
use low_level.DataStructures.UnionFind.{
  UnionFind, Root, top, up, IsUnionFind, uf_find, uf_union, uf_connected, uf_count,
}
use low_level.DataStructures.UnionFind.Roots.{Root-unique, uf_find-Root}
use low_level.DataStructures.UnionFind.Merging.{Joined, uf_union-Joins}

after_second : ℕ → ℕ × UnionFind → Option (Bool × UnionFind)
after_second ra (rb, w) = some (ra == rb, w)

after_first : ℕ → ℕ × UnionFind → Option (Bool × UnionFind)
after_first b (ra, v) = uf_find v b >>= after_second ra

-- uf_connected ends, and compares the representatives; the structure that it leaves has the
-- invariant, and the same sets.
pub uf_connected-Root :
    (u : UnionFind) (a b : ℕ)
    → IsUnionFind u
    → a < u.n
    → b < u.n
    → (ra : ℕ) × (rb : ℕ) × (v : UnionFind) × (uf_connected u a b ≡ some (ra == rb, v))
      × Root u.parent a ra
      × Root u.parent b rb
      × IsUnionFind v
      × (uf_count v ≡ uf_count u)
      × ((y s : ℕ) → Root u.parent y s → Root v.parent y s)
unfolding uf_connected after_first after_second
uf_connected-Root u a b valid lt lt' =
    let (ra, v, found, at, valid_v, n_v, count_v, kept) = uf_find-Root u a valid lt in
    let (rb, w, found', at', valid_w, n_w, count_w, kept') =
      uf_find-Root v b valid_v (omega (arith, lt', n_v)) in
    let (rb', _, _, first, _, _, _, _) = uf_find-Root u b valid lt' in
    let same : rb' ≡ rb = Root-unique (kept b rb' first) at' in
    (
      ra,
      rb,
      w,
      ap (λ o. o >>= after_first b) found ∙ ap (λ o. o >>= after_second ra) found',
      at,
      subst (Root u.parent b) same first,
      valid_w,
      count_w ∙ count_v,
      λ y s walk. kept' y s (kept y s walk),
    )

Root-lt : {parent : List ℕ} {x r : ℕ} → Root parent x r → x < length parent
Root-lt {parent = parent} {x = x} (top e) = lt_of_get_elem? parent x e
Root-lt {parent = parent} {x = x} (up e other rest) = lt_of_get_elem? parent x e

-- After a union of `a` and `b`, uf_connected ends, and says of two elements that they are in one set
-- exactly when they were before or one was with `a` and the other with `b`; uf_count is one less
-- when `a` and `b` were in different sets, and the same otherwise.
pub uf_connected-union :
    (tie : Bool) (u : UnionFind) (a b y z : ℕ)
    → IsUnionFind u
    → a < u.n
    → b < u.n
    → y < u.n
    → z < u.n
    → (ra : ℕ) × (rb : ℕ) × (s : ℕ) × (t : ℕ) × Root u.parent a ra
      × Root u.parent b rb
      × Root u.parent y s
      × Root u.parent z t
      × ((v : UnionFind) × (uf_union tie u a b ≡ some (if ra == rb then false else true, v))
          × (uf_count v ≡ (if ra == rb then uf_count u else uf_count u - 1))
          × ((c : Bool) × (w : UnionFind) × (uf_connected v y z ≡ some (c, w))
              × ((c ≡ true) ↔ Joined ra rb s t)))
uf_connected-union tie u a b y z valid a_lt b_lt y_lt z_lt =
    let (s, _, _, y_at, _, _, _, _) = uf_find-Root u y valid y_lt in
    let (t, _, _, z_at, _, _, _, _) = uf_find-Root u z valid z_lt in
    let (ra, rb, v, ran, a_at, b_at, valid_v, counted, joins) =
      uf_union-Joins tie u a b valid a_lt b_lt in
    let (s', t', y_at', z_at', iff) = joins y z s t y_at z_at in
    let (s2, t2, w, asked, y_at2, z_at2, valid_w, same_count, kept) =
      uf_connected-Root v y z valid_v (omega (arith, Root-lt y_at', valid_v.parents))
        (omega (arith, Root-lt z_at', valid_v.parents)) in
    let y_same : s2 ≡ s' = Root-unique y_at2 y_at' in
    let z_same : t2 ≡ t' = Root-unique z_at2 z_at' in
    (
      ra,
      rb,
      s,
      t,
      a_at,
      b_at,
      y_at,
      z_at,
      (
        v,
        ran,
        counted,
        (
          s2 == t2,
          w,
          asked,
          (
            (λ e. iff.0 (sym y_same ∙ (==_iff s2 t2).0 e ∙ z_same)),
            λ joined. (==_iff s2 t2).1 (y_same ∙ iff.1 joined ∙ sym z_same),
          ),
        ),
      ),
    )
