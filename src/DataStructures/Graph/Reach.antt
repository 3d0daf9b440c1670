-- ===== src/DataStructures/Graph/Reach.antt =====
-- What a depth-first traversal of ProperDS/src/graph.h reaches.
use low_level.Prelude.{
  ℕ, ◌<◌, ◌≡◌, ◌↔◌, ◌⊎◌, inl, inr, refl, sym, ap, ◌∙◌, true, false, List, [], ◌∷◌, ◌++◌, ◌==◌,
  ==_iff, Bool-cases, arith,
}
use mathlib.Core.Path.{subst}
use low_level.DataStructures.Graph.{
  Graph, neighbors, IsGraph, seen, Preorder, nothing, again, visit, Walk, edge, step, GraphApi,
}
use low_level.DataStructures.Graph.Marks.{
  seen-snoc_self, seen-snoc-left, seen-snoc-cases, seen-snoc-ne,
}
use low_level.DataStructures.Graph.Depth.{graph_dfs_order-iter}

abbrev pub Nodup : List ℕ → Type 0
Nodup [] = Unit {0}
Nodup (x ∷ xs) = (seen x xs ≡ false) × Nodup xs

clash : true ≡ false → ⊥
clash h = cc

seen-cons-false :
    (v x : ℕ) (xs : List ℕ) → seen v (x ∷ xs) ≡ false → ((v == x) ≡ false) × (seen v xs ≡ false)
seen-cons-false v x xs e = elim (Bool-cases (v == x)) [
  | inl same ↦ absurd (clash (rw same at e))
  | inr other ↦ (other, rw other at e)
]

seen-cons : (u v : ℕ) (vs : List ℕ) → seen u vs ≡ true → seen u (v ∷ vs) ≡ true
seen-cons u v vs e = elim (Bool-cases (u == v)) [ inl same ↦ rw same refl | inr other ↦ rw other e ]

Nodup-snoc : (xs : List ℕ) (v : ℕ) → Nodup xs → seen v xs ≡ false → Nodup (xs ++ v ∷ [])
Nodup-snoc [] v h e = (refl, tt)
Nodup-snoc (x ∷ xs) v (other, h) e =
    let (differs, new) = seen-cons-false v x xs e in
    let apart : (x == v) ≡ false = ground (arith, differs) in
    (seen-snoc-ne x v xs other apart, Nodup-snoc xs v h new)

-- The vertex itself, or one at the end of a walk from it.
abbrev pub Reaches : (ℕ → List ℕ) → ℕ → ℕ → Type 0
Reaches next u v = (u ≡ v) ⊎ Walk next u v

module _ (next : ℕ → List ℕ) where
  seen-head : (x : ℕ) (vs : List ℕ) → seen x (x ∷ vs) ≡ true
  seen-head x vs = rw ((==_iff x x).1 refl) refl

  from_neighbor : {u v x : ℕ} → seen u (next v) ≡ true → Reaches next u x → Walk next v x
  from_neighbor {v = v} has (inl same) = edge (subst (λ t. seen t (next v) ≡ true) same has)
  from_neighbor has (inr walk) = step has walk

  pub Preorder-keeps :
      {vis vs out : List ℕ} (x : ℕ)
      → Preorder next vis vs out
      → seen x vis ≡ true
      → seen x out ≡ true
  Preorder-keeps x nothing e = e
  Preorder-keeps x (again marked tree) e = Preorder-keeps x tree e
  Preorder-keeps {vis = vis} x (visit {v = v} free tree tree') e =
      Preorder-keeps x tree' (Preorder-keeps x tree (seen-snoc-left x v vis e))

  pub Preorder-takes :
      {vis vs out : List ℕ} (x : ℕ)
      → Preorder next vis vs out
      → seen x vs ≡ true
      → seen x out ≡ true
  Preorder-takes x nothing e = cc
  Preorder-takes {vis = vis} {vs = v ∷ vs} x (again marked tree) e = elim (Bool-cases (x == v)) [
    | inl same ↦ Preorder-keeps x tree (ap (λ t. seen t vis) ((==_iff x v).0 same) ∙ marked)
    | inr other ↦ Preorder-takes x tree (rw other at e)
  ]
  Preorder-takes {vis = vis} {vs = v ∷ vs} x (visit free tree tree') e =
      elim (Bool-cases (x == v)) [
        | inl same ↦ Preorder-keeps x tree' (
            Preorder-keeps x tree
              (ap (λ t. seen t (vis ++ v ∷ [])) ((==_iff x v).0 same) ∙ seen-snoc_self v vis))
        | inr other ↦ Preorder-takes x tree' (rw other at e)
      ]

  pub Preorder-Nodup : {vis vs out : List ℕ} → Preorder next vis vs out → Nodup vis → Nodup out
  Preorder-Nodup nothing h = h
  Preorder-Nodup (again marked tree) h = Preorder-Nodup tree h
  Preorder-Nodup {vis = vis} (visit {v = v} free tree tree') h =
      Preorder-Nodup tree' (Preorder-Nodup tree (Nodup-snoc vis v h free))

  -- A vertex that has been added has been left with all its neighbours visited.
  pub Preorder-closed :
      {vis vs out : List ℕ} (x y : ℕ)
      → Preorder next vis vs out
      → seen x out ≡ true
      → seen x vis ≡ false
      → seen y (next x) ≡ true
      → seen y out ≡ true
  Preorder-closed x y nothing e new link = absurd (clash (sym e ∙ new))
  Preorder-closed x y (again marked tree) e new link = Preorder-closed x y tree e new link
  Preorder-closed {vis = vis} x y (visit {v = v} {mid = mid} free tree tree') e new link =
      elim (Bool-cases (seen x mid)) [
        | inr later ↦ Preorder-closed x y tree' e later link
        | inl inside ↦ elim (Bool-cases (x == v)) [
          | inl same ↦
              Preorder-keeps y tree' (
                Preorder-takes y tree
                  (ap (λ t. seen y (next t)) (sym ((==_iff x v).0 same)) ∙ link))
          | inr other ↦
              Preorder-keeps y tree'
                (Preorder-closed x y tree inside (seen-snoc-ne x v vis new other) link)
        ]
      ]

  -- A vertex that has been added is reached from one that was to be visited.
  pub Preorder-Reaches :
      {vis vs out : List ℕ} (x : ℕ)
      → Preorder next vis vs out
      → seen x out ≡ true
      → (seen x vis ≡ true) ⊎ ((u : ℕ) × (seen u vs ≡ true) × Reaches next u x)
  Preorder-Reaches x nothing e = inl e
  Preorder-Reaches {vs = v ∷ vs} x (again marked tree) e = elim (Preorder-Reaches x tree e) [
    | inl old ↦ inl old
    | inr (u, has, reach) ↦ inr (u, seen-cons u v vs has, reach)
  ]
  Preorder-Reaches {vis = vis} {vs = v ∷ vs} x (visit {mid = mid} free tree tree') e =
      elim (Preorder-Reaches x tree' e) [
        | inr (u, has, reach) ↦ inr (u, seen-cons u v vs has, reach)
        | inl inside ↦ elim (Preorder-Reaches x tree inside) [
          | inr (u, has, reach) ↦ inr (v, seen-head v vs, inr (from_neighbor has reach))
          | inl old ↦ elim (seen-snoc-cases x v vis old) [
            | inl before ↦ inl before
            | inr here ↦ inr (v, seen-head v vs, inl (sym here))
          ]
        ]
      ]

  -- What has its neighbours with it has whatever walks reach.
  closed-Walk :
      (out : List ℕ) {u x : ℕ}
      → ((v w : ℕ) → seen v out ≡ true → seen w (next v) ≡ true → seen w out ≡ true)
      → seen u out ≡ true
      → Walk next u x
      → seen x out ≡ true
  closed-Walk out {u = u} {x = x} closed here (edge link) = closed u x here link
  closed-Walk out {u = u} closed here (step {v = v} link walk) =
      closed-Walk out closed (closed u v here link) walk

  pub from_src_iff :
      {src : ℕ} {out : List ℕ} (x : ℕ)
      → Preorder next [] (src ∷ []) out
      → (seen x out ≡ true) ↔ Reaches next src x
  from_src_iff {src = src} {out = out} x tree = (
    λ e. elim (Preorder-Reaches x tree e) [
      | inl nowhere ↦ absurd (clash (sym nowhere))
      | inr (u, has, reach) ↦ subst (λ t. Reaches next t x) (only u has) reach
    ],
    λ reach. elim reach [
      | inl same ↦ subst (λ t. seen t out ≡ true) same at_src
      | inr walk ↦
          closed-Walk out (λ v w here link. Preorder-closed v w tree here refl link) at_src walk
    ],
  )
    where
      at_src : seen src out ≡ true
      at_src = Preorder-takes src tree (seen-head src [])

      only : (u : ℕ) → seen u (src ∷ []) ≡ true → u ≡ src
      only u has = elim (Bool-cases (u == src)) [
        | inl same ↦ (==_iff u src).0 same
        | inr other ↦ absurd (clash (sym (rw other at has)))
      ]

-- The depth-first order from a vertex has every vertex that edges lead to from there, the vertex
-- itself, and no other; and none of them twice.
pub graph_dfs_order-Reaches :
    (api : GraphApi) (g : Graph) (src x : ℕ)
    → IsGraph g
    → src < g.n
    → ((seen x (api.graph_dfs_order g src) ≡ true) ↔ Reaches (neighbors g) src x)
      × Nodup (api.graph_dfs_order g src)
graph_dfs_order-Reaches api g src x valid lt =
    let (out, tree, recursive, iterative) = graph_dfs_order-iter api g src valid lt in
    subst (λ o. ((seen x o ≡ true) ↔ Reaches (neighbors g) src x) × Nodup o) (sym recursive)
      (from_src_iff (neighbors g) x tree, Preorder-Nodup (neighbors g) tree tt)
