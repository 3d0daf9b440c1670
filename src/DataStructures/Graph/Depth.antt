-- ===== src/DataStructures/Graph/Depth.antt =====
-- The two depth-first traversals of ProperDS/src/graph.h.
use low_level.Prelude.{
  ℕ, zero, suc, ◌+◌, ◌≤◌, ◌<◌, ◌≡◌, inl, inr, refl, sym, ap, ◌∙◌, some, List, [], ◌∷◌, ◌++◌, length,
  length-append, Bool-cases, arith,
}
use mathlib.Core.List.{reverse, reverse-cons}
use mathlib.Core.Option.{some-injective}
use mathlib.Core.Path.{subst}
use low_level.DataStructures.Graph.{
  Graph, neighbors, AllBelow, IsGraph, seen, Preorder, nothing, again, visit, push_each, stack_loop,
  GraphApi,
}
use low_level.DataStructures.Graph.Marks.{weight, weight-mark}

push_each-append :
    (xs : List ℕ) (y : ℕ) (stack : List ℕ) → push_each (xs ++ y ∷ []) stack ≡ y ∷ push_each xs stack
push_each-append [] y stack = refl
push_each-append (x ∷ xs) y stack = push_each-append xs y (x ∷ stack)

-- What is pushed in reverse stands on the stack in order.
push_each-reverse : (xs stack : List ℕ) → push_each (reverse xs) stack ≡ xs ++ stack
push_each-reverse [] stack = refl
push_each-reverse (x ∷ xs) stack =
    ap (λ l. push_each l stack) (reverse-cons x xs)
    ∙ push_each-append (reverse xs) x stack
    ∙ ap (λ l. x ∷ l) (push_each-reverse xs stack)

pub AllBelow-append :
    (n : ℕ) (xs ys : List ℕ) → AllBelow n xs → AllBelow n ys → AllBelow n (xs ++ ys)
AllBelow-append n [] ys h k = k
AllBelow-append n (x ∷ xs) ys (lt, h) k = (lt, AllBelow-append n xs ys h k)

module _ (next : ℕ → List ℕ) where
  -- The loop visits what is on top of the stack as the recursion does, and goes on with the rest.
  pub loop-Preorder :
      (bound fuel : ℕ) (vis xs stack : List ℕ) {out : List ℕ}
      → fuel ≤ bound
      → stack_loop next fuel vis (xs ++ stack) ≡ some out
      → (mid : List ℕ) × (left : ℕ) × Preorder next vis xs mid
        × (left ≤ fuel)
        × (stack_loop next left mid stack ≡ some out)
  unfolding stack_loop
  loop-Preorder bound fuel vis [] stack le e = (vis, fuel, nothing, omega arith, e)
  loop-Preorder bound zero vis (x ∷ xs) stack le e = cc
  loop-Preorder zero (suc fuel) vis (x ∷ xs) stack le e = absurd (omega (arith, le))
  loop-Preorder (suc bound) (suc fuel) vis (x ∷ xs) stack le e = elim (Bool-cases (seen x vis)) [
    | inl marked ↦
        let (mid, left, tree, fewer, rest) =
          loop-Preorder bound fuel vis xs stack (omega (arith, le))
            (rw (stack_loop, marked) at e) in
        (mid, left, again marked tree, omega (arith, fewer), rest)
    | inr free ↦
        let deeper = rw (stack_loop, free) at e in
        let (mid, left, tree, fewer, rest) =
          loop-Preorder bound fuel (vis ++ x ∷ []) (next x) (xs ++ stack) (omega (arith, le)) (
            ap (stack_loop next fuel (vis ++ x ∷ []))
              (sym (push_each-reverse (next x) (xs ++ stack)))
            ∙ deeper) in
        let (mid', left', tree', fewer', rest') =
          loop-Preorder bound left mid xs stack (omega (arith, le, fewer)) rest in
        (mid', left', visit free tree tree', omega (arith, fewer, fewer'), rest')
  ]

  pub loop-end : (fuel : ℕ) (vis out : List ℕ) → stack_loop next fuel vis [] ≡ some out → vis ≡ out
  unfolding stack_loop
  loop-end zero vis out e = cc
  loop-end (suc fuel) vis out e = some-injective _ _ e

  -- Enough fuel for the edges that leave the vertices not yet visited, and for the stack.
  pub loop-total :
      (n fuel : ℕ) (vis stack : List ℕ)
      → ((v : ℕ) → AllBelow n (next v))
      → AllBelow n stack
      → weight (λ v. length (next v)) n vis + length stack < fuel
      → (out : List ℕ) × (stack_loop next fuel vis stack ≡ some out)
  unfolding stack_loop
  loop-total n zero vis stack closed below lt = absurd (omega (arith, lt))
  loop-total n (suc fuel) vis [] closed below lt = (vis, refl)
  loop-total n (suc fuel) vis (x ∷ stack) closed below lt = elim (Bool-cases (seen x vis)) [
    | inl marked ↦
        let (out, e) = loop-total n fuel vis stack closed below.1 (omega (arith, lt)) in
        (out, rw (stack_loop, marked) e)
    | inr free ↦
        let lighter = weight-mark (λ v. length (next v)) n x vis below.0 free in
        let (out, e) =
          loop-total n fuel (vis ++ x ∷ []) (next x ++ stack) closed
            (AllBelow-append n (next x) stack (closed x) below.1)
            (omega (arith, lt, lighter, length-append (next x) stack)) in
        (
          out,
          rw (stack_loop, free)
              (ap (stack_loop next fuel (vis ++ x ∷ [])) (push_each-reverse (next x) stack) ∙ e),
        )
  ]

-- The fuel that a traversal of the graph needs: every edge is pushed once at most.
abbrev pub edges : Graph → ℕ
edges g = weight (λ v. length (neighbors g v)) g.n []

pub traversal :
    (g : Graph) (src : ℕ)
    → IsGraph g
    → src < g.n
    → (out : List ℕ) × (stack_loop (neighbors g) (edges g + 2) [] (src ∷ []) ≡ some out)
      × Preorder (neighbors g) [] (src ∷ []) out
unfolding stack_loop
traversal g src valid lt =
    let (out, e) =
      loop-total (neighbors g) g.n (edges g + 2) [] (src ∷ []) valid.inside (lt, tt)
        (omega arith) in
    let (mid, left, tree, fewer, rest) =
      loop-Preorder (neighbors g) (edges g + 2) (edges g + 2) [] (src ∷ []) [] (omega arith) e in
    (
      out,
      e,
      subst (Preorder (neighbors g) [] (src ∷ [])) (loop-end (neighbors g) left mid out rest) tree,
    )

-- For every graph and every vertex of it, the recursive traversal and the one with a stack both
-- end, and give the same order.
pub graph_dfs_order-iter :
    (api : GraphApi) (g : Graph) (src : ℕ)
    → IsGraph g
    → src < g.n
    → (out : List ℕ) × Preorder (neighbors g) [] (src ∷ []) out
      × (api.graph_dfs_order g src ≡ out)
      × (api.graph_dfs_order_iter g src ≡ out)
graph_dfs_order-iter api g src valid lt =
    let (out, e, tree) = traversal g src valid lt in
    (
      out,
      tree,
      api.dfs_law g src out valid lt tree,
      api.dfs_iter_law g src (edges g + 2) out valid lt e,
    )
