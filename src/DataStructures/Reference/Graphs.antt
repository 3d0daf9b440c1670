-- ===== src/DataStructures/Reference/Graphs.antt =====
-- Functions that keep the contract of ProperDS/src/graph.h.
use low_level.Prelude.{
  ℕ, zero, suc, ◌+◌, ◌≤◌, ◌<◌, ◌≡◌, inl, inr, refl, sym, ap, ◌∙◌, true, false, Option, none, some,
  List, [], ◌∷◌, ◌++◌, length, length-append, length-set, get_elem?, get_elem?-set_ne,
  get_elem?-set_self, set, take, ◌==◌, ==_iff, Bool-cases, arith,
}
use mathlib.Core.Option.{some-injective}
use mathlib.Core.Path.{subst}
use low_level.DataStructures.Graph.{
  Graph, GraphAdj, targets, neighbors, AllBelow, IsGraph, Preorder, nothing, again, visit,
  stack_loop, queue_loop, GraphApi,
}
use low_level.DataStructures.Graph.Depth.{
  traversal, edges, loop-Preorder, loop-end, AllBelow-append,
}

abbrev pub empty_adj : GraphAdj
empty_adj = record { to = []; len = 0; cap = 0 }

abbrev pub empties : ℕ → List GraphAdj
empties zero = []
empties (suc n) = empty_adj ∷ empties n

length-empties : (n : ℕ) → length (empties n) ≡ n
length-empties zero = refl
length-empties (suc n) = ap suc (length-empties n)

get_elem?-empties : (n v : ℕ) (a : GraphAdj) → get_elem? (empties n) v ≡ some a → a ≡ empty_adj
get_elem?-empties zero v a e = cc
get_elem?-empties (suc n) zero a e = sym (some-injective _ _ e)
get_elem?-empties (suc n) (suc v) a e = get_elem?-empties n v a e

targets-empties : (n v : ℕ) → targets (get_elem? (empties n) v) ≡ []
targets-empties zero v = refl
targets-empties (suc n) zero = refl
targets-empties (suc n) (suc v) = targets-empties n v

abbrev pub edgeless : ℕ → Graph
edgeless n = record { n = n; adj = empties n }

pub edgeless-IsGraph : (n : ℕ) → IsGraph (edgeless n)
edgeless-IsGraph n = record {
  lists = length-empties n;
  room = λ v a e.
      subst (λ (b : GraphAdj). (b.len ≤ b.cap) × (length b.to ≡ b.cap))
        (sym (get_elem?-empties n v a e)) (omega arith, refl);
  inside = λ v. subst (AllBelow n) (sym (targets-empties n v)) tt;
}

abbrev pub longer : List ℕ → ℕ → GraphAdj
longer xs v = record { to = xs ++ v ∷ []; len = length xs + 1; cap = length xs + 1 }

abbrev pub add_edge : Graph → ℕ → ℕ → Graph
add_edge g u v = record g { adj = set g.adj u (longer (neighbors g u) v) }

take-whole : (xs : List ℕ) (n : ℕ) → length xs ≡ n → take n xs ≡ xs
take-whole [] zero e = refl
take-whole [] (suc n) e = refl
take-whole (x ∷ xs) zero e = absurd (omega (arith, e))
take-whole (x ∷ xs) (suc n) e = ap (λ t. x ∷ t) (take-whole xs n (omega (arith, e)))

neighbors-longer : (xs : List ℕ) (v : ℕ) → targets (some (longer xs v)) ≡ xs ++ v ∷ []
neighbors-longer xs v = take-whole (xs ++ v ∷ []) (length xs + 1) (length-append xs (v ∷ []))

clash : true ≡ false → ⊥
clash h = cc

module _ (g : Graph) (u v : ℕ) (valid : IsGraph g) (lt : u < g.n) (lt' : v < g.n) where
  here : get_elem? (add_edge g u v).adj u ≡ some (longer (neighbors g u) v)
  here = get_elem?-set_self g.adj u (longer (neighbors g u) v) (omega (arith, lt, valid.lists))

  there : (w : ℕ) → (w == u) ≡ false → get_elem? (add_edge g u v).adj w ≡ get_elem? g.adj w
  there w other =
      get_elem?-set_ne g.adj (longer (neighbors g u) v)
        (λ e. clash (sym ((==_iff w u).1 (sym e)) ∙ other))

  added : neighbors (add_edge g u v) u ≡ neighbors g u ++ v ∷ []
  added = ap targets here ∙ neighbors-longer (neighbors g u) v

  pub add_edge-IsGraph : IsGraph (add_edge g u v)
  add_edge-IsGraph = record {
    lists = length-set g.adj u (longer (neighbors g u) v) ∙ valid.lists;
    room = λ w a e. elim (Bool-cases (w == u)) [
      | inl same ↦
          let at : get_elem? (add_edge g u v).adj w ≡ some (longer (neighbors g u) v) =
            ap (get_elem? (add_edge g u v).adj) ((==_iff w u).0 same) ∙ here in
          subst (λ (b : GraphAdj). (b.len ≤ b.cap) × (length b.to ≡ b.cap))
            (some-injective _ _ (sym at ∙ e)) (omega arith, length-append (neighbors g u) (v ∷ []))
      | inr other ↦ valid.room w a (sym (there w other) ∙ e)
    ];
    inside = λ w. elim (Bool-cases (w == u)) [
      | inl same ↦
          subst (AllBelow g.n) (sym (ap (neighbors (add_edge g u v)) ((==_iff w u).0 same) ∙ added))
            (AllBelow-append g.n (neighbors g u) (v ∷ []) (valid.inside u) (lt', tt))
      | inr other ↦ subst (AllBelow g.n) (sym (ap targets (there w other))) (valid.inside w)
    ];
  }

-- The recursion leads to one order only.
Preorder-unique :
    {next : ℕ → List ℕ} {vis vs out out' : List ℕ}
    → Preorder next vis vs out
    → Preorder next vis vs out'
    → out ≡ out'
Preorder-unique nothing nothing = refl
Preorder-unique (again marked t) (again marked' t') = Preorder-unique t t'
Preorder-unique (again marked t) (visit free t' t'') = absurd (clash (sym marked ∙ free))
Preorder-unique (visit free t t2) (again marked t') = absurd (clash (sym marked ∙ free))
Preorder-unique {next = next} {vs = v ∷ vs} {out' = out'} (visit free t t2) (visit free' t' t2') =
    Preorder-unique t2 (subst (λ m. Preorder next m vs out') (sym (Preorder-unique t t')) t2')

abbrev order_of : Option (List ℕ) → List ℕ
order_of none = []
order_of (some out) = out

abbrev by_stack : Graph → ℕ → List ℕ
by_stack g src = order_of (stack_loop (neighbors g) (edges g + 2) [] (src ∷ []))

by_stack-Preorder :
    (g : Graph) (src : ℕ) (out : List ℕ)
    → IsGraph g
    → src < g.n
    → Preorder (neighbors g) [] (src ∷ []) out
    → by_stack g src ≡ out
by_stack-Preorder g src out valid lt tree =
    let (found, e, tree') = traversal g src valid lt in ap order_of e ∙ Preorder-unique tree' tree

by_stack-iter :
    (g : Graph) (src fuel : ℕ) (out : List ℕ)
    → IsGraph g
    → src < g.n
    → stack_loop (neighbors g) fuel [] (src ∷ []) ≡ some out
    → by_stack g src ≡ out
by_stack-iter g src fuel out valid lt e =
    let (mid, left, tree, fewer, rest) =
      loop-Preorder (neighbors g) fuel fuel [] (src ∷ []) [] (omega arith) e in
    by_stack-Preorder g src mid valid lt tree ∙ loop-end (neighbors g) left mid out rest

pub graphs : GraphApi
graphs = record {
  graph_init = edgeless;
  graph_add_edge = add_edge;
  graph_bfs_order = λ g src. order_of (queue_loop (neighbors g) (g.n + 1) [] (src ∷ []));
  graph_dfs_order = by_stack;
  graph_dfs_order_iter = by_stack;
  init_law = λ n. (edgeless-IsGraph n, refl, targets-empties n);
  add_edge_law = λ g u v valid lt lt'. (
    add_edge-IsGraph g u v valid lt lt',
    refl,
    added g u v valid lt lt',
    λ w other. ap targets (there g u v valid lt lt' w other),
  );
  bfs_law = λ g src out valid lt e. ap order_of e;
  dfs_law = by_stack-Preorder;
  dfs_iter_law = by_stack-iter;
}
