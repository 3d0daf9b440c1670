-- ===== src/DataStructures/Graph/Cycles.antt =====
-- Cycles and topological orders, for ProperDS/src/graph.h.
use low_level.Prelude.{ℕ, ◌<◌, ◌≡◌, true, List, Bool-cases, ◌==◌, ==_iff, [], ◌∷◌, inl, inr, arith}
use low_level.DataStructures.Graph.{
  Graph, neighbors, AllBelow, IsGraph, seen, Walk, edge, step, Cyclic, IsTopological,
}

AllBelow-seen : (n : ℕ) (xs : List ℕ) (x : ℕ) → AllBelow n xs → seen x xs ≡ true → x < n
AllBelow-seen n [] x below e = cc
AllBelow-seen n (y ∷ ys) x (lt, below) e = elim (Bool-cases (x == y)) [
  | inl same ↦ omega (arith, lt, (==_iff x y).0 same)
  | inr other ↦ AllBelow-seen n ys x below (rw other at e)
]

-- Walks lead forward in a topological order.
module _ (g : Graph) (order : List ℕ) (sorted : IsTopological g order) (valid : IsGraph g) where
  pub walk-forward : {u v : ℕ} → u < g.n → Walk (neighbors g) u v → sorted.place u < sorted.place v
  walk-forward {u = u} {v = v} lt (edge link) = sorted.forward u v lt link
  walk-forward {u = u} lt (step {v = v} link walk) = omega (
    arith,
    sorted.forward u v lt link,
    walk-forward (AllBelow-seen g.n (neighbors g u) v (valid.inside u) link) walk,
  )

  walk-start : {u v : ℕ} → Walk (neighbors g) u v → v < g.n
  walk-start {u = u} {v = v} (edge link) = AllBelow-seen g.n (neighbors g u) v (valid.inside u) link
  walk-start (step link walk) = walk-start walk

-- A graph with a topological order has no cycle, so that at most one of the answers "sorted" and
-- "has a cycle" is right for a graph.
pub topological-acyclic :
    (g : Graph) (order : List ℕ) → IsGraph g → IsTopological g order → ¬ Cyclic g
topological-acyclic g order valid sorted (v, walk) =
    omega (arith, walk-forward g order sorted valid (walk-start g order sorted valid walk) walk)
