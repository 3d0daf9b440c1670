-- ===== src/DataStructures/Examples/Graphs.antt =====
-- The theorems on ProperDS/src/graph.h at a concrete graph: the edge from 0 to 1 alone.
use low_level.Prelude.{
  ℕ, zero, suc, ◌<◌, ◌≡◌, ◌↔◌, refl, true, List, [], ◌∷◌, get_elem?, some, arith,
}
use low_level.DataStructures.Graph.{Graph, neighbors, IsGraph, seen, Preorder, Cyclic}
use low_level.DataStructures.Graph.Depth.{graph_dfs_order-iter}
use low_level.DataStructures.Graph.Reach.{graph_dfs_order-Reaches, Reaches, Nodup}
use low_level.DataStructures.Graph.Cycles.{topological-acyclic}
use low_level.DataStructures.Reference.Graphs.{
  graphs, edgeless, edgeless-IsGraph, add_edge, add_edge-IsGraph,
}

abbrev arrow : Graph
arrow = add_edge (edgeless 2) 0 1

arrow-IsGraph : IsGraph arrow
arrow-IsGraph = add_edge-IsGraph (edgeless 2) 0 1 (edgeless-IsGraph 2) (omega arith) (omega arith)

graph_dfs_order-iter_example :
    (out : List ℕ) × Preorder (neighbors arrow) [] (0 ∷ []) out
    × (graphs.graph_dfs_order arrow 0 ≡ out)
    × (graphs.graph_dfs_order_iter arrow 0 ≡ out)
graph_dfs_order-iter_example = graph_dfs_order-iter graphs arrow 0 arrow-IsGraph (omega arith)

graph_dfs_order-Reaches_example :
    ((seen 1 (graphs.graph_dfs_order arrow 0) ≡ true) ↔ Reaches (neighbors arrow) 0 1)
    × Nodup (graphs.graph_dfs_order arrow 0)
graph_dfs_order-Reaches_example =
    graph_dfs_order-Reaches graphs arrow 0 1 arrow-IsGraph (omega arith)

arrow_listed : (v : ℕ) → v < 2 → get_elem? (0 ∷ 1 ∷ []) v ≡ some v
arrow_listed zero lt = refl
arrow_listed (suc zero) lt = refl
arrow_listed (suc (suc v)) lt = absurd (omega (arith, lt))

arrow_forward : (u v : ℕ) → u < 2 → seen v (neighbors arrow u) ≡ true → u < v
arrow_forward zero zero lt e = cc
arrow_forward zero (suc v) lt e = omega arith
arrow_forward (suc zero) v lt e = cc
arrow_forward (suc (suc u)) v lt e = absurd (omega (arith, lt))

topological-acyclic_test : ¬ Cyclic arrow
topological-acyclic_test =
    topological-acyclic arrow (0 ∷ 1 ∷ []) arrow-IsGraph
      (record { place = λ v. v; listed = arrow_listed; forward = arrow_forward })
