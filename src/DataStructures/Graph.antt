-- ===== src/DataStructures/Graph.antt =====
-- ProperDS/src/graph.h: a directed graph as a list of neighbours for each vertex.
pub mod Marks
pub mod Depth
pub mod Reach
pub mod Cycles
use low_level.Prelude.{
  ℕ, zero, suc, ◌+◌, ◌≤◌, ◌<◌, ◌≡◌, ◌↔◌, Bool, true, false, ◌||◌, Option, none, some, List, [], ◌∷◌,
  ◌++◌, length, get_elem?, take, ◌==◌, if◌then◌else◌,
}
use mathlib.Core.List.{reverse}

pub record GraphAdj : Type 0 where
  pub to : List ℕ
  pub len : ℕ
  pub cap : ℕ

pub record Graph : Type 0 where
  pub n : ℕ
  pub adj : List GraphAdj

abbrev pub targets : Option GraphAdj → List ℕ
targets none = []
targets (some a) = take a.len a.to

-- The neighbours of a vertex, in the order in which the edges were added.
abbrev pub neighbors : Graph → ℕ → List ℕ
neighbors g v = targets (get_elem? g.adj v)

abbrev pub AllBelow : ℕ → List ℕ → Type 0
AllBelow n [] = Unit {0}
AllBelow n (x ∷ xs) = (x < n) × AllBelow n xs

pub record IsGraph (g : Graph) : Type 0 where
  pub lists : length g.adj ≡ g.n
  pub room :
      (v : ℕ) (a : GraphAdj) → get_elem? g.adj v ≡ some a → (a.len ≤ a.cap) × (length a.to ≡ a.cap)
  pub inside : (v : ℕ) → AllBelow g.n (neighbors g v)

abbrev pub seen : ℕ → List ℕ → Bool
seen x [] = false
seen x (y ∷ ys) = (x == y) || seen x ys

-- The recursive preorder traversal: from the vertices visited so far and those still to be visited,
-- in this order, to all that are visited in the end.
pub data Preorder (next : ℕ → List ℕ) : (vis vs out : List ℕ) → Type 0 where
  nothing : {vis : List ℕ} → Preorder next vis [] vis
  again :
      {v : ℕ} {vis vs out : List ℕ}
      → seen v vis ≡ true
      → Preorder next vis vs out
      → Preorder next vis (v ∷ vs) out
  visit :
      {v : ℕ} {vis vs mid out : List ℕ}
      → seen v vis ≡ false
      → Preorder next (vis ++ v ∷ []) (next v) mid
      → Preorder next mid vs out
      → Preorder next vis (v ∷ vs) out

abbrev pub push_each : List ℕ → List ℕ → List ℕ
push_each [] stack = stack
push_each (x ∷ xs) stack = push_each xs (x ∷ stack)

-- The traversal with a stack: pop a vertex, skip it if it is visited, and otherwise mark it and push
-- its neighbours in reverse.
unfoldable pub stack_loop :
    (next : ℕ → List ℕ) → (fuel : ℕ) → (vis stack : List ℕ) → Option (List ℕ)
stack_loop next zero vis stack = none
stack_loop next (suc fuel) vis [] = some vis
stack_loop next (suc fuel) vis (v ∷ stack) = elim (seen v vis) [
  | true ↦ stack_loop next fuel vis stack
  | false ↦ stack_loop next fuel (vis ++ v ∷ []) (push_each (reverse (next v)) stack)
]

-- The neighbours that are neither visited nor in the queue.
abbrev pub fresh : List ℕ → List ℕ → List ℕ
fresh [] marked = []
fresh (x ∷ xs) marked =
    let skipped = fresh xs marked in
    let taken = fresh xs (marked ++ x ∷ []) in if seen x marked then skipped else x ∷ taken

-- The traversal with a queue: `done` are the vertices dequeued so far.
unfoldable pub queue_loop :
    (next : ℕ → List ℕ) → (fuel : ℕ) → (done queue : List ℕ) → Option (List ℕ)
queue_loop next zero done queue = none
queue_loop next (suc fuel) done [] = some done
queue_loop next (suc fuel) done (v ∷ queue) =
    queue_loop next fuel (done ++ v ∷ []) (queue ++ fresh (next v) (done ++ v ∷ queue))

-- A path of one edge or more.
pub data Walk (next : ℕ → List ℕ) : ℕ → ℕ → Type 0 where
  edge : {u v : ℕ} → seen v (next u) ≡ true → Walk next u v
  step : {u v w : ℕ} → seen v (next u) ≡ true → Walk next v w → Walk next u w

abbrev pub Cyclic : Graph → Type 0
Cyclic g = (v : ℕ) × Walk (neighbors g) v v

-- Every edge leads from a place in the list to a later one, and every vertex has a place.
pub record IsTopological (g : Graph) (order : List ℕ) : Type 0 where
  pub place : ℕ → ℕ
  pub listed : (v : ℕ) → v < g.n → get_elem? order (place v) ≡ some v
  pub forward : (u v : ℕ) → u < g.n → seen v (neighbors g u) ≡ true → place u < place v

-- The functions that build and walk a graph, where allocation succeeds; `out[0..count)` is returned.
-- Every vertex enters the queue once at most, which bounds the rounds of its loop.
pub record GraphApi : Type 0 where
  pub graph_init : ℕ → Graph
  pub graph_add_edge : Graph → ℕ → ℕ → Graph
  pub graph_bfs_order : Graph → ℕ → List ℕ
  pub graph_dfs_order : Graph → ℕ → List ℕ
  pub graph_dfs_order_iter : Graph → ℕ → List ℕ
  pub init_law :
      (n : ℕ)
      → IsGraph (graph_init n)
        × ((graph_init n).n ≡ n)
        × ((v : ℕ) → neighbors (graph_init n) v ≡ [])
  pub add_edge_law :
      (g : Graph) (u v : ℕ)
      → IsGraph g
      → u < g.n
      → v < g.n
      → IsGraph (graph_add_edge g u v)
        × ((graph_add_edge g u v).n ≡ g.n)
        × (neighbors (graph_add_edge g u v) u ≡ neighbors g u ++ v ∷ [])
        × ((w : ℕ) → (w == u) ≡ false → neighbors (graph_add_edge g u v) w ≡ neighbors g w)
  pub bfs_law :
      (g : Graph) (src : ℕ) (out : List ℕ)
      → IsGraph g
      → src < g.n
      → queue_loop (neighbors g) (g.n + 1) [] (src ∷ []) ≡ some out
      → graph_bfs_order g src ≡ out
  pub dfs_law :
      (g : Graph) (src : ℕ) (out : List ℕ)
      → IsGraph g
      → src < g.n
      → Preorder (neighbors g) [] (src ∷ []) out
      → graph_dfs_order g src ≡ out
  pub dfs_iter_law :
      (g : Graph) (src fuel : ℕ) (out : List ℕ)
      → IsGraph g
      → src < g.n
      → stack_loop (neighbors g) fuel [] (src ∷ []) ≡ some out
      → graph_dfs_order_iter g src ≡ out
