-- ===== src/Bench.antt =====
-- ProperMachine/bench/bench.c: the memory bench, less its clock and its output. A `long` holds
-- what is below 2 ^ 63, and a sum that leaves it is `none`, as is a fault, the exit of `xmalloc`
-- and the end of the fuel. The nodes live in a heap, at addresses that `malloc` gives; 0 is NULL.
pub mod Random
pub mod Shuffle
pub mod Link
pub mod Walk
pub mod Allocate
pub mod Release
pub mod Traversal
pub mod Main
pub mod Matrix
pub mod Examples
use low_level.Prelude.{
  ℕ, zero, suc, ◌+◌, ◌-◌, ◌*◌, ◌%◌, ◌^◌, Option, none, some, List, bit_and, bit_xor, ◌==◌, ltb,
  if◌then◌else◌, get_elem?, store, ◌>>=◌,
}
use low_level.Prelude.Word.{u32, ◌<<◌, ◌>>◌}

-- `LIST_N` and `MAT_N`
abbrev pub list_n : ℕ
list_n = 1000000

abbrev pub mat_n : ℕ
mat_n = 4096

pub record Node : Type 0 where
  pub value : ℕ
  pub next : ℕ

abbrev pub Heap : Type 0
Heap = ℕ → Option Node

-- `none` gives the address back.
unfoldable pub write : Heap → ℕ → Option Node → Heap
write h p c a = if a == p then c else h a

-- `*p`
unfoldable pub load : Heap → ℕ → Option Node
load h p = if p == 0 then none else h p

abbrev pub initial_state : ℕ
initial_state = 0x12345678

-- The next state, which is also the number that is returned.
unfoldable pub rng_next : ℕ → ℕ
rng_next x =
    let x₁ = bit_xor x (u32 (x << 13)) in
    let x₂ = bit_xor x₁ (x₁ >> 17) in bit_xor x₂ (u32 (x₂ << 5))

-- `p` is what `malloc` returns.
unfoldable pub xmalloc : ℕ → Option ℕ
xmalloc p = if p == 0 then none else some p

-- The loops, at index `i` with `left` rounds to go.
unfoldable pub fill_array : ℕ → ℕ → List ℕ → Option (List ℕ)
fill_array zero i arr = some arr
fill_array (suc left) i arr = do arr' ← store arr i (bit_and i 0xff); fill_array left (i + 1) arr'

-- `malloc i` is the address for node `i`, and `junk i` what its field `next` holds at first.
unfoldable pub allocate_nodes :
    (malloc junk : ℕ → ℕ) → ℕ → ℕ → List ℕ → Heap → Option (List ℕ × Heap)
allocate_nodes malloc junk zero i nodes h = some (nodes, h)
allocate_nodes malloc junk (suc left) i nodes h = do
  p ← xmalloc (malloc i)
  nodes' ← store nodes i p
  allocate_nodes malloc junk left (i + 1) nodes'
      (write h p (some (record { value = bit_and i 0xff; next = junk i })))

unfoldable pub swap_nodes : ℕ → ℕ → List ℕ → Option (List ℕ)
swap_nodes i j nodes = do
  tmp ← get_elem? nodes i
  other ← get_elem? nodes j
  nodes' ← store nodes i other
  store nodes' j tmp

-- The loop at index `i`, which goes down to 1: the state of the generator and the nodes.
unfoldable pub shuffle_loop : ℕ → ℕ → List ℕ → Option (ℕ × List ℕ)
shuffle_loop zero state nodes = some (state, nodes)
shuffle_loop (suc i) state nodes = do
  let state' = rng_next state
  nodes' ← swap_nodes (suc i) (state' % u32 (suc i + 1)) nodes
  shuffle_loop i state' nodes'

unfoldable pub link_loop : List ℕ → ℕ → ℕ → Heap → Option Heap
link_loop nodes zero i h = some h
link_loop nodes (suc left) i h = do
  p ← get_elem? nodes i
  q ← get_elem? nodes (i + 1)
  n ← load h p
  link_loop nodes left (i + 1) (write h p (some (record n { next = q })))

-- `nodes[n - 1]->next = NULL`
unfoldable pub link_last : List ℕ → ℕ → Heap → Option Heap
link_last nodes n h = do
  p ← get_elem? nodes (n - 1)
  last ← load h p
  some (write h p (some (record last { next = 0 })))

unfoldable pub link_nodes : List ℕ → ℕ → Heap → Option Heap
link_nodes nodes n h = do h' ← link_loop nodes (n - 1) 0 h; link_last nodes n h'

-- `+` on `long`
unfoldable pub add_long : ℕ → ℕ → Option ℕ
add_long a b = if ltb (a + b) (2 ^ 63) then some (a + b) else none

unfoldable pub sum_loop : List ℕ → ℕ → ℕ → ℕ → Option ℕ
sum_loop arr zero i sum = some sum
sum_loop arr (suc left) i sum = do
  x ← get_elem? arr i
  sum' ← add_long sum x
  sum_loop arr left (i + 1) sum'

-- `for (p = head; p != NULL; p = p->next) sum += p->value;`
unfoldable pub walk_loop : ℕ → ℕ → ℕ → Heap → Option ℕ
walk_loop zero p sum h = none
walk_loop (suc fuel) p sum h =
    let round = (do n ← load h p; sum' ← add_long sum n.value; walk_loop fuel n.next sum' h) in
    if p == 0 then some sum else round

-- `free` of an address that holds no node is a fault.
unfoldable pub free_nodes : List ℕ → ℕ → ℕ → Heap → Option Heap
free_nodes nodes zero i h = some h
free_nodes nodes (suc left) i h = do
  p ← get_elem? nodes i
  n ← load h p
  free_nodes nodes left (i + 1) (write h p none)

-- What the function prints, less the times, and what it leaves behind.
pub record Traversals : Type 0 where
  pub warm : ℕ
  pub sum_arr : ℕ
  pub sum_list : ℕ
  pub state : ℕ
  pub heap : Heap

-- The function from the linking of the shuffled nodes on.
unfoldable pub traverse : (arr nodes : List ℕ) (n fuel state : ℕ) → Heap → Option Traversals
traverse arr nodes n fuel state h = do
  linked ← link_nodes nodes n h
  head ← get_elem? nodes 0
  warm_arr ← sum_loop arr n 0 0
  warm ← walk_loop fuel head warm_arr linked
  sum_arr ← sum_loop arr n 0 0
  sum_list ← walk_loop fuel head 0 linked
  freed ← free_nodes nodes n 0 linked
  some (record { warm = warm; sum_arr = sum_arr; sum_list = sum_list; state = state; heap = freed })

-- `arr` and `nodes` are the arrays that are allocated first, with whatever they hold.
pub bench_array_vs_list :
    (malloc junk : ℕ → ℕ) (arr nodes : List ℕ) (n fuel state : ℕ) → Heap → Option Traversals
unfolding fill_array allocate_nodes shuffle_loop traverse
bench_array_vs_list malloc junk arr nodes n fuel state h = do
  arr' ← fill_array n 0 arr
  (allocated, h') ← allocate_nodes malloc junk n 0 nodes h
  (state', shuffled) ← shuffle_loop (n - 1) state allocated
  traverse arr' shuffled n fuel state' h'

-- The matrix. `visit i j` is the address within it, in the order of the loops: outer index `i`.
unfoldable pub stride_loop : List ℕ → (ℕ → ℕ) → ℕ → ℕ → ℕ → Option ℕ
stride_loop m visit zero j sum = some sum
stride_loop m visit (suc left) j sum = do
  x ← get_elem? m (visit j)
  sum' ← add_long sum x
  stride_loop m visit left (j + 1) sum'

unfoldable pub matrix_loop : List ℕ → (ℕ → ℕ → ℕ) → ℕ → ℕ → ℕ → ℕ → Option ℕ
matrix_loop m visit n zero i sum = some sum
matrix_loop m visit n (suc left) i sum = do
  sum' ← stride_loop m (visit i) n 0 sum
  matrix_loop m visit n left (i + 1) sum'

unfoldable pub fill_ones : ℕ → ℕ → List ℕ → Option (List ℕ)
fill_ones zero i m = some m
fill_ones (suc left) i m = do m' ← store m i 1; fill_ones left (i + 1) m'

unfoldable pub sum_row : List ℕ → ℕ → Option ℕ
sum_row m n = matrix_loop m (λ i j. i * n + j) n n 0 0

unfoldable pub sum_col : List ℕ → ℕ → Option ℕ
sum_col m n = matrix_loop m (λ j i. i * n + j) n n 0 0

-- The two sums, of the matrix allocated with whatever it holds.
pub bench_matrix : List ℕ → ℕ → Option (ℕ × ℕ)
unfolding sum_row sum_col
bench_matrix m n = do
  m' ← fill_ones (n * n) 0 m
  row ← sum_row m' n
  col ← sum_col m' n
  some (row, col)

-- Both benches at their sizes, on the arrays that `xmalloc` gives them.
pub main :
    (malloc junk : ℕ → ℕ) (arr nodes m : List ℕ) (fuel : ℕ) → Heap → Option (Traversals × (ℕ × ℕ))
unfolding bench_array_vs_list bench_matrix
main malloc junk arr nodes m fuel h = do
  traversals ← bench_array_vs_list malloc junk arr nodes list_n fuel initial_state h
  sums ← bench_matrix m mat_n
  some (traversals, sums)
