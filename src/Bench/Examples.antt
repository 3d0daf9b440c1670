-- ===== src/Bench/Examples.antt =====
-- The bench on four nodes at the addresses 8, 16, 24 and 32, and on matrices of two rows.
use mathlib.Core.List.{Perm}
use mathlib.Core.List.Perm
use mathlib.Core.Option
use low_level.Prelude.{
  ◌==◌, if◌then◌else◌, ℕ, ◌+◌, ◌*◌, ◌^◌, ◌<◌, ◌≡◌, ◌≢◌, refl, false, none, some, List, [], ◌∷◌,
  arith, length, replicate, length-replicate, Option,
}
use low_level.Bench.{
  Heap, load, initial_state, rng_next, shuffle_loop, Traversals, bench_array_vs_list, sum_row,
  sum_col, bench_matrix, main, list_n, mat_n, link_nodes, swap_nodes, xmalloc, link_loop, write,
  link_last, sum_loop, add_long, walk_loop, free_nodes, fill_ones, matrix_loop, stride_loop,
}
use low_level.Bench.Random.{rng_next_lem}
use low_level.Bench.Shuffle.{shuffle_loop-perm}
use low_level.Bench.Matrix.{sum_row-sum_col, bench_matrix_lem}
use low_level.Bench.Link.{live, value_at, Live, Apart, Linked, link_nodes-Linked}
use low_level.Bench.Release.{Linked-Live}
use low_level.Bench.Walk.{total_of, low_bytes}
use low_level.Bench.Allocate.{IsMalloc, addresses-Nodup}
use low_level.Bench.Main.{main_lem}
use low_level.Bench.Traversal.{bench_array_vs_list_lem}

abbrev malloc : ℕ → ℕ
malloc k = 8 * k + 8

abbrev junk : ℕ → ℕ
junk k = 7

abbrev empty : Heap
empty a = none

malloc-IsMalloc : (n : ℕ) → IsMalloc malloc n
malloc-IsMalloc n = record { not_null = λ k h e. omega arith; distinct = λ j k h h' e. omega arith }

-- The sums that a run ends with, and the state of the generator.
abbrev outcome : Option Traversals → List ℕ
outcome none = []
outcome (some r) = r.sum_arr ∷ r.sum_list ∷ r.warm ∷ r.state ∷ []

rng_next_test : rng_next initial_state ≡ 0x87985aa5
unfolding rng_next
rng_next_test = refl

shuffle_loop_test :
    Option.map (λ (state, nodes). nodes) (shuffle_loop 3 initial_state (8 ∷ 16 ∷ 24 ∷ 32 ∷ []))
    ≡ some (32 ∷ 8 ∷ 24 ∷ 16 ∷ [])
unfolding shuffle_loop swap_nodes rng_next
shuffle_loop_test = refl

bench_array_vs_list_test :
    outcome (
      bench_array_vs_list malloc junk
        (9 ∷ 9 ∷ 9 ∷ 9 ∷ [])
        (0 ∷ 0 ∷ 0 ∷ 0 ∷ [])
        4
        5
        initial_state
        empty)
    ≡ 6 ∷ 6 ∷ 12 ∷ 1210119364 ∷ []
unfolding bench_array_vs_list xmalloc swap_nodes rng_next link_nodes link_loop load write link_last
    sum_loop add_long walk_loop free_nodes
bench_array_vs_list_test = refl

bench_matrix_test : bench_matrix (5 ∷ 5 ∷ 5 ∷ 5 ∷ []) 2 ≡ some (4, 4)
unfolding bench_matrix fill_ones matrix_loop stride_loop add_long
bench_matrix_test = refl

rng_next_lem_test : (rng_next initial_state ≢ 0) × (rng_next initial_state < 2 ^ 32)
rng_next_lem_test = rng_next_lem initial_state (λ e. omega arith) (omega arith)

shuffle_loop-perm_example :
    (state' : ℕ) × (nodes' : List ℕ) × (shuffle_loop 3 initial_state (8 ∷ 16 ∷ 24 ∷ 32 ∷ [])
      ≡ some (state', nodes'))
    × Perm nodes' (8 ∷ 16 ∷ 24 ∷ 32 ∷ [])
    × (length nodes' ≡ 4)
shuffle_loop-perm_example =
    shuffle_loop-perm 3 initial_state (8 ∷ 16 ∷ 24 ∷ 32 ∷ []) (omega arith) (omega arith)

sum_row-sum_col_test :
    (sum_row (1 ∷ 2 ∷ 3 ∷ 4 ∷ []) 2 ≡ some 10) × (sum_col (1 ∷ 2 ∷ 3 ∷ 4 ∷ []) 2 ≡ some 10)
sum_row-sum_col_test = sum_row-sum_col (1 ∷ 2 ∷ 3 ∷ 4 ∷ []) 2 (omega arith) (omega arith)

bench_matrix_lem_test : bench_matrix (5 ∷ 5 ∷ 5 ∷ 5 ∷ []) 2 ≡ some (4, 4)
bench_matrix_lem_test = bench_matrix_lem (5 ∷ 5 ∷ 5 ∷ 5 ∷ []) 2 refl (omega arith)

bench_array_vs_list_lem_example :
    (r : Traversals) × (bench_array_vs_list malloc junk
        (9 ∷ 9 ∷ 9 ∷ 9 ∷ [])
        (0 ∷ 0 ∷ 0 ∷ 0 ∷ [])
        4
        5
        initial_state
        empty
      ≡ some r)
    × (r.sum_list ≡ r.sum_arr)
    × (r.sum_arr ≡ total_of (λ x. x) (low_bytes 4 0))
    × (r.warm ≡ 2 * r.sum_arr)
    × ((k : ℕ) → k < 4 → live r.heap (malloc k) ≡ false)
    × ((a : ℕ) → ((k : ℕ) → k < 4 → a ≢ malloc k) → load r.heap a ≡ load empty a)
bench_array_vs_list_lem_example =
    bench_array_vs_list_lem malloc junk (9 ∷ 9 ∷ 9 ∷ 9 ∷ []) (0 ∷ 0 ∷ 0 ∷ 0 ∷ []) 4 5 initial_state
      empty (malloc-IsMalloc 4) refl refl (omega arith) (omega arith) (omega arith)

main_lem_example :
    (r : Traversals) × (main malloc junk
        (replicate list_n 9)
        (replicate list_n 0)
        (replicate (mat_n * mat_n) 5)
        1000001
        empty
      ≡ some (r, (mat_n * mat_n, mat_n * mat_n)))
    × (r.sum_list ≡ r.sum_arr)
main_lem_example =
    main_lem malloc junk (replicate list_n 9) (replicate list_n 0) (replicate (mat_n * mat_n) 5)
      1000001 empty (malloc-IsMalloc list_n) (length-replicate {0} {A = ℕ} list_n 9)
      (length-replicate {0} {A = ℕ} list_n 0) (length-replicate {0} {A = ℕ} (mat_n * mat_n) 5)
      (omega arith)

-- Two nodes, 8 in front of 16, which are then linked the other way around.
abbrev two_nodes : Heap
two_nodes a =
    if a == 8
    then some (record { value = 0; next = 16 })
    else (if a == 16 then some (record { value = 1; next = 0 }) else none)

two_nodes-Live : Live two_nodes (16 ∷ 8 ∷ [])
unfolding load
two_nodes-Live a m =
    Linked-Live two_nodes (λ p. if p == 8 then 0 else 1) (8 ∷ 16 ∷ [])
      (λ e. omega arith, refl, (λ e. omega arith, refl, tt)) a
      ((Perm.mem_iff (Perm.swap 8 16 [])).0 m)

link_nodes-Linked_test :
    (h' : Heap) × (link_nodes (16 ∷ 8 ∷ []) 2 two_nodes ≡ some h')
    × Linked h' (value_at two_nodes) (16 ∷ 8 ∷ [])
    × ((a : ℕ) → Apart a (16 ∷ 8 ∷ []) → load h' a ≡ load two_nodes a)
link_nodes-Linked_test = link_nodes-Linked 16 (8 ∷ []) two_nodes two_nodes-Live (
    Perm.nodup (Perm.swap 16 8 [])
      (addresses-Nodup malloc junk 2 2 0 (malloc-IsMalloc 2) (omega arith)))
