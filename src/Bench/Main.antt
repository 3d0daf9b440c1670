-- ===== src/Bench/Main.antt =====
-- `main` of ProperMachine/bench/bench.c, at the sizes that the code is compiled with.
use low_level.Prelude.{ℕ, ◌*◌, ◌<◌, ◌≡◌, some, List, arith, length}
use low_level.Bench.{Heap, Traversals, list_n, mat_n, initial_state, main}
use low_level.Bench.Matrix.{bench_matrix_lem}
use low_level.Bench.Allocate.{IsMalloc}
use low_level.Bench.Traversal.{bench_array_vs_list_lem}

-- When every allocation succeeds, the program runs through without a fault within 1000001 rounds
-- of each walk, the two sums of the list experiment agree, and those of the matrix experiment are
-- both 4096 * 4096.
pub main_lem :
    (malloc junk : ℕ → ℕ) (arr nodes m : List ℕ) (fuel : ℕ) (h : Heap)
    → IsMalloc malloc list_n
    → length arr ≡ list_n
    → length nodes ≡ list_n
    → length m ≡ mat_n * mat_n
    → list_n < fuel
    → (r : Traversals) × (main malloc junk arr nodes m fuel h
        ≡ some (r, (mat_n * mat_n, mat_n * mat_n)))
      × (r.sum_list ≡ r.sum_arr)
unfolding main
main_lem malloc junk arr nodes m fuel h ok size size' size'' enough =
    let (r, runs, same, _, _, _, _) =
      bench_array_vs_list_lem malloc junk arr nodes list_n fuel initial_state h ok size size'
        (omega arith) (omega arith) enough in
    (r, rw (runs, bench_matrix_lem m mat_n size'' (omega arith)), same)
