-- ===== src/Bench/Traversal.antt =====
-- `bench_array_vs_list` of ProperMachine/bench/bench.c as a whole.
use mathlib.Core.List.{Mem, Perm, Nodup}
use mathlib.Core.List.Perm
use mathlib.Core.HLevel.{¬_prop}
use native.Mathlib.Nat.{ℕ_set}
use low_level.Prelude.{
  ℕ, suc, ◌+◌, ◌-◌, ◌*◌, ◌^◌, ◌≤◌, ◌<◌, ◌≡◌, ◌≢◌, refl, ap, ◌∙◌, false, some, List, [], ◌∷◌, arith,
  length,
}
use low_level.Bench.{
  Heap, load, Traversals, fill_array, allocate_nodes, sum_loop, walk_loop, traverse,
  bench_array_vs_list,
}
use low_level.Bench.Link.{live, value_at, Live, Apart, link_nodes-Linked}
use low_level.Bench.Shuffle.{shuffle_loop-perm}
use low_level.Bench.Walk.{
  total_of, low_bytes, length-low_bytes, low_bytes_bound, fill_array-low_bytes, sum_loop-total_of,
  walk_loop-total_of,
}
use low_level.Bench.Allocate.{
  IsMalloc, addresses, length-addresses, addresses-all, addresses-Mem, addresses-Nodup,
  allocate_nodes-addresses, total_of-addresses, addresses-Live,
}
use low_level.Bench.Release.{Linked-Live, free_nodes-Live}

-- The order does not change a sum.
total_of-perm : (val : ℕ → ℕ) {xs ys : List ℕ} → Perm xs ys → total_of val xs ≡ total_of val ys
total_of-perm val p = Perm.foldr-eq ℕ_set (λ x t. val x + t) (λ a b t. omega arith) p 0

-- Both traversals of `xs` and of nodes with the same total return it.
abbrev traversals : ℕ → ℕ → Heap → Traversals
traversals total state heap = record {
  warm = total + total;
  sum_arr = total;
  sum_list = total;
  state = state;
  heap = heap;
}

traverse-total :
    (xs : List ℕ) (p : ℕ) (rest : List ℕ) (fuel state total : ℕ) (h : Heap)
    → Live h (p ∷ rest)
    → Nodup (p ∷ rest)
    → length xs ≡ suc (length rest)
    → total_of (λ x. x) xs ≡ total
    → total_of (value_at h) (p ∷ rest) ≡ total
    → length xs < fuel
    → total + total < 2 ^ 63
    → (h' : Heap) × (traverse xs (p ∷ rest) (length xs) fuel state h
        ≡ some (traversals total state h'))
      × ((a : ℕ) → Mem a (p ∷ rest) → live h' a ≡ false)
      × ((a : ℕ) → Apart a (p ∷ rest) → load h' a ≡ load h a)
unfolding traverse
traverse-total xs p rest fuel state total h alive distinct size sum sum' enough fits =
    let (linked, links, chain, same) = link_nodes-Linked p rest h alive distinct in
    let sums : sum_loop xs (suc (length rest)) 0 0 ≡ some total =
      rw size at (sum_loop-total_of [] xs 0 0 refl (omega arith)) ∙ ap some (omega arith) in
    let walk : walk_loop fuel p 0 linked ≡ some total =
      walk_loop-total_of fuel 0 (value_at h) (p ∷ rest) linked chain (omega arith) (omega arith)
      ∙ ap some (omega arith) in
    let walk_on : walk_loop fuel p total linked ≡ some (total + total) =
      walk_loop-total_of fuel total (value_at h) (p ∷ rest) linked chain (omega arith) (omega arith)
      ∙ ap some (omega arith) in
    let (freed, frees, dead, same') =
      free_nodes-Live (p ∷ rest) [] linked 0 refl (Linked-Live linked (value_at h) (p ∷ rest) chain)
        distinct in
    (freed, rw (size, links, sums, walk_on, walk, frees), dead, λ a out. same' a out ∙ same a out)

-- The same for any list of nodes that is not empty.
traverse_lem :
    (xs nodes : List ℕ) (n fuel state total : ℕ) (h : Heap)
    → Live h nodes
    → Nodup nodes
    → length nodes ≡ n
    → length xs ≡ n
    → 0 < n
    → total_of (λ x. x) xs ≡ total
    → total_of (value_at h) nodes ≡ total
    → n < fuel
    → total + total < 2 ^ 63
    → (h' : Heap) × (traverse xs nodes n fuel state h ≡ some (traversals total state h'))
      × ((a : ℕ) → Mem a nodes → live h' a ≡ false)
      × ((a : ℕ) → Apart a nodes → load h' a ≡ load h a)
traverse_lem xs [] n fuel state total h alive distinct size size' nonempty sum sum' enough fits =
    absurd (omega arith)
traverse_lem xs (p ∷ rest) n fuel state total h alive distinct size size' nonempty sum sum' enough
      fits =
    rw size' at (
      traverse-total xs p rest fuel state total h alive distinct (omega arith) sum sum'
        (omega arith) fits)

-- For `n` nodes, 0 < n < 2 ^ 32, at the different addresses that `malloc` gives, and with two
-- arrays of that size, the bench ends without a fault: whatever the generator's state, the walk
-- along the shuffled list and the loop over the array find the same sum, that of `i & 0xff`, and
-- the untimed pass finds it twice; every node is given back, and no other address has changed.
pub bench_array_vs_list_lem :
    (malloc junk : ℕ → ℕ) (arr nodes : List ℕ) (n fuel state : ℕ) (h : Heap)
    → IsMalloc malloc n
    → length arr ≡ n
    → length nodes ≡ n
    → 0 < n
    → n < 2 ^ 32
    → n < fuel
    → (r : Traversals) × (bench_array_vs_list malloc junk arr nodes n fuel state h ≡ some r)
      × (r.sum_list ≡ r.sum_arr)
      × (r.sum_arr ≡ total_of (λ x. x) (low_bytes n 0))
      × (r.warm ≡ 2 * r.sum_arr)
      × ((k : ℕ) → k < n → live r.heap (malloc k) ≡ false)
      × ((a : ℕ) → ((k : ℕ) → k < n → a ≢ malloc k) → load r.heap a ≡ load h a)
unfolding bench_array_vs_list
bench_array_vs_list_lem malloc junk arr nodes n fuel state h ok size size' some_nodes small enough =
    let total = total_of (λ x. x) (low_bytes n 0) in
    let filled : fill_array n 0 arr ≡ some (low_bytes n 0) =
      rw size at (fill_array-low_bytes [] arr 0 refl) in
    let (h₁, allocates, held, same) =
      allocate_nodes-addresses malloc junk [] nodes n 0 h ok refl (omega arith) in
    let allocated : allocate_nodes malloc junk n 0 nodes h ≡ some (addresses malloc n 0, h₁) =
      rw size' at allocates in
    let fresh = λ (k : ℕ) (from : 0 ≤ k) (to : k < 0 + n). held k from (omega arith) in
    let (state', shuffled, shuffles, perm, size'') =
      shuffle_loop-perm (n - 1) state (addresses malloc n 0)
        (omega (arith, length-addresses malloc n 0)) (omega arith) in
    let (h', runs, dead, same') =
      traverse_lem (low_bytes n 0) shuffled n fuel state' total h₁
        (λ a m. addresses-Live malloc junk n 0 h₁ fresh a ((Perm.mem_iff perm).0 m))
        (Perm.nodup (Perm.symm perm) (addresses-Nodup malloc junk n n 0 ok (omega arith)))
        (omega (arith, size'', length-addresses malloc n 0)) (length-low_bytes n 0) some_nodes refl
        (total_of-perm (value_at h₁) perm ∙ total_of-addresses malloc junk n 0 h₁ fresh) enough
        (omega (arith, low_bytes_bound n 0)) in
    (
      traversals total state' h',
      rw (filled, allocated, shuffles) runs,
      refl,
      refl,
      omega arith,
      λ k to.
          dead (malloc k)
            ((Perm.mem_iff perm).1 (addresses-Mem malloc n 0 k (omega arith) (omega arith))),
      λ a out.
          same' a (λ b m.
            addresses-all malloc {P = λ b'. a ≢ b'} n 0 (λ b'. ¬_prop)
              (λ k from to. out k (omega arith)) b ((Perm.mem_iff perm).0 m))
          ∙ same a (λ k from to. out k (omega arith)),
    )
