-- ===== src/DataStructures/Examples.antt =====
-- The theorems on the headers of ProperDS/src at concrete values, with functions that keep the laws
-- of the interfaces.
mod Graphs
mod Chains
mod Unions
mod Words
mod Balanced
use mathlib.Core.Option.{some-injective}
use mathlib.Core.Path.{subst}
use low_level.Prelude.{
  ℕ, zero, suc, ◌+◌, ◌-◌, ◌*◌, ◌/◌, ◌^◌, ◌≤◌, ◌<◌, ◌≡◌, ◌≢◌, ◌↔◌, refl, ap, true, false, Option,
  none, some, List, [], ◌∷◌, length, get_elem?, arith, if◌then◌else◌,
}
use low_level.Prelude.Int.{ℤ, pos, negsuc, eqb_ℤ}
use low_level.DataStructures.Trace.{run}
use low_level.DataStructures.GrowArray.{GrowArray, contents, IsGrowArray, cap_after}
use low_level.DataStructures.Vector.{Holds}
use low_level.DataStructures.Vector.Growth.{push_all, push_all_lem, moved}
use low_level.DataStructures.Vector.Edits.{remove_at-insert_at}
use low_level.DataStructures.Queue.{Queue}
use low_level.DataStructures.Queue.Order as QueueOrder
use low_level.DataStructures.Queue.Order.{queue_refines}
use low_level.DataStructures.Stack.Order as StackOrder
use low_level.DataStructures.Stack.Order.{stack_refines}
use low_level.DataStructures.Deque.Order as DequeOrder
use low_level.DataStructures.Deque.Order.{deque_refines}
use low_level.DataStructures.Heap.{Heap, in_order, IsHeap}
use low_level.DataStructures.Heap.Root.{root-AllAtLeast, heap_peek-root}
use low_level.DataStructures.Heap.Drain.{drain, drain-eq-heap_sort}
use low_level.DataStructures.Search.{AllAtLeast, IsAscending}
use low_level.DataStructures.Search.Count.{occurrences, bounds_lem, binary_search_idx_iff}
use low_level.DataStructures.Sorting.Agreement.{sorts_lem, sort_then_search_lem}
use low_level.DataStructures.KeySet.{Call, insert, contains, remove, spec, step}
use low_level.DataStructures.Bst as Bst
use low_level.DataStructures.Bst.{Bst, IsBst, ordered, node_count, all_keys, inorder}
use low_level.DataStructures.Bst.Inorder.{IsStrict, bst_inorder-IsStrict}
use low_level.DataStructures.Bst.Calls.{bst_set, bst_refines}
use low_level.DataStructures.Avl as Avl
use low_level.DataStructures.Avl.{
  Avl, IsAvl, avl_height, avl_size, avl_inorder, keys_of, height, caches_right, balanced,
}
use low_level.DataStructures.Avl.Height.{fewest, avl_height_bound}
use low_level.DataStructures.Fnv.{fnv1a, fnv1a_loop, key_eq}
use low_level.DataStructures.HashOpen.{
  HoSlot, ho_empty, ho_occupied, HashOpen, probe, find, IsHashOpen, delete_at,
}
use low_level.DataStructures.HashOpen.Probing.{find_ends}
use low_level.DataStructures.HashOpen.Contract.{HashOpenApi, probing}
use low_level.DataStructures.HashOpen.Marks.{hashopen_get-hashopen_delete}
use low_level.DataStructures.HashOpen.Deletion.{delete_at_lem}
use low_level.DataStructures.HashOpen.Values.{same_key}
use low_level.DataStructures.Reference.Searches.{linear_searching}
use low_level.DataStructures.Reference.Sorts.{insertion_sorting}
use low_level.DataStructures.Reference.Vectors.{packing}
use low_level.DataStructures.Reference.Heaps.{sorting_heaps}
use low_level.DataStructures.Reference.Queues.{scattering_queues}
use low_level.DataStructures.Reference.Deques.{scattering_deques}
use low_level.DataStructures.Reference.Stacks.{packed_stacks}
use low_level.DataStructures.Reference.Bsts.{chains}

abbrev mixed : List ℤ
mixed = pos 3 ∷ negsuc 0 ∷ pos 3 ∷ []

abbrev ascending : List ℤ
ascending = negsuc 0 ∷ pos 3 ∷ pos 3 ∷ []

ascending-IsAscending : IsAscending ascending
ascending-IsAscending = ground arith

bounds_lem_test :
    (linear_searching.lower_bound ascending (pos 3) + occurrences (pos 3) ascending
      ≡ linear_searching.upper_bound ascending (pos 3))
    × ((k : ℕ)
        → (get_elem? ascending k ≡ some (pos 3)) ↔ (
            (linear_searching.lower_bound ascending (pos 3) ≤ k)
            × (k < linear_searching.upper_bound ascending (pos 3))))
bounds_lem_test = bounds_lem linear_searching ascending (pos 3) ascending-IsAscending

binary_search_idx_iff_test : (linear_searching.binary_search_idx ascending (pos 2) ≡ none) ↔ (
    linear_searching.lower_bound ascending (pos 2) ≡ linear_searching.upper_bound ascending (pos 2))
binary_search_idx_iff_test =
    binary_search_idx_iff linear_searching ascending (pos 2) ascending-IsAscending

sorts_lem_test :
    (insertion_sorting.insertion_sort mixed ≡ insertion_sorting.merge_sort mixed)
    × (insertion_sorting.merge_sort mixed ≡ insertion_sorting.quick_sort mixed)
    × (insertion_sorting.quick_sort mixed ≡ insertion_sorting.heap_sort_arr mixed)
    × (insertion_sorting.heap_sort_arr mixed ≡ insertion_sorting.hybrid_sort mixed)
sorts_lem_test = sorts_lem insertion_sorting mixed

sort_then_search_lem_example :
    linear_searching.upper_bound (insertion_sorting.quick_sort mixed) (pos 3)
      - linear_searching.lower_bound (insertion_sorting.quick_sort mixed) (pos 3)
    ≡ occurrences (pos 3) mixed
sort_then_search_lem_example = sort_then_search_lem insertion_sorting linear_searching mixed (pos 3)

push_all_lem_test :
    (v : GrowArray) × (push_all packing packing.vector_init mixed ≡ (true, v))
    × IsGrowArray v
    × (contents v ≡ mixed)
    × (v.cap ≤ 4 + 2 * 2)
    × (moved 3 + 4 ≤ v.cap)
push_all_lem_test = push_all_lem packing (pos 3) (negsuc 0 ∷ pos 3 ∷ []) (λ n. refl)

abbrev full_array : GrowArray
full_array = record { buffer = some (pos 1 ∷ pos 2 ∷ pos 3 ∷ pos 4 ∷ []); len = 4; cap = 4 }

full_array-IsGrowArray : IsGrowArray full_array
full_array-IsGrowArray = record { inside = omega arith; null = refl; room = refl }

remove_at-insert_at_test :
    (v' : GrowArray) × (packing.vector_insert_at full_array 1 (pos 9) ≡ (true, v'))
    × (packing.vector_get v' 1 ≡ pos 9)
    × Holds (contents full_array) (cap_after full_array) (packing.vector_remove_at v' 1)
remove_at-insert_at_test =
    remove_at-insert_at packing full_array 1 (pos 9) full_array-IsGrowArray (omega arith) refl

abbrev queue_calls : List QueueOrder.Call
queue_calls =
    QueueOrder.enqueue (pos 1)
    ∷ QueueOrder.enqueue (pos 2)
    ∷ QueueOrder.enqueue (pos 3)
    ∷ QueueOrder.is_full
    ∷ QueueOrder.dequeue (pos 0)
    ∷ QueueOrder.enqueue (pos 4)
    ∷ QueueOrder.dequeue (pos 0)
    ∷ QueueOrder.dequeue (pos 0)
    ∷ QueueOrder.dequeue (pos 0)
    ∷ QueueOrder.is_empty
    ∷ []

queue_refines_test :
    (q : Queue) × (scattering_queues.queue_init 2 ≡ (true, q))
    × (run (QueueOrder.step scattering_queues) queue_calls q
        ≡ run (QueueOrder.spec 2) queue_calls [])
queue_refines_test = queue_refines scattering_queues 2 queue_calls (omega arith) refl

abbrev stack_calls : List StackOrder.Call
stack_calls =
    StackOrder.push (pos 1)
    ∷ StackOrder.push (pos 2)
    ∷ StackOrder.peek (pos 0)
    ∷ StackOrder.pop (pos 0)
    ∷ StackOrder.pop (pos 0)
    ∷ StackOrder.pop (pos 0)
    ∷ StackOrder.is_empty
    ∷ []

stack_refines_test :
    run (StackOrder.step packed_stacks) stack_calls packed_stacks.stack_init
    ≡ run StackOrder.spec stack_calls []
stack_refines_test = stack_refines packed_stacks (λ n. refl) stack_calls

abbrev deque_calls : List DequeOrder.Call
deque_calls =
    DequeOrder.push_front (pos 1)
    ∷ DequeOrder.push_back (pos 2)
    ∷ DequeOrder.push_front (pos 3)
    ∷ DequeOrder.len
    ∷ DequeOrder.pop_back (pos 0)
    ∷ DequeOrder.pop_front (pos 0)
    ∷ DequeOrder.pop_front (pos 0)
    ∷ DequeOrder.pop_back (pos 0)
    ∷ []

deque_refines_example :
    run (DequeOrder.step scattering_deques) deque_calls scattering_deques.deque_init
    ≡ run DequeOrder.spec deque_calls []
deque_refines_example = deque_refines scattering_deques (λ n. refl) deque_calls

abbrev small_heap : Heap
small_heap = record { buffer = some (pos 1 ∷ pos 5 ∷ pos 2 ∷ pos 0 ∷ []); len = 3; cap = 4 }

small_heap-IsHeap : IsHeap small_heap
unfolding in_order
small_heap-IsHeap = record {
  array = record { inside = omega arith; null = refl; room = refl };
  valid = refl;
}

root-AllAtLeast_test : AllAtLeast (pos 1) (contents small_heap)
root-AllAtLeast_test = root-AllAtLeast small_heap (pos 1) small_heap-IsHeap refl

heap_peek-root_test :
    (m : ℤ) × (sorting_heaps.heap_peek small_heap (pos 0) ≡ (true, m))
    × (get_elem? (contents small_heap) 0 ≡ some m)
heap_peek-root_test =
    heap_peek-root sorting_heaps small_heap (pos 0) small_heap-IsHeap (omega arith)

drain-eq-heap_sort_example :
    (h : Heap) × (sorting_heaps.heap_from_array mixed ≡ (true, h))
    × (drain sorting_heaps 3 h ≡ sorting_heaps.heap_sort mixed)
drain-eq-heap_sort_example = drain-eq-heap_sort sorting_heaps mixed (λ n. refl)

abbrev tree : Bst
tree = record {
  root = Bst.node (pos 4) (Bst.node (pos 2) Bst.null Bst.null) (Bst.node (pos 7) Bst.null Bst.null);
  size = 3;
}

tree-IsBst : IsBst tree
unfolding ordered node_count all_keys
tree-IsBst = refl

bst_inorder-IsStrict_test :
    IsStrict (chains.bst_inorder tree) × (length (chains.bst_inorder tree) ≡ chains.bst_size tree)
bst_inorder-IsStrict_test = bst_inorder-IsStrict chains tree tree-IsBst

abbrev key_calls : List (Call ℤ)
key_calls =
    insert (pos 4)
    ∷ insert (pos 2)
    ∷ insert (pos 4)
    ∷ contains (pos 2)
    ∷ remove (pos 2)
    ∷ contains (pos 2)
    ∷ remove (pos 2)
    ∷ []

bst_refines_test :
    run (step eqb_ℤ (bst_set chains)) key_calls chains.bst_init
    ≡ run (spec eqb_ℤ) key_calls (λ k. false)
bst_refines_test = bst_refines chains key_calls

abbrev avl_tree : Avl
avl_tree = record {
  root =
      Avl.node (pos 4) 3 (Avl.node (pos 2) 1 Avl.null Avl.null)
        (Avl.node (pos 7) 2 (Avl.node (pos 5) 1 Avl.null Avl.null) Avl.null);
  size = 4;
}

avl_tree-IsAvl : IsAvl avl_tree
unfolding ordered node_count all_keys caches_right balanced height keys_of
avl_tree-IsAvl = refl

avl_height_bound_test :
    (avl_height avl_tree ≡ height avl_tree.root)
    × (fewest (avl_height avl_tree) ≤ avl_tree.size)
    × (2 ^ (avl_height avl_tree / 2) ≤ avl_tree.size + 1)
    × IsStrict (avl_inorder avl_tree)
    × (length (avl_inorder avl_tree) ≡ avl_size avl_tree)
avl_height_bound_test = avl_height_bound avl_tree avl_tree-IsAvl

-- The keys "a" and "e" have the same home, the slot 0.
abbrev table : HashOpen
table = record {
  slots = ho_occupied (97 ∷ []) (pos 5) ∷ ho_occupied (101 ∷ []) (pos 6) ∷ ho_empty ∷ ho_empty ∷ [];
  len = 2;
  used = 2;
}

table-reachable :
    (i : ℕ) (k : List ℕ) (v : ℤ)
    → get_elem? table.slots i ≡ some (ho_occupied k v)
    → find table k ≡ some (some i)
unfolding probe fnv1a fnv1a_loop key_eq
table-reachable zero k v e =
    subst (λ j. find table j ≡ some (some 0)) (same_key (97 ∷ []) k (pos 5) v e) refl
table-reachable (suc zero) k v e =
    subst (λ j. find table j ≡ some (some 1)) (same_key (101 ∷ []) k (pos 6) v e) refl
table-reachable (suc (suc zero)) k v e = cc
table-reachable (suc (suc (suc zero))) k v e = cc
table-reachable (suc (suc (suc (suc i)))) k v e = cc

table-IsHashOpen : IsHashOpen table
table-IsHashOpen = record {
  live = refl;
  filled = refl;
  load = omega arith;
  room = omega arith;
  reachable = table-reachable;
}

find_ends_test : (r : Option ℕ) × (find table (105 ∷ []) ≡ some r)
find_ends_test = find_ends table (105 ∷ []) table-IsHashOpen

delete_at_lem_test :
    IsHashOpen (delete_at table 0)
    × (find (delete_at table 0) (97 ∷ []) ≡ some none)
    × ((key : List ℕ) → key ≢ 97 ∷ [] → find (delete_at table 0) key ≡ find table key)
delete_at_lem_test = delete_at_lem table 0 (97 ∷ []) (pos 5) table-IsHashOpen refl

other_key : key_eq (101 ∷ []) (97 ∷ []) ≡ false
unfolding key_eq
other_key = refl

hashopen_get-hashopen_delete_example :
    IsHashOpen (probing.hashopen_delete table (97 ∷ [])).1
    × (probing.hashopen_get (probing.hashopen_delete table (97 ∷ [])).1 (97 ∷ []) (pos 0)
        ≡ (false, pos 0))
    × (probing.hashopen_get (probing.hashopen_delete table (97 ∷ [])).1 (101 ∷ []) (pos 0)
        ≡ probing.hashopen_get table (101 ∷ []) (pos 0))
    × (probing.hashopen_len (probing.hashopen_delete table (97 ∷ [])).1
          + (if (probing.hashopen_get table (97 ∷ []) (pos 0)).0 then 1 else 0)
        ≡ probing.hashopen_len table)
    × (probing.hashopen_delete (probing.hashopen_delete table (97 ∷ [])).1 (97 ∷ [])
        ≡ (false, (probing.hashopen_delete table (97 ∷ [])).1))
hashopen_get-hashopen_delete_example =
    hashopen_get-hashopen_delete probing table (97 ∷ []) (101 ∷ []) (pos 0) table-IsHashOpen
      other_key
