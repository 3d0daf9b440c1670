-- ===== src/Lib.antt =====
-- LowLevel is a set of exercises in C, each module a header with its contract, a source file and
-- a test; ProperMachine has a bench besides. This library models the modules of ProperC whose
-- functions are written and the bench of ProperMachine, and proves what they compute, where they
-- fault, and where they differ from their headers; and the contracts of ProperDS, ProperInterview and
-- ProperMachine whose functions are not written yet, with what follows from them.
--
-- Parts and files (sources in ProperC/src unless another path is given):
--   Prelude     what the other files share: arrays as lists whose reads and writes out of bounds
--               fail, results with undefined behaviour as `none`, integers, and words with the laws
--               of their bit operations
--   Bits        bits.c: count_set_bits, is_power_of_two, and five functions that return a constant
--   Structs     structs.c: u32_to_bytes_le, u32_from_bytes_le, the same for be, is_little_endian,
--               pack_rgba, unpack_rgba
--   Ub          ub.c: checked_add_i32, checked_mul_i32, avg_no_overflow, safe_lshift, load_u32_le
--   Funcptr     funcptr.c: int_map, int_filter, int_reduce, sort_ints
--   Pointers    pointers.c: swap_int, reverse_array, my_memcpy, my_memmove, rotate_left
--   Safety      safety.c: safe_strcpy, safe_strcat, copy_n_safe
--   LinkedList  linkedlist.c: list_push_front, list_length, list_reverse, list_middle,
--               list_has_cycle, list_free, over a heap of nodes
--   Layout      ProperMachine/src/layout.h: its structs, and the two layout rules it states
--   Bench       ProperMachine/bench/bench.c: rng_next, xmalloc, bench_array_vs_list, bench_matrix, main
--   Promotions  ProperMachine/src/promotions.c: the expressions that its comments ask for
--   Floats      ProperMachine/src/floats.h: its functions, by the bit patterns of floats
--   Interview   ProperInterview/src: Lru (lru.h), HashMap (hashmap.h), DynArr (dynarr.h), Cstrings
--               (cstrings.h), Strfns (strfns.h)
--   Strings, Memory
--               ProperC/src/strings.h and memory.h
--   Net         ProperNet/src: ByteOrder (byteorder.h), Url (urlparse.h), Http (httparse.h)
--   Os          ProperOS/src: Spsc (the ring of atomics.h), Bounded (the queue of threads.h), by their
--               calls; Slots (what both queues share)
--   DataStructures
--               ProperDS/src: Vector (vector.h), Stack and Queue (stackqueue.h), Deque (deque.h),
--               Heap (heap.h), Search (search.h), Sorting (sorting.h), Bst (bst.h), Avl (avl.h),
--               HashOpen (hashopen.h), HashChain (hashchain.h), Graph (graph.h), UnionFind
--               (unionfind.h), Trie (trie.h), Fnv (the hash of hashopen.h and hashchain.h). Shared:
--               GrowArray, Ring, Trace (sequences of calls), KeySet (what a set of keys promises),
--               Reference (functions that keep the laws, for the tests)
--
-- The functions of ProperDS/src, ProperInterview/src and ProperNet/src, of strings.c and of
-- memory.c are static assertions that fail until somebody writes them. What the headers fix is
-- modelled: each struct is a record or a data type, each checker of an invariant is a test or a
-- predicate, and the functions are the fields of a record with the laws that the header states. A
-- theorem takes such a record as its parameter, so that it holds of whatever implementation keeps
-- the contract; the modules DataStructures/Reference, Interview/Reference, Interview/Texts and
-- Interview/Examples have functions that keep the laws, so that they can be kept. Where a call of a
-- container of ProperDS may fail to allocate, `allocates` says for which sizes an allocation
-- succeeds; da_push and da_insert_at of dynarr.h are told it at each call. The other records
-- suppose that allocation succeeds.
--
-- Where a header fixes the algorithm too, the laws speak of definitions that follow it: the slots
-- that a probe of hashopen.h visits and the tombstone that a deletion leaves, the doubling of
-- hashchain.h, the nodes of a trie, the two reversals of words_reverse, the traversals of graph.h,
-- the slots and masks of the queues of atomics.h and threads.h, and the rules of urlparse.h and
-- httparse.h. The functions of avl.h, hashchain.h, hashopen.h, unionfind.h, trie.h and
-- words_reverse that the library writes down beside these are not the source's: they show that the
-- contracts can be kept, and the theorems are run on them. avl.h, bst.h and trie.h fill KeySet,
-- both hash tables fill the record of hashmap.h, and the theorems on sequences of calls are those
-- of the records, applied to them.
--
-- The queues of ProperOS are modelled by their calls, one after the other in the order in which they
-- take effect: a call that would block is made when it does not.
--
-- The modules of ProperC do not call one another, and the bench calls none of them. Below each
-- part stand its theorems, by what they prove, and Examples: runs, and the theorems at concrete
-- inputs.
--
-- How the model corresponds to the code. A uint8_t or a uint32_t is a natural number, cut off by
-- `% 2 ^ 8` and `% 2 ^ 32` where the code does; an int is an integer, and an operation of ub.c
-- that leaves its type is a fault. An array is a list. A loop with a counter is a recursion on
-- the rounds left; the other loops take fuel, and a theorem states how much is enough: 33 rounds
-- for count_set_bits, n for reverse_array, one more than there are nodes for the loops over a
-- list, and (mu + 1) * lam for list_has_cycle on a list with mu nodes in front of a cycle of lam.
-- The bench walks its list of a million nodes in 1000001 rounds. A search of hashopen.h takes as many
-- rounds as there are slots. The results of malloc, the functions behind function pointers and the
-- byte order of the machine are parameters.
--
-- Not modelled: the sockets of ProperNet; of ProperOS the system calls, the spin lock, the runs of the
-- shared counter and of the thread pool, the locks and conditions inside the bounded queue, and the
-- acquire and release orders of the ring; of ProperDS the lists, the spanning trees and shortest paths of
-- graphs, the calls of unionfind.h, when hashopen.h rehashes, the string measures, and what the headers
-- say of costs; of httparse.h what is parsed of a head with a bare carriage return; the predictions of
-- ProperMachine/src, which are not filled in, and the decimal fractions and side effects that some of
-- them ask for; what the bench measures and prints; the code in Rust, Go and Python; the tests.
pub mod Prelude
pub mod Bits
pub mod Memory
pub mod Strings
pub mod Structs
pub mod Bench
pub mod Ub
pub mod DataStructures
pub mod Floats
pub mod Funcptr
pub mod Pointers
pub mod Promotions
pub mod Safety
pub mod Interview
pub mod Layout
pub mod Net
pub mod Os
pub mod LinkedList
