-- ===== src/DataStructures.antt =====
-- ProperDS/src, whose functions are not written yet: each is a static assertion that fails. The
-- headers say what the structs hold and what every function is to do. A struct and its invariant
-- are definitions here, and a header's functions are an interface: a record of operations and of
-- the laws that the header states, which a theorem takes as its parameter.
pub mod Trace
pub mod Reference
pub mod Examples
pub mod KeySet
pub mod Fnv
pub mod HashOpen
pub mod Bst
pub mod Avl
pub mod Ring
pub mod Queue
pub mod Stack
pub mod Trie
pub mod Deque
pub mod Heap
pub mod GrowArray
pub mod HashChain
pub mod UnionFind
pub mod Vector
pub mod Graph
pub mod Search
pub mod Sorting
