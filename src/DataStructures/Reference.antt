-- ===== src/DataStructures/Reference.antt =====
-- Simple functions that keep the laws of the interfaces, for the tests of the modules on
-- ProperDS/src: the interfaces can be met.
pub mod Searches
pub mod Sorts
pub mod Vectors
pub mod Heaps
pub mod Rings
pub mod Queues
pub mod Stacks
pub mod Deques
pub mod Keys
pub mod Bsts
pub mod Graphs
