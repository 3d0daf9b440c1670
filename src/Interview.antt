-- ===== src/Interview.antt =====
-- ProperInterview/src, whose functions are not written yet. As for DataStructures, a header's
-- functions are a record of operations and of the laws that the header states. Where a
-- struct is opaque, as in lru.h and hashmap.h, its type is a parameter. Reference and Texts have
-- functions that keep the laws, for the tests.
pub mod Lru
pub mod HashMap
pub mod DynArr
pub mod Strfns
pub mod Cstrings
pub mod Reference
pub mod Texts
pub mod Examples
