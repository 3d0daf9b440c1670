-- ===== src/DataStructures/Avl/Bounded.antt =====
-- How high a tree of ProperDS/src/avl.h becomes, and that it lists what a plain search tree lists.
