-- ===== src/Index.antt =====
-- index/b+tree/: the comparison of keys, the page of an index and the nodes of the tree.
pub mod Comparator
pub mod Format
pub mod Tree
pub mod Iterator
pub mod Node
pub mod Manager
