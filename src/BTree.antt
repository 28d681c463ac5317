-- ===== src/BTree.antt =====
-- src/btree.c: the page-based B+ tree of the custom SQL engine's indexes.
pub mod Key
pub mod Node
pub mod Insert
pub mod Delete
pub mod Scan
pub mod Shape
pub mod Tree
pub mod Tests
