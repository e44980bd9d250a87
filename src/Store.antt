-- ===== src/Store.antt =====
-- The facade in src/ancestree/store.py: the store's policy, the creation of nodes, the queries and the
-- pruning.
pub mod Config
pub mod Parents
pub mod Create
pub mod Queries
pub mod Search
