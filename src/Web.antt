-- ===== src/Web.antt =====
-- src/ancestree/web: the graph that the explorer draws.
pub mod Graph
