-- ===== src/CodeGraph.antt =====
-- The code graph, src/iwiki_mcp/codegraph.
pub mod Publication
pub mod Maintenance
