-- ===== src/Engine.antt =====
-- The search engine, src/iwiki_mcp/engine.
pub mod Rerank
pub mod Chunk
pub mod Neighbors
