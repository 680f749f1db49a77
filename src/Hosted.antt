-- ===== src/Hosted.antt =====
-- The hosted server, src/iwiki_mcp/postgres.
pub mod Policy
pub mod Snapshots
