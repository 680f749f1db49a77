-- ===== src/Hosted/Snapshots.antt =====
-- postgres/codegraph.py: the publication sessions and the snapshots of one domain.
pub mod Tables
pub mod Sessions
pub mod Materialize
pub mod Links
pub mod Finalize
pub mod Refresh
pub mod Drain
pub mod Removals
pub mod Serving
pub mod Keeping
pub mod Draining
pub mod Guarding
pub mod Steps
pub mod Safety
pub mod Inserting
pub mod Activation
pub mod Storing
pub mod Swap
pub mod Unmoved
pub mod Register
pub mod Cycle
mod Examples
