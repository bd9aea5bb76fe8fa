-- ===== src/Tools.antt =====
-- The tools of pkg/mcp/tools that write snapshots.
pub mod Rollback
pub mod Forget
mod Examples
