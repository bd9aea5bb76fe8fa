-- ===== src/Query.antt =====
-- pkg/query: ranking, budgets, paging and range diffs.
pub mod Budget
pub mod Delta
pub mod Consolidate
pub mod Engine
pub mod Context
pub mod Batch
pub mod Brackets
pub mod Net
mod Examples
