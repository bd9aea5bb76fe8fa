-- ===== src/Store.antt =====
-- pkg/store: the database. The tables, and the rows that the statements of queries.go read and write.
pub mod Rows
pub mod Snapshots
pub mod Prune
pub mod Removal
pub mod Relations
