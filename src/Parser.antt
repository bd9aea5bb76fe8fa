-- ===== src/Parser.antt =====
-- pkg/parser: the tree that the parsers build.
pub mod Ast
pub mod Preamble
mod Examples
