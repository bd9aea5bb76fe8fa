-- ===== src/Transformer/Label/Bounds.antt =====
-- The length of a label.
use remindb.Prelude.{◌≤◌, Bytes, length}

abbrev Short : Bytes → Type 0
Short s = length s ≤ 80
