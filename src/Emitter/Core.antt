-- ===== src/Emitter/Core.antt =====
-- What a snapshot restores of a node: all but the temperature, the access counts, the times and
-- the pin.
use remindb.Prelude.{ℕ, ◌≡◌, Option, none, some, List, Bytes}
use remindb.Prelude.Assoc.{lookup}
use remindb.Parser.Ast.{ContextNode}
use remindb.Store.Rows.{Node, Table}

pub record Core : Type 0 where
  pub id : Bytes
  pub parent_id : Bytes
  pub source_file : Bytes
  pub node_type : Bytes
  pub depth : ℕ
  pub label : Bytes
  pub content : Bytes
  pub format : Bytes
  pub token_count : ℕ
  pub content_hash : Bytes

abbrev pub core : Node → Core
core n = record {
  id = n.id;
  parent_id = n.parent_id;
  source_file = n.source_file;
  node_type = n.node_type;
  depth = n.depth;
  label = n.label;
  content = n.content;
  format = n.format;
  token_count = n.token_count;
  content_hash = n.content_hash;
}

abbrev pub core_at : Bytes → Table → Option Core
core_at q t = elim (lookup q t) [ none ↦ none | some n ↦ some (core n) ]

-- Two tables that hold the same nodes, but for what is not restored.
abbrev pub Same : Table → Table → Type 0
Same s t = (q : Bytes) → core_at q s ≡ core_at q t

abbrev pub context_core : ContextNode → Core
context_core n = record {
  id = n.id;
  parent_id = n.parent_id;
  source_file = n.source_file;
  node_type = n.node_type;
  depth = n.depth;
  label = n.label;
  content = n.content;
  format = n.format;
  token_count = n.token_count;
  content_hash = n.content_hash;
}

-- Each row stands under its own id.
abbrev pub Keyed : Table → Type 0
Keyed t = (q : Bytes) (n : Node) → lookup q t ≡ some n → n.id ≡ q

abbrev pub KeyedMap : List (Bytes × ContextNode) → Type 0
KeyedMap m = (q : Bytes) (n : ContextNode) → lookup q m ≡ some n → n.id ≡ q
