-- ===== src/Parser/Ast.antt =====
-- pkg/parser/ast.go: a parsed node, the tree of nodes, and its pre-order walks.
-- A `float64` is its bit pattern: here it is only copied.
use remindb.Prelude.{ℕ, Bool, List, [], ◌∷◌, ◌++◌, Option, Bytes}
use remindb.Prelude.Assoc.{insert}

abbrev pub Float64 : Type 0
Float64 = ℕ

pub record WikilinkRef : Type 0 where
  pub label : Bytes
  pub source_qual : Bytes
  pub id_hint : Bytes
  pub weight : Float64

-- The fields of `ContextNode` but for `Children`, which are in `Tree`.
pub record ContextNode : Type 0 where
  pub wikilink_refs : List WikilinkRef
  pub id : Bytes
  pub parent_id : Bytes
  pub source_file : Bytes
  pub label : Bytes
  pub content : Bytes
  pub content_hash : Bytes
  pub format : Bytes
  pub temperature : Option Float64
  pub depth : ℕ
  pub token_count : ℕ
  pub seed_pinned : Bool
  pub node_type : Bytes

mutual
  pub data Tree : Type 0 where
    node : ContextNode → Trees → Tree

  pub data Trees : Type 0 where
    nil : Trees
    cons : Tree → Trees → Trees

unfoldable mutual
  collect_node : List ContextNode → Tree → List ContextNode
  collect_node out (node n kids) = collect_nodes (out ++ n ∷ []) kids

  pub collect_nodes : List ContextNode → Trees → List ContextNode
  collect_nodes out nil = out
  collect_nodes out (cons t ts) = collect_nodes (collect_node out t) ts

unfoldable pub flatten : Trees → List ContextNode
unfolding collect_node collect_nodes
flatten roots = collect_nodes [] roots

unfoldable pub index_nodes :
    List ContextNode → List (Bytes × ContextNode) → List (Bytes × ContextNode)
index_nodes [] m = m
index_nodes (n ∷ flat) m = index_nodes flat (insert n.id n m)

unfoldable pub flatten_map : Trees → List (Bytes × ContextNode)
unfolding index_nodes
flatten_map roots = index_nodes (flatten roots) []
