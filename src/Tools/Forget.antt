-- ===== src/Tools/Forget.antt =====
-- pkg/mcp/tools/forget.go.
pub mod Coherent
use remindb.Prelude.{
  ℕ, false, not, ◌&&◌, none, some, List, [], ◌∷◌, ◌++◌, map, ltb, if◌then◌else◌, Bytes, codes, ◌=s◌,
  length,
}
use remindb.Prelude.Assoc.{lookup}
use remindb.Prelude.Result.{Result, ok, err, ◌>>=◌}
use remindb.Parser.Ast.{ContextNode, Trees, node, nil, cons}
use remindb.Diff.{op_mod, op_rem, Delta}
use remindb.Store.Rows.{Node, Table, Error, node_not_found, has_children, is_under}
use remindb.Store.Snapshots.{Database, head_snapshot_id}
use remindb.Store.Removal.{DeleteMode, strict, cascade, reparent, get_children, mode_string}
use remindb.Emitter.{emit}

abbrev pub rem_delta : Node → Delta
rem_delta n = record {
  node_id = n.id;
  old_hash = n.content_hash;
  new_hash = [];
  old_content = n.content;
  new_content = [];
  op = op_rem;
}

unfoldable context_from_store_node : Node → ContextNode
context_from_store_node n = record {
  wikilink_refs = [];
  id = n.id;
  parent_id = n.parent_id;
  source_file = n.source_file;
  label = n.label;
  content = n.content;
  content_hash = n.content_hash;
  format = n.format;
  temperature = none;
  depth = n.depth;
  token_count = n.token_count;
  seed_pinned = false;
  node_type = n.node_type;
}

abbrev pub kept_delta : Node → Delta
kept_delta c = record {
  node_id = c.id;
  old_hash = c.content_hash;
  new_hash = c.content_hash;
  old_content = c.content;
  new_content = c.content;
  op = op_mod;
}

-- The children of the target, moved up.
unfoldable moved_roots : Bytes → List Node → Trees
unfolding context_from_store_node
moved_roots parent [] = nil
moved_roots parent (c ∷ children) =
    cons (node (record (context_from_store_node c) { parent_id = parent }) nil)
      (moved_roots parent children)

-- `GetDescendants` without a bound on the depth: the rows below `id`.
unfoldable pub get_descendants : Bytes → Table → Table → List Node
unfolding is_under
get_descendants id all [] = []
get_descendants id all ((k, n) ∷ t) =
    let rest = get_descendants id all t in
    if not (k =s id) && is_under (length all) all id k then n ∷ rest else rest

unfoldable pub build_forget_deltas :
    Node → List Node → DeleteMode → Table → Result Error (Trees × List Delta)
unfolding moved_roots get_descendants
build_forget_deltas target children strict t =
    if ltb 0 (length children)
    then err (has_children target.id (length children))
    else ok (nil, rem_delta target ∷ [])
build_forget_deltas target children cascade t =
    ok (nil, rem_delta target ∷ map rem_delta (get_descendants target.id t t))
build_forget_deltas target children reparent t =
    ok (moved_roots target.parent_id children, map kept_delta children ++ rem_delta target ∷ [])

-- `HandleForget` behind its check of the arguments, over `CursorHashForChange`.
unfoldable handle_forget :
    (ℕ → List Delta → Bytes) → ℕ → Bytes → DeleteMode → Database → Result Error Database
unfolding build_forget_deltas
handle_forget cursor_hash now id mode db = elim (lookup id db.nodes) [
  | none ↦ err (node_not_found id)
  | some target ↦
      build_forget_deltas target (get_children id db.nodes) mode db.nodes >>= λ (roots, deltas).
      emit now
        (record {
          roots = roots;
          deltas = deltas;
          cursor_hash = cursor_hash (head_snapshot_id db) deltas;
          message = codes "forget:" ++ mode_string mode ++ codes ":" ++ id;
          compile_root = [];
        })
        db
]
