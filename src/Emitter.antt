-- ===== src/Emitter.antt =====
-- pkg/emitter: deltas applied to the store, with the snapshot and the diffs that record them.
pub mod Core
pub mod Closed
pub mod Step
pub mod Forward
pub mod Records
pub mod Reverse
pub mod Undo
pub mod Emitted
pub mod Restored
pub mod History
mod Examples
use remindb.Prelude.{
  ℕ, zero, suc, ◌+◌, ◌-◌, ◌*◌, ◌/◌, ◌%◌, ◌≤◌, ◌<◌, min, max, ◌≡◌, refl, sym, ap, ◌∙◌, subst, ◌≢◌,
  ◌↔◌, ◌⊎◌, inl, inr, Bool, true, false, not, ◌&&◌, ◌||◌, Option, none, some, List, [], ◌∷◌, ◌++◌,
  map, append_assoc, append-nil, arith, ltb, leb, ◌==◌, if◌then◌else◌, Bool-cases, Option-cases,
  Bytes, codes, ◌=s◌, str_dec, length, get_elem?, set, take, drop, replicate, All, All-append,
  All-map, length-append,
}
use remindb.Prelude.Assoc.{lookup, insert}
use remindb.Prelude.Result.{Result, ok, err, ◌>>=◌}
use remindb.Parser.Ast.{ContextNode, Trees, flatten_map}
use remindb.Diff.{Op, op_add, op_mod, op_rem, Delta}
use remindb.Store.Rows.{Node, Table, Error, node_not_found, upsert_node, delete_node}
use remindb.Store.Snapshots.{
  DiffRecord, Database, set_old_metadata, create_snapshot, insert_diffs, advance_cursor,
  SnapshotOptions,
}

pub record Options : Type 0 where
  pub roots : Trees
  pub deltas : List Delta
  pub cursor_hash : Bytes
  pub message : Bytes
  pub compile_root : Bytes

abbrev pub NodeMap : Type 0
NodeMap = List (Bytes × ContextNode)

unfoldable pub node_from_context : ContextNode → Node
node_from_context cn = record {
  id = cn.id;
  parent_id = cn.parent_id;
  source_file = cn.source_file;
  node_type = cn.node_type;
  depth = cn.depth;
  label = cn.label;
  content = cn.content;
  format = cn.format;
  token_count = cn.token_count;
  content_hash = cn.content_hash;
  temperature = 0;
  access_count = 0;
  last_accessed = none;
  created_at = 0;
  updated_at = 0;
  pinned = false;
  seed_pinned = cn.seed_pinned;
  seed_temp = cn.temperature;
}

-- One round of `capturePreState`.
unfoldable pub capture_one : Table → Delta → Table → Table
capture_one t d out = elim d.op [
  | op_add ↦ out
  | _ ↦ elim (lookup d.node_id t) [ none ↦ out | some n ↦ insert d.node_id n out ]
]

-- The rows that the deltas will change or remove, as they are now.
unfoldable pub capture_pre_state : Table → List Delta → Table → Table
unfolding capture_one
capture_pre_state t [] out = out
capture_pre_state t (d ∷ ds) out = capture_pre_state t ds (capture_one t d out)

-- The body of the first loop of `emit`.
unfoldable pub apply_delta : ℕ → NodeMap → Delta → Table → Result Error Table
unfolding node_from_context
apply_delta now node_map d t = elim d.op [
  | op_rem ↦ ok (delete_node d.node_id t)
  | _ ↦ elim (lookup d.node_id node_map) [
    | none ↦ err (node_not_found d.node_id)
    | some cn ↦ upsert_node now (node_from_context cn) t
  ]
]

unfoldable pub apply_deltas : ℕ → NodeMap → List Delta → Table → Result Error Table
apply_deltas now node_map [] t = ok t
apply_deltas now node_map (d ∷ ds) t =
    apply_delta now node_map d t >>= λ t'. apply_deltas now node_map ds t'

-- The body of the second loop.
unfoldable pub diff_record : ℕ → Table → Delta → DiffRecord
unfolding set_old_metadata
diff_record snapshot_id pre_state d =
    let rec : DiffRecord = record {
      snapshot_id = snapshot_id;
      node_id = d.node_id;
      op = d.op;
      old_hash = d.old_hash;
      new_hash = d.new_hash;
      old_content = d.old_content;
      new_content = d.new_content;
      old_metadata = none;
    } in
    elim (lookup d.node_id pre_state) [ none ↦ rec | some pre ↦ set_old_metadata rec pre ]

abbrev pub snapshot_options : Options → SnapshotOptions
snapshot_options o = record {
  cursor_hash = o.cursor_hash;
  message = o.message;
  compile_root = o.compile_root;
  parent = none;
}

unfoldable pub emit_tx : ℕ → Options → Database → Result Error Database
unfolding capture_pre_state apply_delta apply_deltas diff_record
emit_tx now o db = do
  let pre_state = capture_pre_state db.nodes o.deltas []
  t ← apply_deltas now (flatten_map o.roots) o.deltas db.nodes
  (id, db') ← create_snapshot now (snapshot_options o) (record db { nodes = t })
  ok (advance_cursor id (insert_diffs (map (diff_record id pre_state) o.deltas) db'))

-- `Emit` and `EmitTx`: with no delta nothing is written.
unfoldable pub emit : ℕ → Options → Database → Result Error Database
unfolding emit_tx
emit now o db = elim o.deltas [ [] ↦ ok db | d ∷ ds ↦ emit_tx now o db ]
