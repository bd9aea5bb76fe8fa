-- ===== src/Store/Snapshots.antt =====
-- pkg/store/snapshot.go and the `snapshots`, `diffs` and `cursors` statements of queries.go.
-- The diffs table is in the order of its ids.
use remindb.Prelude.{
  ℕ, ◌+◌, Bool, true, false, Option, none, some, List, [], ◌∷◌, ◌++◌, ltb, ◌==◌, if◌then◌else◌,
  Bytes, ◌=s◌,
}
use mathlib.Core.List.{reverse}
use remindb.Prelude.Assoc.{lookup, insert, erase}
use remindb.Prelude.Result.{Result, ok, err}
use remindb.Diff.{Op, op_add, op_mod, op_rem}
use remindb.Store.Rows.{Node, Table, Error, snapshot_not_found, unique_violation, get_or}

pub record Snapshot : Type 0 where
  pub id : ℕ
  pub cursor_hash : Bytes
  pub parent_id : Option ℕ
  pub message : Bytes
  pub compile_root : Bytes
  pub created_at : ℕ

-- The `old_*` columns: all are set by `SetOldMetadata`, or none is. The parent is NULL for a root.
pub record OldMetadata : Type 0 where
  pub old_parent_id : Option Bytes
  pub old_source_file : Bytes
  pub old_node_type : Bytes
  pub old_depth : ℕ
  pub old_label : Bytes
  pub old_format : Bytes
  pub old_token_count : ℕ

pub record DiffRecord : Type 0 where
  pub snapshot_id : ℕ
  pub node_id : Bytes
  pub op : Op
  pub old_hash : Bytes
  pub new_hash : Bytes
  pub old_content : Bytes
  pub new_content : Bytes
  pub old_metadata : Option OldMetadata

pub record Database : Type 0 where
  pub nodes : Table
  pub snapshots : List Snapshot
  pub diffs : List DiffRecord
  pub head : Option ℕ
  pub next_snapshot : ℕ

unfoldable pub metadata_of : Node → OldMetadata
metadata_of n = record {
  old_parent_id = if n.parent_id =s [] then none else some n.parent_id;
  old_source_file = n.source_file;
  old_node_type = n.node_type;
  old_depth = n.depth;
  old_label = n.label;
  old_format = n.format;
  old_token_count = n.token_count;
}

unfoldable pub set_old_metadata : DiffRecord → Node → DiffRecord
unfolding metadata_of
set_old_metadata d n = record d { old_metadata = some (metadata_of n) }

pub record SnapshotOptions : Type 0 where
  pub cursor_hash : Bytes
  pub message : Bytes
  pub compile_root : Bytes
  pub parent : Option ℕ

unfoldable has_hash : Bytes → List Snapshot → Bool
has_hash h [] = false
has_hash h (s ∷ l) = if h =s s.cursor_hash then true else has_hash h l

-- With an explicit parent, 0 records NULL; else the parent is what HEAD names.
unfoldable snapshot_parent : SnapshotOptions → Database → Option ℕ
snapshot_parent o db = elim o.parent [ none ↦ db.head | some p ↦ if p == 0 then none else some p ]

-- The row of `qInsertSnapshot`: ids are handed out by AUTOINCREMENT.
unfoldable pub new_snapshot : ℕ → SnapshotOptions → Database → Snapshot
unfolding snapshot_parent
new_snapshot now o db = record {
  id = db.next_snapshot;
  cursor_hash = o.cursor_hash;
  parent_id = snapshot_parent o db;
  message = o.message;
  compile_root = o.compile_root;
  created_at = now;
}

-- `CreateSnapshotTx`: a cursor hash is used once.
unfoldable pub create_snapshot : ℕ → SnapshotOptions → Database → Result Error (ℕ × Database)
unfolding has_hash
create_snapshot now o db =
    if has_hash o.cursor_hash db.snapshots
    then err unique_violation
    else ok (
      db.next_snapshot,
      record db {
        snapshots = db.snapshots ++ new_snapshot now o db ∷ [];
        next_snapshot = db.next_snapshot + 1;
      },
    )

-- `InsertDiffTx`, for each record.
abbrev pub insert_diffs : List DiffRecord → Database → Database
insert_diffs recs db = record db { diffs = db.diffs ++ recs }

-- `AdvanceCursorTx`.
abbrev pub advance_cursor : ℕ → Database → Database
advance_cursor id db = record db { head = some id }

-- `GetHeadSnapshotIDTx`: 0 if nothing is recorded yet.
abbrev pub head_snapshot_id : Database → ℕ
head_snapshot_id db = get_or db.head 0

unfoldable pub has_snapshot : ℕ → List Snapshot → Bool
has_snapshot id [] = false
has_snapshot id (s ∷ l) = if id == s.id then true else has_snapshot id l

-- The rows of `qSelectDiffsAfter`, in the order of their ids.
unfoldable pub diffs_after : ℕ → List DiffRecord → List DiffRecord
diffs_after target [] = []
diffs_after target (d ∷ l) =
    let rest = diffs_after target l in if ltb target d.snapshot_id then d ∷ rest else rest

pub record RestoreResult : Type 0 where
  pub nodes : Table
  pub skipped : List Bytes

unfoldable apply_old_metadata : Node → OldMetadata → Node
apply_old_metadata n m = record n {
  parent_id = get_or m.old_parent_id [];
  source_file = m.old_source_file;
  node_type = m.old_node_type;
  depth = m.old_depth;
  label = m.old_label;
  format = m.old_format;
  token_count = m.old_token_count;
}

-- `existing.Content = …; existing.ContentHash = …`, and the metadata where the diff has them.
unfoldable pub revert_row : DiffRecord → Node → Node
unfolding apply_old_metadata
revert_row d n =
    let back = record n { content = d.old_content; content_hash = d.old_hash } in
    elim d.old_metadata [ none ↦ back | some m ↦ apply_old_metadata back m ]

-- The node that a removed row becomes again: what the diff does not hold is the zero value.
unfoldable pub revive_row : DiffRecord → OldMetadata → Node
revive_row d m = record {
  id = d.node_id;
  parent_id = get_or m.old_parent_id [];
  source_file = m.old_source_file;
  node_type = m.old_node_type;
  depth = m.old_depth;
  label = m.old_label;
  content = d.old_content;
  format = m.old_format;
  token_count = m.old_token_count;
  content_hash = d.old_hash;
  temperature = 0;
  access_count = 0;
  last_accessed = none;
  created_at = 0;
  updated_at = 0;
  pinned = false;
  seed_pinned = false;
  seed_temp = none;
}

unfoldable pub reverse_apply_diff : DiffRecord → RestoreResult → RestoreResult
unfolding revert_row revive_row
reverse_apply_diff d r = elim d.op [
  | op_add ↦ record r { nodes = erase d.node_id r.nodes }
  | op_mod ↦ elim (lookup d.node_id r.nodes) [
    | none ↦ r
    | some existing ↦ record r { nodes = insert d.node_id (revert_row d existing) r.nodes }
  ]
  | op_rem ↦ elim d.old_metadata [
    | none ↦ record r { skipped = r.skipped ++ d.node_id ∷ [] }
    | some m ↦ record r { nodes = insert d.node_id (revive_row d m) r.nodes }
  ]
]

unfoldable pub reverse_apply_all : List DiffRecord → RestoreResult → RestoreResult
reverse_apply_all [] r = r
reverse_apply_all (d ∷ ds) r = reverse_apply_all ds (reverse_apply_diff d r)

-- `RestoreToSnapshotTx`. The query gives the newest diffs first.
unfoldable pub restore_to_snapshot : Database → ℕ → Result Error RestoreResult
unfolding has_snapshot
restore_to_snapshot db target =
    if has_snapshot target db.snapshots
    then ok (
        reverse_apply_all (reverse (diffs_after target db.diffs))
          (record { nodes = db.nodes; skipped = [] }))
    else err (snapshot_not_found target)
