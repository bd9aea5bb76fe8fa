-- ===== src/Tools/Rollback.antt =====
-- pkg/mcp/tools/rollback.go. The text of the answer is left out: an outcome says which of the
-- answers it is.
pub mod Step
pub mod Fate
pub mod Sorted
pub mod Deltas
pub mod Restores
use remindb.Prelude.{
  ℕ, zero, suc, ◌+◌, ◌-◌, ◌*◌, ◌/◌, ◌%◌, ◌≤◌, ◌<◌, min, max, ◌≡◌, refl, sym, ap, ◌∙◌, subst, ◌≢◌,
  ◌↔◌, ◌⊎◌, inl, inr, Bool, true, false, not, ◌&&◌, ◌||◌, Option, none, some, List, [], ◌∷◌, ◌++◌,
  map, append_assoc, append-nil, arith, ltb, leb, ◌==◌, if◌then◌else◌, Bool-cases, Option-cases,
  Bytes, codes, ◌=s◌, str_dec, length, get_elem?, set, take, drop, replicate, All, All-append,
  All-map, length-append,
}
use remindb.Prelude.Assoc.{lookup, insert}
use remindb.Prelude.Result.{Result, ok, err, ◌>>=◌}
use remindb.Prelude.Sorting.{sort, str_leb}
use remindb.Diff.{Op, op_add, op_mod, op_rem, Delta}
use remindb.Store.Rows.{
  Node, Table, Error, node_not_found, foreign_key, invalid_id, ahead_of_head, upsert_row,
  has_parent, delete_node,
}
use remindb.Store.Snapshots.{
  Database, DiffRecord, SnapshotOptions, RestoreResult, restore_to_snapshot, create_snapshot,
  insert_diffs, advance_cursor, head_snapshot_id,
}
use remindb.Store.Prune.{prune_snapshots_after}
use remindb.Emitter.{capture_pre_state, diff_record}

unfoldable pub node_equal : Node → Node → Bool
node_equal a b =
    a.content_hash =s b.content_hash
    && a.parent_id =s b.parent_id
    && a.source_file =s b.source_file
    && a.node_type =s b.node_type
    && a.depth == b.depth
    && a.label =s b.label
    && a.format =s b.format
    && a.token_count == b.token_count

abbrev pub rollback_rem : Bytes → Node → Delta
rollback_rem id c = record {
  node_id = id;
  old_hash = c.content_hash;
  new_hash = [];
  old_content = c.content;
  new_content = [];
  op = op_rem;
}

abbrev pub rollback_add : Bytes → Node → Delta
rollback_add id t = record {
  node_id = id;
  old_hash = [];
  new_hash = t.content_hash;
  old_content = [];
  new_content = t.content;
  op = op_add;
}

abbrev pub rollback_mod : Bytes → Node → Node → Delta
rollback_mod id c t = record {
  node_id = id;
  old_hash = c.content_hash;
  new_hash = t.content_hash;
  old_content = c.content;
  new_content = t.content;
  op = op_mod;
}

-- The first loop of `computeRollbackDeltas`, over the rows of `current`.
unfoldable pub rollback_removals : Table → Table → List Delta
rollback_removals target [] = []
rollback_removals target ((id, c) ∷ current) =
    let rest = rollback_removals target current in
    elim (lookup id target) [ none ↦ rollback_rem id c ∷ rest | some t ↦ rest ]

-- The second loop, over the rows of `target`.
unfoldable pub rollback_upserts : Table → Table → List Delta
unfolding node_equal
rollback_upserts current [] = []
rollback_upserts current ((id, t) ∷ target) =
    let rest = rollback_upserts current target in
    elim (lookup id current) [
      | none ↦ rollback_add id t ∷ rest
      | some c ↦ if node_equal c t then rest else rollback_mod id c t ∷ rest
    ]

abbrev pub by_node : Delta → Delta → Bool
by_node a b = str_leb a.node_id b.node_id

unfoldable pub compute_rollback_deltas : Table → Table → List Delta
unfolding rollback_removals rollback_upserts
compute_rollback_deltas current target =
    sort by_node (rollback_removals target current ++ rollback_upserts current target)

-- `UpsertNodeTx` while foreign keys are deferred.
unfoldable pub upsert_deferred : ℕ → Node → Table → Table
unfolding upsert_row
upsert_deferred now n t = insert n.id (upsert_row now n (lookup n.id t)) t

-- A round of `applyRollbackMutations`.
unfoldable pub rollback_step : ℕ → Table → Delta → Table → Result Error Table
unfolding upsert_deferred
rollback_step now target d t = elim d.op [
  | op_rem ↦ ok (delete_node d.node_id t)
  | _ ↦ elim (lookup d.node_id target) [
    | none ↦ err (node_not_found d.node_id)
    | some n ↦ ok (upsert_deferred now n t)
  ]
]

unfoldable pub apply_rollback_mutations : ℕ → Table → List Delta → Table → Result Error Table
apply_rollback_mutations now target [] t = ok t
apply_rollback_mutations now target (d ∷ ds) t =
    rollback_step now target d t >>= λ t'. apply_rollback_mutations now target ds t'

-- What the commit checks when foreign keys were deferred.
unfoldable foreign_keys_hold : Table → Table → Bool
foreign_keys_hold all [] = true
foreign_keys_hold all ((k, n) ∷ t) = has_parent all n && foreign_keys_hold all t

pub data Outcome : Type 0 where
  already_there : Outcome
  no_change : List Bytes → Outcome
  rolled_back : ℕ → ℕ → ℕ → List Bytes → Outcome

-- `%d` of a number, the last digit first with fuel for each digit.
unfoldable pub digits : ℕ → ℕ → Bytes → Bytes
digits zero n acc = acc
digits (suc fuel) n acc = elim (n / 10) [
  | zero ↦ (48 + n % 10) ∷ acc
  | suc m ↦ digits fuel (n / 10) ((48 + n % 10) ∷ acc)
]

-- A number has fewer digits than its successor counts.
abbrev decimal : ℕ → Bytes
decimal n = digits (suc n) n []

-- `CursorHashForRollback` of the head, the target and the deltas.
module _ (cursor_hash : ℕ → ℕ → List Delta → Bytes) where
  abbrev pub rollback_options : ℕ → Bool → List Delta → Database → SnapshotOptions
  rollback_options target_id drop_after deltas db = record {
    cursor_hash = cursor_hash (head_snapshot_id db) target_id deltas;
    message = codes "rollback to " ++ decimal target_id;
    compile_root = [];
    parent = some (if drop_after then target_id else head_snapshot_id db);
  }

  -- The diffs, the cursor and the pruning behind the new snapshot, and the commit.
  unfoldable pub rollback_finish :
      ℕ
      → Bool
      → List Delta
      → Table
      → RestoreResult
      → ℕ
      → Database
      → Result Error (Outcome × Database)
  unfolding foreign_keys_hold
  rollback_finish target_id drop_after deltas pre_state restore new_id made =
      let written =
        advance_cursor new_id (insert_diffs (map (diff_record new_id pre_state) deltas) made) in
      let pruned =
        if drop_after then prune_snapshots_after target_id new_id written else (written, 0) in
      if foreign_keys_hold pruned.0.nodes pruned.0.nodes
      then ok (rolled_back new_id (length deltas) pruned.1 restore.skipped, pruned.0)
      else err foreign_key

  -- The part of the transaction that writes.
  unfoldable pub rollback_write :
      ℕ → ℕ → Bool → List Delta → RestoreResult → Database → Result Error (Outcome × Database)
  unfolding apply_rollback_mutations rollback_finish
  rollback_write now target_id drop_after deltas restore db = do
    let pre_state = capture_pre_state db.nodes deltas []
    t ← apply_rollback_mutations now restore.nodes deltas db.nodes
    (new_id, made) ←
        create_snapshot now (rollback_options target_id drop_after deltas db)
          (record db { nodes = t })
    rollback_finish target_id drop_after deltas pre_state restore new_id made

  -- Nothing is written where nothing changes.
  unfoldable pub rollback_changes :
      ℕ → ℕ → Bool → List Delta → RestoreResult → Database → Result Error (Outcome × Database)
  unfolding rollback_write
  rollback_changes now target_id drop_after [] restore db = ok (no_change restore.skipped, db)
  rollback_changes now target_id drop_after (d ∷ ds) restore db =
      rollback_write now target_id drop_after (d ∷ ds) restore db

  -- `HandleRollback`, for ids that are not negative.
  unfoldable pub handle_rollback : ℕ → ℕ → Bool → Database → Result Error (Outcome × Database)
  unfolding rollback_changes compute_rollback_deltas
  handle_rollback now target_id drop_after db =
      if target_id == 0
      then err invalid_id
      else if head_snapshot_id db == target_id
      then ok (already_there, db)
      else if ltb (head_snapshot_id db) target_id
      then err (ahead_of_head target_id)
      else (restore_to_snapshot db target_id >>= λ restore.
          rollback_changes now target_id drop_after (compute_rollback_deltas db.nodes restore.nodes)
            restore db)
