-- ===== src/Emitter/Examples.antt =====
-- pkg/emitter and the restore of pkg/store at a concrete history.
use remindb.Prelude.{◌≡◌, refl, false, none, some, [], ◌∷◌, arith, Bytes, codes, str_dec}
use remindb.Prelude.Assoc.{lookup, insert}
use remindb.Prelude.Result.{ok}
use remindb.Parser.Ast.{ContextNode, node, nil, cons, flatten, flatten_map, index_nodes}
use remindb.Diff.{op_add, op_mod}
use remindb.Store.Rows.{Node, upsert_node, delete_node, default_temperature}
use remindb.Store.Snapshots.{
  Database, RestoreResult, restore_to_snapshot, create_snapshot, new_snapshot, has_snapshot,
}
use remindb.Emitter.{
  Options, emit, node_from_context, NodeMap, apply_deltas, apply_delta, capture_pre_state,
}
use remindb.Emitter.Core.{Same, Keyed}
use remindb.Emitter.Closed.{is_closed, find_delta}
use remindb.Emitter.History.{IsAt, restore_to_snapshot-Same}
use remindb.Diff.Distinct.{touched}
use remindb.Emitter.Emitted.{SafeChange, next, start, flatten_map-KeyedMap}
use remindb.Emitter.Step.{Fate}
use remindb.Emitter.Records.{undo_all, records}
use remindb.Emitter.Forward.{apply_deltas-Fate}
use remindb.Emitter.Undo.{undo_all-apply_deltas}

abbrev context : Bytes → Bytes → Bytes → ContextNode
context id parent content = record {
  wikilink_refs = [];
  id = id;
  parent_id = parent;
  source_file = codes "a.md";
  label = content;
  content = content;
  content_hash = content;
  format = codes "plain";
  temperature = none;
  depth = 1;
  token_count = 1;
  seed_pinned = false;
  node_type = codes "text";
}

abbrev row : Bytes → Bytes → Bytes → Node
row id parent content = record (node_from_context (context id parent content)) {
  temperature = default_temperature;
}

abbrev one_node : Database
one_node = record {
  nodes = (codes "a", row (codes "a") [] (codes "one")) ∷ [];
  snapshots =
      record {
        id = 1;
        cursor_hash = codes "c1";
        parent_id = none;
        message = [];
        compile_root = [];
        created_at = 0;
      }
      ∷ [];
  diffs = [];
  head = some 1;
  next_snapshot = 2;
}

-- Modify `a` and add `b` below it.
abbrev grow : Options
grow = record {
  roots =
      cons
        (node (context (codes "a") [] (codes "two"))
          (cons (node (context (codes "b") (codes "a") (codes "three")) nil) nil))
        nil;
  deltas =
      record {
        node_id = codes "a";
        old_hash = codes "one";
        new_hash = codes "two";
        old_content = codes "one";
        new_content = codes "two";
        op = op_mod;
      }
      ∷ record {
        node_id = codes "b";
        old_hash = [];
        new_hash = codes "three";
        old_content = [];
        new_content = codes "three";
        op = op_add;
      }
      ∷ [];
  cursor_hash = codes "c2";
  message = [];
  compile_root = [];
}

-- The evaluator that the tests below unfold.
runs : Unit {0}
unfolding emit create_snapshot new_snapshot upsert_node delete_node lookup insert flatten_map
    flatten index_nodes str_dec node_from_context has_snapshot
runs = tt

grown : Database
unfolding runs
grown = elim (emit 9 grow one_node) [ ok db ↦ db | _ ↦ one_node ]

grow_runs : emit 9 grow one_node ≡ ok grown
unfolding grown
grow_runs = refl

grow-SafeChange : SafeChange 9 grow one_node
unfolding runs is_closed touched
grow-SafeChange = record {
  distinct = (refl, (refl, tt));
  coherent = ((row (codes "a") [] (codes "one"), refl, refl, refl), (refl, tt));
  closed = refl;
}

one_node-IsAt : IsAt 1 one_node
unfolding runs
one_node-IsAt = record {
  keyed = λ q n e. ground arith;
  recorded = tt;
  present = refl;
  past = omega arith;
}

restore_to_snapshot-Same_example :
    (r : RestoreResult) × (restore_to_snapshot grown 1 ≡ ok r) × Same r.nodes one_node.nodes
restore_to_snapshot-Same_example =
    restore_to_snapshot-Same 1 one_node grown one_node-IsAt
      (next 9 grow start grow-SafeChange grow_runs)

one_node-Keyed : Keyed one_node.nodes
unfolding runs
one_node-Keyed = λ q n e. ground arith

abbrev grow_map : NodeMap
grow_map = flatten_map grow.roots

grow_applies : apply_deltas 9 grow_map grow.deltas one_node.nodes ≡ ok grown.nodes
unfolding grown apply_deltas apply_delta
grow_applies = refl

abbrev grown_rows : RestoreResult
grown_rows = record { nodes = grown.nodes; skipped = [] }

apply_deltas-Fate_example :
    Fate grow_map (codes "b") one_node.nodes grown.nodes (find_delta (codes "b") grow.deltas)
apply_deltas-Fate_example =
    apply_deltas-Fate 9 grow_map grow.deltas one_node.nodes grown.nodes (codes "b")
      (flatten_map-KeyedMap grow.roots) one_node-Keyed grow-SafeChange.distinct
      grow-SafeChange.closed grow_applies

undo_all-apply_deltas_example :
    Same
      (undo_all
        (records 2 (capture_pre_state one_node.nodes grow.deltas []) grow.deltas)
        grown_rows).nodes
      one_node.nodes
undo_all-apply_deltas_example =
    undo_all-apply_deltas 9 2 grow_map grow.deltas one_node.nodes grown_rows
      (flatten_map-KeyedMap grow.roots) one_node-Keyed grow-SafeChange.distinct
      grow-SafeChange.coherent grow-SafeChange.closed grow_applies
