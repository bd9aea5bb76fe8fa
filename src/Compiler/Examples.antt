-- ===== src/Compiler/Examples.antt =====
-- pkg/compiler on a table of one row of another file, and a new file with one node.
use remindb.Prelude.{
  ℕ, zero, suc, ◌+◌, ◌-◌, ◌*◌, ◌/◌, ◌%◌, ◌≤◌, ◌<◌, min, max, ◌≡◌, refl, sym, ap, ◌∙◌, subst, ◌≢◌,
  ◌↔◌, ◌⊎◌, inl, inr, Bool, true, false, not, ◌&&◌, ◌||◌, Option, none, some, List, [], ◌∷◌, ◌++◌,
  map, append_assoc, append-nil, arith, ltb, leb, ◌==◌, if◌then◌else◌, Bool-cases, Option-cases,
  Bytes, codes, ◌=s◌, str_dec, length, get_elem?, set, take, drop, replicate, All, All-append,
  All-map, All-append_left, All-append_right, All-zip, All-pure, length-append, length-take,
}
use remindb.Parser.Ast.{ContextNode, Tree, Trees, node, nil, cons, flatten, flatten_map}
use remindb.Store.Rows.{Node, Table, upsert_node}
use remindb.Store.Snapshots.{Database, create_snapshot}
use remindb.Emitter.{node_from_context, emit, apply_delta}
use remindb.Emitter.Emitted.{SafeChange}
use remindb.Compiler.Exact.{hash_at, expected_hash, compile-expected}
use remindb.Emitter.Core.{Keyed}
use remindb.Prelude.Result.{ok, err}
use remindb.Prelude.Assoc.{lookup, insert}
use remindb.Compiler.{Counts, compile, CompileInput, compile_options}
use remindb.Compiler.Coherent.{compile_options-SafeChange}
use remindb.Diff.{diff_flat, changes, removals, gone, seen}
use remindb.Prelude.Sorting.{sort}
use remindb.Emitter.Closed.{is_closed}

abbrev context : Bytes → Bytes → Bytes → ContextNode
context file id content = record {
  wikilink_refs = [];
  id = id;
  parent_id = [];
  source_file = file;
  label = content;
  content = content;
  content_hash = content;
  format = codes "plain";
  temperature = none;
  depth = 1;
  token_count = 1;
  seed_pinned = false;
  node_type = codes "text";
}

abbrev old_row : Node
old_row = record {
  id = codes "a";
  parent_id = [];
  source_file = codes "a.md";
  node_type = codes "text";
  depth = 1;
  label = codes "one";
  content = codes "one";
  format = codes "plain";
  token_count = 1;
  content_hash = codes "one";
  temperature = 0;
  access_count = 0;
  last_accessed = none;
  created_at = 0;
  updated_at = 0;
  pinned = false;
  seed_pinned = false;
  seed_temp = none;
}

abbrev one_file : Database
one_file = record {
  nodes = (codes "a", old_row) ∷ [];
  snapshots = [];
  diffs = [];
  head = none;
  next_snapshot = 1;
}

-- The file `a.md` with `a` changed, and `b.md` with a new node.
abbrev input : CompileInput
input = record {
  roots =
      cons (node (context (codes "a.md") (codes "a") (codes "two")) nil)
        (cons (node (context (codes "b.md") (codes "b") (codes "new")) nil) nil);
  skipped = [];
  full_rescan = false;
  compile_root = [];
  message = [];
}

abbrev stored : Bytes → Bytes → Bytes
stored p root = p

abbrev hash : ℕ → List ContextNode → Bytes
hash head flat = codes "c"

compile_options-SafeChange_example :
    SafeChange 9 (compile_options stored hash input one_file) one_file
unfolding flatten str_dec compile_options remindb.Emitter.Closed.is_closed remindb.Diff.seen
    remindb.Prelude.Assoc.lookup remindb.Diff.diff_flat remindb.Parser.Ast.flatten_map
    remindb.Diff.changes remindb.Diff.gone remindb.Diff.removals remindb.Prelude.Sorting.sort
    remindb.Emitter.apply_delta remindb.Prelude.Assoc.insert remindb.Store.Rows.upsert_node
compile_options-SafeChange_example =
    compile_options-SafeChange stored hash 9 input one_file (refl, (refl, tt)) (refl, tt)
      ((λ e. ground (arith, e)), ((λ e. refl), tt)) refl

abbrev counted_file : Counts × Database
counted_file = elim (compile stored hash 9 input one_file) [
  | ok r ↦ r
  | err e ↦ (record { added = 0; modified = 0; removed = 0; total = 0 }, one_file)
]

compile_runs : compile stored hash 9 input one_file ≡ ok counted_file
unfolding compile str_dec emit diff_flat changes flatten lookup flatten_map insert upsert_node
    removals sort gone seen create_snapshot
compile_runs = refl

one_file-Keyed : Keyed one_file.nodes
unfolding lookup
one_file-Keyed q n e = ground (arith, e)

compile-expected_example :
    hash_at (codes "b") counted_file.1.nodes ≡ expected_hash stored hash input one_file (codes "b")
unfolding flatten str_dec compile_options seen lookup is_closed diff_flat changes apply_delta
    flatten_map insert upsert_node removals sort gone
compile-expected_example =
    compile-expected stored hash 9 input one_file counted_file.1 counted_file.0 (codes "b")
      (refl, (refl, tt)) (refl, tt) ((λ e. ground (arith, e)), ((λ e. refl), tt)) refl
      one_file-Keyed compile_runs
