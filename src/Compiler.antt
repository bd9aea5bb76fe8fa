-- ===== src/Compiler.antt =====
-- pkg/compiler/compiler.go behind the reading, parsing and transforming of the files: the previous
-- state, the diff and the emit. Relations are left out, and so are the options and the reseeding.
pub mod Coherent
pub mod Exact
mod Examples
use remindb.Prelude.{
  ℕ, zero, suc, ◌+◌, ◌-◌, ◌*◌, ◌/◌, ◌%◌, ◌≤◌, ◌<◌, min, max, ◌≡◌, refl, sym, ap, ◌∙◌, subst, ◌≢◌,
  ◌↔◌, ◌⊎◌, inl, inr, Bool, true, false, not, ◌&&◌, ◌||◌, Option, none, some, List, [], ◌∷◌, ◌++◌,
  map, append_assoc, append-nil, arith, ltb, leb, ◌==◌, if◌then◌else◌, Bool-cases, Option-cases,
  Bytes, codes, ◌=s◌, str_dec, length, get_elem?, set, take, drop, replicate, All, All-append,
  All-map, length-append,
}
use remindb.Prelude.Assoc.{lookup, insert}
use remindb.Prelude.Result.{Result, ok, err, ◌>>=◌}
use remindb.Prelude.Sorting.{contains}
use remindb.Parser.Ast.{ContextNode, Tree, Trees, node, nil, cons, Float64, flatten}
use remindb.Diff.{Op, op_add, op_mod, op_rem, Delta, NodeState, States, diff_flat}
use remindb.Store.Rows.{Node, Table, Error}
use remindb.Store.Snapshots.{Database, DiffRecord, Snapshot, head_snapshot_id}
use remindb.Emitter.{Options, emit}

-- `Result`.
pub record Counts : Type 0 where
  pub added : ℕ
  pub modified : ℕ
  pub removed : ℕ
  pub total : ℕ

unfoldable count_op : (Op → Bool) → List Delta → ℕ
count_op p [] = 0
count_op p (d ∷ ds) = let rest = count_op p ds in if p d.op then rest + 1 else rest

abbrev is_op_add : Op → Bool
is_op_add o = elim o [ op_add ↦ true | _ ↦ false ]

abbrev is_op_mod : Op → Bool
is_op_mod o = elim o [ op_mod ↦ true | _ ↦ false ]

abbrev is_op_rem : Op → Bool
is_op_rem o = elim o [ op_rem ↦ true | _ ↦ false ]

unfoldable count_result : List Delta → Counts
unfolding count_op
count_result deltas =
    let a = count_op is_op_add deltas in
    let m = count_op is_op_mod deltas in
    let r = count_op is_op_rem deltas in
    record { added = a; modified = m; removed = r; total = a + m + r }

-- `seedTemp` and `seedPin` on the trees of a file.
unfoldable mutual
  seed_node : Option Float64 → Bool → Tree → Tree
  seed_node t pin (node n kids) =
      node
        (record n {
          temperature = elim t [ none ↦ n.temperature | some v ↦ some v ];
          seed_pinned = pin || n.seed_pinned;
        })
        (seed_nodes t pin kids)

  seed_nodes : Option Float64 → Bool → Trees → Trees
  seed_nodes t pin nil = nil
  seed_nodes t pin (cons x xs) = cons (seed_node t pin x) (seed_nodes t pin xs)

-- `uniqueFilesFlat`, with the files that it has seen.
unfoldable unique_files_flat : List ContextNode → List Bytes → List Bytes
unfolding contains
unique_files_flat [] seen = []
unique_files_flat (n ∷ flat) seen =
    let again = unique_files_flat flat seen in
    let new = n.source_file ∷ unique_files_flat flat (n.source_file ∷ seen) in
    if contains n.source_file seen then again else new

-- The loop of `appendSkippedKeys`, over `StoredSourceFile`.
unfoldable append_keys : (Bytes → Bytes) → List Bytes → List Bytes → List Bytes
unfolding contains
append_keys key files [] = files
append_keys key files (p ∷ skipped) =
    let again = append_keys key files skipped in
    let more = append_keys key (files ++ key p ∷ []) skipped in
    if contains (key p) files then again else more

unfoldable append_skipped_keys :
    (Bytes → Bytes → Bytes) → List Bytes → List Bytes → Bytes → List Bytes
unfolding append_keys
append_skipped_keys stored_source_file files skipped compile_root =
    if compile_root =s []
    then files
    else append_keys (λ p. stored_source_file p compile_root) files skipped

-- `GetNodesByFiles`.
unfoldable pub nodes_by_files : List Bytes → Table → Table
unfolding contains
nodes_by_files files [] = []
nodes_by_files files ((k, n) ∷ t) =
    let rest = nodes_by_files files t in
    if contains n.source_file files then (k, n) ∷ rest else rest

-- The snapshot of the last diff about a node: `latest_per_node`.
unfoldable latest_snapshot : Bytes → List DiffRecord → Option ℕ
latest_snapshot id [] = none
latest_snapshot id (d ∷ diffs) =
    let later = latest_snapshot id diffs in
    if d.node_id =s id
    then some (elim later [ none ↦ d.snapshot_id | some s ↦ max d.snapshot_id s ])
    else later

unfoldable root_of_snapshot : ℕ → List Snapshot → Option Bytes
root_of_snapshot id [] = none
root_of_snapshot id (s ∷ l) = if s.id == id then some s.compile_root else root_of_snapshot id l

-- `GetNodesByCompileRoot`.
unfoldable pub nodes_by_compile_root : Database → Bytes → Table → Table
unfolding latest_snapshot root_of_snapshot
nodes_by_compile_root db root [] = []
nodes_by_compile_root db root ((k, n) ∷ t) =
    let rest = nodes_by_compile_root db root t in
    elim (latest_snapshot k db.diffs) [
      | none ↦ rest
      | some s ↦ elim (root_of_snapshot s db.snapshots) [
        | none ↦ rest
        | some r ↦ if r =s root then (k, n) ∷ rest else rest
      ]
    ]

-- The loop of `buildPrevState`.
unfoldable pub states_of : Table → States
states_of [] = []
states_of ((k, n) ∷ t) = (k, record { hash = n.content_hash; content = n.content }) ∷ states_of t

pub record CompileInput : Type 0 where
  pub roots : Trees
  pub skipped : List Bytes
  pub full_rescan : Bool
  pub compile_root : Bytes
  pub message : Bytes

-- `StoredSourceFile` of pkg/transformer and `CursorHashForCompile` of pkg/diff.
module _ (stored_source_file : Bytes → Bytes → Bytes)
    (cursor_hash : ℕ → List ContextNode → Bytes) where
  unfoldable pub load_prev_nodes : CompileInput → Database → Table
  unfolding append_skipped_keys unique_files_flat nodes_by_files nodes_by_compile_root
  load_prev_nodes input db =
      let files =
        append_skipped_keys stored_source_file (unique_files_flat (flatten input.roots) [])
          input.skipped input.compile_root in
      if input.full_rescan && not (input.compile_root =s [])
      then nodes_by_compile_root db input.compile_root db.nodes
      else nodes_by_files files db.nodes

  unfoldable pub build_prev_state : CompileInput → Database → States
  unfolding load_prev_nodes states_of
  build_prev_state input db = states_of (load_prev_nodes input db)

  -- The deltas of `Compile`, and what it emits.
  unfoldable pub compile_options : CompileInput → Database → Options
  unfolding build_prev_state
  compile_options input db = record {
    roots = input.roots;
    deltas = diff_flat (flatten input.roots) (build_prev_state input db);
    cursor_hash = cursor_hash (head_snapshot_id db) (flatten input.roots);
    message = input.message;
    compile_root = input.compile_root;
  }

  unfoldable compile : ℕ → CompileInput → Database → Result Error (Counts × Database)
  unfolding compile_options count_result
  compile now input db = emit now (compile_options input db) db >>= λ db'.
      ok (count_result (compile_options input db).deltas, db')
