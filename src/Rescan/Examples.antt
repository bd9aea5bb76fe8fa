-- ===== src/Rescan/Examples.antt =====
-- pkg/mcp/rescan at a directory with one file.
use remindb.Prelude.{
  ℕ, ◌≡◌, refl, true, false, none, some, List, [], ◌∷◌, arith, Bytes, codes, str_dec, drop, All,
}
use remindb.Prelude.Assoc.{lookup}
use remindb.Prelude.Result.{Result, ok, err}
use remindb.Prelude.Sorting.{contains}
use remindb.Diff.{Delta}
use remindb.Store.Rows.{Node, default_temperature, delete_node}
use remindb.Store.Snapshots.{Database, create_snapshot}
use remindb.Compiler.{Counts, nodes_by_files}
use remindb.Rescan.{
  FileInfo, Loop, no_counts, scan, changed_files, deleted_paths, reconcile_deleted, scan_files,
  compile_changed,
}
use remindb.Rescan.Repeat.{scan-quiet}
use remindb.Rescan.Listed.{is_listed}
use remindb.Rescan.Retry.{Ran, paths, db_to_compile, scan-retries}
use remindb.Emitter.{emit}

abbrev empty_db : Database
empty_db = record { nodes = []; snapshots = []; diffs = []; head = none; next_snapshot = 1 }

abbrev loop_of : List (Bytes × ℕ) → Loop
loop_of times = record {
  dir = codes "/w";
  bootstrap_interval = 30;
  interval = 30;
  settle = 5;
  enabled = true;
  config_hash = [];
  mod_times = times;
}

abbrev one_file : List FileInfo
one_file = (codes "/w/a.md", some 10) ∷ []

abbrev cursor : ℕ → List Delta → Bytes
cursor head deltas = codes "c"

abbrev rel : Bytes → Bytes
rel path = drop 3 path

abbrev one_added : Counts
one_added = record { added = 1; modified = 0; removed = 0; total = 1 }

abbrev compiles : ℕ → List Bytes → Database → Result Bytes (Counts × Database)
compiles now paths db = ok (one_added, db)

abbrev fails : ℕ → List Bytes → Database → Result Bytes (Counts × Database)
fails now paths db = err (codes "read-only")

scan-quiet_example :
    scan cursor rel compiles 40
      (ok one_file)
      (scan cursor rel compiles 20 (ok one_file) (loop_of []) empty_db).loop
      (scan cursor rel compiles 20 (ok one_file) (loop_of []) empty_db).db
    ≡ record {
      loop = (scan cursor rel compiles 20 (ok one_file) (loop_of []) empty_db).loop;
      db = (scan cursor rel compiles 20 (ok one_file) (loop_of []) empty_db).db;
      status = record { run_at = 40; fault = none; counts = no_counts; purged_files = [] };
      notified = false;
    }
unfolding scan scan_files reconcile_deleted contains deleted_paths changed_files compile_changed
    lookup
scan-quiet_example =
    scan-quiet cursor rel compiles 20 40 one_file (loop_of []) empty_db (refl, tt) ((λ _. refl), tt)
      (ground arith) refl

abbrev failed_loop : Loop
failed_loop = (scan cursor rel fails 20 (ok one_file) (loop_of []) empty_db).loop

-- The first compile fails, the second one works.
scan-retries_example :
    All
      (λ e. is_listed e (changed_files 40 failed_loop.settle failed_loop.mod_times one_file) ≡ true)
      (changed_files 20 5 [] one_file)
    × Ran
        (scan cursor rel compiles 40 (ok one_file) failed_loop empty_db)
        (db_to_compile cursor rel 40 one_file failed_loop empty_db)
        (compiles 40
          (paths (changed_files 40 failed_loop.settle failed_loop.mod_times one_file))
          (db_to_compile cursor rel 40 one_file failed_loop empty_db))
unfolding scan scan_files reconcile_deleted deleted_paths changed_files lookup compile_changed
scan-retries_example =
    scan-retries cursor rel fails compiles 20 40 one_file (loop_of []) empty_db empty_db
      {fault = codes "read-only"} (omega arith) refl

abbrev row : Bytes → Node
row file = record {
  id = file;
  parent_id = [];
  source_file = file;
  node_type = codes "text";
  depth = 1;
  label = [];
  content = [];
  format = [];
  token_count = 0;
  content_hash = [];
  temperature = default_temperature;
  access_count = 0;
  last_accessed = none;
  created_at = 0;
  updated_at = 0;
  pinned = false;
  seed_pinned = false;
  seed_temp = none;
}

-- A file is deleted while another one does not compile: the purge stays, and the observer is not
-- called; the next scan finds nothing deleted any more.
purge_unnotified :
    let db = record empty_db { nodes = (codes "b.md", row (codes "b.md")) ∷ [] } in
    let s = scan cursor rel fails 20 (ok one_file) (loop_of ((codes "/w/b.md", 3) ∷ [])) db in
    (s.db.nodes ≡ []) × (s.notified ≡ false) × (s.loop.mod_times ≡ [])
unfolding scan scan_files reconcile_deleted deleted_paths str_dec nodes_by_files emit
    create_snapshot changed_files lookup delete_node
purge_unnotified = (refl, refl, refl)
