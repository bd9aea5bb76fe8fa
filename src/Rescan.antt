-- ===== src/Rescan.antt =====
-- pkg/mcp/rescan/rescan.go and pkg/mcp/rescanstat: the loop that recompiles a directory. A time is a
-- number of nanoseconds; the files are what the walk hands to its callback behind the tests on names.
-- A compile is `compiler.Compile` with the options of the loop, on the paths that changed.
pub mod Quiet
pub mod Known
pub mod Config
mod Examples
pub mod Repeat
pub mod Listed
pub mod Retry
use remindb.Prelude.{
  ℕ, zero, suc, ◌+◌, ◌-◌, ◌*◌, ◌/◌, ◌%◌, ◌≤◌, ◌<◌, min, max, ◌≡◌, refl, sym, ap, ◌∙◌, subst, ◌≢◌,
  ◌↔◌, ◌⊎◌, inl, inr, Bool, true, false, not, ◌&&◌, ◌||◌, Option, none, some, List, [], ◌∷◌, ◌++◌,
  map, append_assoc, append-nil, arith, ltb, leb, ◌==◌, if◌then◌else◌, Bool-cases, Option-cases,
  Bytes, codes, ◌=s◌, str_dec, length, get_elem?, set, take, drop, replicate, All, All-append,
  All-map, length-append,
}
use remindb.Prelude.Assoc.{lookup, insert, erase}
use remindb.Prelude.Result.{Result, ok, err, ◌>>=◌}
use remindb.Prelude.Sorting.{contains, sort, str_leb}
use remindb.Prelude.Text.{itoa}
use remindb.Parser.Ast.{nil}
use remindb.Diff.{Delta, op_rem}
use remindb.Store.Rows.{Node, Table, Error, get_or}
use remindb.Store.Snapshots.{Database, head_snapshot_id}
use remindb.Compiler.{Counts, nodes_by_files}
use remindb.Emitter.{emit}

-- The times at which files were last compiled.
abbrev pub Times : Type 0
Times = List (Bytes × ℕ)

-- A path of the walk, with its modification time where `Info` gives one.
abbrev pub FileInfo : Type 0
FileInfo = Bytes × Option ℕ

abbrev pub PurgedFile : Type 0
PurgedFile = Bytes × ℕ

-- `rescanstat.Snapshot`; the error is `none` where the code has an empty text.
pub record ScanStatus {ℓ} (Fault : Type ℓ) : Type ℓ where
  pub run_at : ℕ
  pub fault : Option Fault
  pub counts : Counts
  pub purged_files : List PurgedFile

abbrev pub no_counts : Counts
no_counts = record { added = 0; modified = 0; removed = 0; total = 0 }

-- The settings of a `Loop` that `reloadConfig` changes, and its times.
pub record Loop : Type 0 where
  pub dir : Bytes
  pub bootstrap_interval : ℕ
  pub interval : ℕ
  pub settle : ℕ
  pub enabled : Bool
  pub config_hash : Bytes
  pub mod_times : Times

-- The file was written after its last compile, or was never compiled.
abbrev pub is_newer : Option ℕ → ℕ → Bool
is_newer none mtime = true
is_newer (some prev) mtime = ltb prev mtime

-- `now.Sub(mtime) < settle` puts a file off.
abbrev pub is_settled : ℕ → ℕ → ℕ → Bool
is_settled now settle mtime = leb (mtime + settle) now

-- The paths of `changed`, with their times in `pending`.
unfoldable pub changed_files : ℕ → ℕ → Times → List FileInfo → Times
changed_files now settle times [] = []
changed_files now settle times ((path, none) ∷ files) = changed_files now settle times files
changed_files now settle times ((path, some mtime) ∷ files) =
    let rest = changed_files now settle times files in
    if is_settled now settle mtime && is_newer (lookup path times) mtime
    then (path, mtime) ∷ rest
    else rest

-- The keys of the times that the walk has not seen.
unfoldable pub deleted_paths : List Bytes → Times → List Bytes
unfolding contains
deleted_paths seen [] = []
deleted_paths seen ((path, t) ∷ times) =
    let rest = deleted_paths seen times in if contains path seen then rest else path ∷ rest

unfoldable pub forget_paths : List Bytes → Times → Times
unfolding erase
forget_paths [] times = times
forget_paths (path ∷ paths) times = forget_paths paths (erase path times)

-- `maps.Copy`.
unfoldable pub copy_times : Times → Times → Times
unfolding insert
copy_times [] times = times
copy_times ((path, t) ∷ pending) times = copy_times pending (insert path t times)

abbrev removal : Bytes × Node → Delta
removal (k, n) = record {
  node_id = n.id;
  op = op_rem;
  old_hash = n.content_hash;
  new_hash = [];
  old_content = n.content;
  new_content = [];
}

-- `counts`, a map from a file to its number of nodes.
unfoldable pub count_by_file : Table → List PurgedFile → List PurgedFile
unfolding lookup insert
count_by_file [] counts = counts
count_by_file ((k, n) ∷ nodes) counts =
    count_by_file nodes (insert n.source_file (get_or (lookup n.source_file counts) 0 + 1) counts)

abbrev path_leb : PurgedFile → PurgedFile → Bool
path_leb a b = str_leb a.0 b.0

-- What a scan leaves: the loop, the database, the status, and whether the observer was called.
pub record Scanned {ℓ} (Fault : Type ℓ) : Type ℓ where
  pub loop : Loop
  pub db : Database
  pub status : ScanStatus Fault
  pub notified : Bool

abbrev pub some_path : List Bytes → Bool
some_path paths = elim paths [ [] ↦ false | _ ↦ true ]

-- `CursorHashForChange` of pkg/diff.
module _ (cursor_hash : ℕ → List Delta → Bytes) where
  abbrev purge : ℕ → Table → List Bytes → Database → Result Error Database
  purge now nodes deleted db =
      emit now
        (record {
          roots = nil;
          deltas = map removal nodes;
          cursor_hash = cursor_hash (head_snapshot_id db) (map removal nodes);
          message = codes "rescan: purged " ++ itoa (length deleted) ++ codes " files";
          compile_root = [];
        })
        db

  abbrev purge_rows : ℕ → List Bytes → Table → Database → Option (List PurgedFile × Database)
  purge_rows now deleted [] db = some ([], db)
  purge_rows now deleted (e ∷ nodes) db = elim (purge now (e ∷ nodes) deleted db) [
    | err fault ↦ none
    | ok db' ↦ some (sort path_leb (count_by_file (e ∷ nodes) []), db')
  ]

  -- `reconcileDeleted`: what it purged and the database, or `none` where it answers false.
  unfoldable pub reconcile_deleted : ℕ → List Bytes → Database → Option (List PurgedFile × Database)
  reconcile_deleted now [] db = some ([], db)
  reconcile_deleted now (path ∷ paths) db =
      purge_rows now (path ∷ paths) (nodes_by_files (path ∷ paths) db.nodes) db

  module _ {Fault : Type 0} (rel : Bytes → Bytes)
      (compile : ℕ → List Bytes → Database → Result Fault (Counts × Database)) where
    -- The end of `scan`, behind the compile.
    unfoldable pub after_compile :
        ℕ
        → Loop
        → Times
        → List PurgedFile
        → Database
        → Result Fault (Counts × Database)
        → Scanned Fault
    unfolding copy_times
    after_compile now loop changed purged db (err fault) = record {
      loop = loop;
      db = db;
      status = record {
        run_at = now;
        fault = some fault;
        counts = no_counts;
        purged_files = purged;
      };
      notified = false;
    }
    after_compile now loop changed purged db (ok (counts, db')) = record {
      loop = record loop { mod_times = copy_times changed loop.mod_times };
      db = db';
      status = record { run_at = now; fault = none; counts = counts; purged_files = purged };
      notified = true;
    }

    -- The part of `scan` behind the purge.
    unfoldable pub compile_changed :
        ℕ → Loop → Times → Bool → List PurgedFile → Database → Scanned Fault
    unfolding after_compile
    compile_changed now loop [] purged_any purged db = record {
      loop = loop;
      db = db;
      status = record { run_at = now; fault = none; counts = no_counts; purged_files = purged };
      notified = purged_any;
    }
    compile_changed now loop (c ∷ cs) purged_any purged db =
        after_compile now loop (c ∷ cs) purged db
          (compile now (map (λ (p : Bytes × ℕ). p.0) (c ∷ cs)) db)

    -- `scan` behind the walk and the purge.
    unfoldable pub after_purge :
        ℕ
        → Loop
        → Times
        → List Bytes
        → Database
        → Option (List PurgedFile × Database)
        → Scanned Fault
    unfolding compile_changed forget_paths
    after_purge now loop changed deleted db none = compile_changed now loop changed false [] db
    after_purge now loop changed deleted db (some (purged, db')) =
        compile_changed now (record loop { mod_times = forget_paths deleted loop.mod_times })
          changed (some_path deleted) purged db'

    unfoldable pub scan_files : ℕ → Loop → Times → List Bytes → Database → Scanned Fault
    unfolding after_purge
    scan_files now loop changed deleted db =
        after_purge now loop changed deleted db (reconcile_deleted now (map rel deleted) db)

    -- `scan`; `rel` is `filepath.Rel` from the directory, or the path itself where that fails.
    unfoldable pub scan : ℕ → Result Fault (List FileInfo) → Loop → Database → Scanned Fault
    scan now (err fault) loop db = record {
      loop = loop;
      db = db;
      status = record { run_at = now; fault = some fault; counts = no_counts; purged_files = [] };
      notified = false;
    }
    scan now (ok files) loop db =
        scan_files now loop (changed_files now loop.settle loop.mod_times files)
          (deleted_paths (map (λ (f : FileInfo). f.0) files) loop.mod_times) db
