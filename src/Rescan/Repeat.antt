-- ===== src/Rescan/Repeat.antt =====
-- What one scan leaves to the next.
use remindb.Prelude.{
  ℕ, ◌≡◌, refl, sym, ap, ◌∙◌, subst, ◌≢◌, Bool, false, Option, none, some, List, [], ◌∷◌, map,
  Bytes, All, All-map, All-zip,
}
use remindb.Prelude.Result.{Result, ok, err}
use remindb.Prelude.Sorting.{DistinctStrings}
use remindb.Diff.{Delta}
use remindb.Store.Snapshots.{Database}
use remindb.Compiler.{Counts}
use remindb.Rescan.{
  Times, FileInfo, PurgedFile, no_counts, some_path, Loop, changed_files, deleted_paths,
  forget_paths, copy_times, reconcile_deleted, compile_changed, scan, scan_files, after_compile,
  after_purge,
}
use remindb.Rescan.Quiet.{
  Known, AllSeen, changed_files-Known, deleted_paths-AllSeen, copy_times-AllSeen,
  forget_paths-AllSeen,
}
use remindb.Rescan.Known.{
  paths_of, stored_times, SettledBefore, Known-later, copy_times-Known, changed_files-AllSeen,
  forget_paths-Agree, own_paths,
}

module _ {Fault : Type 0} (cursor_hash : ℕ → List Delta → Bytes) (rel : Bytes → Bytes)
    (compile : ℕ → List Bytes → Database → Result Fault (Counts × Database)) where
  -- A scan of a loop that knows all that has settled, and whose keys were all seen.
  scan-Known :
      (now : ℕ) (files : List FileInfo) (loop : Loop) (db : Database)
      → All (Known now loop.settle loop.mod_times) files
      → AllSeen (paths_of files) loop.mod_times
      → scan cursor_hash rel compile now (ok files) loop db ≡ record {
        loop = record loop { mod_times = loop.mod_times };
        db = db;
        status = record { run_at = now; fault = none; counts = no_counts; purged_files = [] };
        notified = false;
      }
  unfolding scan scan_files reconcile_deleted
  scan-Known now files loop db known seen =
      ap
        (λ changed.
          scan_files cursor_hash rel compile now loop changed
            (deleted_paths (paths_of files) loop.mod_times) db)
        (changed_files-Known now loop.settle loop.mod_times files known)
      ∙ ap (λ deleted. scan_files cursor_hash rel compile now loop [] deleted db)
          (deleted_paths-AllSeen (paths_of files) loop.mod_times seen)

  -- The loop of a scan that met no failure.
  after_compile-loop :
      (now : ℕ) (loop : Loop) (changed : Times) (purged : List PurgedFile) (db : Database)
      (result : Result Fault (Counts × Database))
      → (after_compile cursor_hash rel compile now loop changed purged db result).status.fault
        ≡ none
      → (after_compile cursor_hash rel compile now loop changed purged db result).loop
        ≡ record loop { mod_times = copy_times changed loop.mod_times }
  unfolding after_compile copy_times
  after_compile-loop now loop changed purged db (err fault) h = cc
  after_compile-loop now loop changed purged db (ok (counts, db')) h = refl

  compile_changed-loop :
      (now : ℕ) (loop : Loop) (changed : Times) (any : Bool) (purged : List PurgedFile)
      (db : Database)
      → (compile_changed cursor_hash rel compile now loop changed any purged db).status.fault ≡ none
      → (compile_changed cursor_hash rel compile now loop changed any purged db).loop
        ≡ record loop { mod_times = copy_times changed loop.mod_times }
  unfolding compile_changed copy_times
  compile_changed-loop now loop [] any purged db h = refl
  compile_changed-loop now loop (c ∷ cs) any purged db h =
      after_compile-loop now loop (c ∷ cs) purged db
        (compile now (map (λ (p : Bytes × ℕ). p.0) (c ∷ cs)) db) h

  after_purge-loop :
      (now : ℕ) (loop : Loop) (changed : Times) (deleted : List Bytes) (db : Database)
      (purged : Option (List PurgedFile × Database))
      → purged ≢ none
      → (after_purge cursor_hash rel compile now loop changed deleted db purged).status.fault ≡ none
      → (after_purge cursor_hash rel compile now loop changed deleted db purged).loop
        ≡ record loop { mod_times = copy_times changed (forget_paths deleted loop.mod_times) }
  unfolding after_purge
  after_purge-loop now loop changed deleted db none ne h = absurd (ne refl)
  after_purge-loop now loop changed deleted db (some (purged, db')) ne h =
      compile_changed-loop now (record loop { mod_times = forget_paths deleted loop.mod_times })
        changed (some_path deleted) purged db' h

  scan-loop :
      (now : ℕ) (files : List FileInfo) (loop : Loop) (db : Database)
      → reconcile_deleted cursor_hash now
          (map rel (deleted_paths (paths_of files) loop.mod_times))
          db
        ≢ none
      → (scan cursor_hash rel compile now (ok files) loop db).status.fault ≡ none
      → (scan cursor_hash rel compile now (ok files) loop db).loop
        ≡ record loop { mod_times = stored_times now loop files }
  unfolding scan scan_files
  scan-loop now files loop db purged fine =
      let deleted = deleted_paths (paths_of files) loop.mod_times in
      after_purge-loop now loop (changed_files now loop.settle loop.mod_times files) deleted db
        (reconcile_deleted cursor_hash now (map rel deleted) db) purged fine

stored_times-Known :
    (now later : ℕ) (loop : Loop) (files : List FileInfo)
    → DistinctStrings (paths_of files)
    → All (SettledBefore now later loop.settle) files
    → All (Known later loop.settle (stored_times now loop files)) files
stored_times-Known now later loop files distinct settled =
    let seen = paths_of files in
    let times = loop.mod_times in
    let stored = stored_times now loop files in
    All-map
      (λ (f : FileInfo) h.
        let (before, known) = h in Known-later now later loop.settle stored f before known)
      files
      (All-zip _ _ files settled (
        copy_times-Known now loop.settle times (forget_paths (deleted_paths seen times) times) files
          distinct (forget_paths-Agree seen times files (own_paths files))))

stored_times-AllSeen :
    (now : ℕ) (loop : Loop) (files : List FileInfo)
    → AllSeen (paths_of files) (stored_times now loop files)
stored_times-AllSeen now loop files =
    let seen = paths_of files in
    copy_times-AllSeen seen (changed_files now loop.settle loop.mod_times files)
      (forget_paths (deleted_paths seen loop.mod_times) loop.mod_times)
      (changed_files-AllSeen now loop.settle loop.mod_times seen files (own_paths files))
      (forget_paths-AllSeen seen loop.mod_times)

-- A scan that succeeded is quiet when it is repeated: where neither its purge nor its compile failed,
-- a later scan of the same files purges nothing, compiles nothing, notifies nobody, and changes
-- neither the database nor the loop. The walk finds each path once, and what has settled at the later
-- time had settled at the first.
pub scan-quiet :
    {Fault : Type 0} (cursor_hash : ℕ → List Delta → Bytes) (rel : Bytes → Bytes)
    (compile : ℕ → List Bytes → Database → Result Fault (Counts × Database)) (now later : ℕ)
    (files : List FileInfo) (loop : Loop) (db : Database)
    → DistinctStrings (paths_of files)
    → All (SettledBefore now later loop.settle) files
    → reconcile_deleted cursor_hash now (map rel (deleted_paths (paths_of files) loop.mod_times)) db
      ≢ none
    → (scan cursor_hash rel compile now (ok files) loop db).status.fault ≡ none
    → let first = scan cursor_hash rel compile now (ok files) loop db in
      scan cursor_hash rel compile later (ok files) first.loop first.db ≡ record {
        loop = first.loop;
        db = first.db;
        status = record { run_at = later; fault = none; counts = no_counts; purged_files = [] };
        notified = false;
      }
scan-quiet {Fault} cursor_hash rel compile now later files loop db distinct settled purged fine =
    let first = scan cursor_hash rel compile now (ok files) loop db in
    let stored = record loop { mod_times = stored_times now loop files } in
    let Quiet : Loop → Type 0 = λ l.
      scan cursor_hash rel compile later (ok files) l first.db ≡ record {
        loop = l;
        db = first.db;
        status = record { run_at = later; fault = none; counts = no_counts; purged_files = [] };
        notified = false;
      } in
    subst Quiet (sym (scan-loop cursor_hash rel compile now files loop db purged fine)) (
      scan-Known cursor_hash rel compile later files stored first.db
        (stored_times-Known now later loop files distinct settled)
        (stored_times-AllSeen now loop files))
