-- ===== src/Rescan/Retry.antt =====
-- What a scan that failed leaves to do.
use remindb.Prelude.{
  ℕ, ◌≤◌, ◌≡◌, refl, sym, subst, ◌≢◌, Bool, true, false, Option, none, some, List, [], ◌∷◌, map,
  arith, Bytes, All, All-pure,
}
use remindb.Prelude.Result.{Result, ok, err}
use remindb.Diff.{Delta}
use remindb.Store.Snapshots.{Database}
use remindb.Compiler.{Counts}
use remindb.Rescan.{
  Times, FileInfo, PurgedFile, some_path, Loop, changed_files, deleted_paths, forget_paths,
  reconcile_deleted, after_compile, compile_changed, after_purge, scan_files, scan, Scanned,
}
use remindb.Rescan.Quiet.{Agree}
use remindb.Rescan.Known.{paths_of, forget_paths-Agree, own_paths}
use remindb.Rescan.Listed.{is_listed, AllListed, AllListed-filled, changed_files-later}

-- The scan ends as the compile does that it ran on the database: with its counts and its database,
-- or with its error.
abbrev pub Ran :
    {Fault : Type 0} → Scanned Fault → Database → Result Fault (Counts × Database) → Type 0
Ran s db (ok (counts, db')) =
    (s.db ≡ db') × (s.status.counts ≡ counts) × (s.status.fault ≡ none) × (s.notified ≡ true)
Ran s db (err fault) = (s.db ≡ db) × (s.status.fault ≡ some fault)

abbrev pub paths : Times → List Bytes
paths changed = map (λ (p : Bytes × ℕ). p.0) changed

-- The database behind the purge.
abbrev purged_db : Option (List PurgedFile × Database) → Database → Database
purged_db none db = db
purged_db (some (purged, db')) db = db'

module _ {Fault : Type 0} (cursor_hash : ℕ → List Delta → Bytes) (rel : Bytes → Bytes)
    (compile : ℕ → List Bytes → Database → Result Fault (Counts × Database)) where
  -- A failed compile leaves the loop alone.
  after_compile-fault :
      (now : ℕ) (loop : Loop) (changed : Times) (purged : List PurgedFile) (db : Database)
      (result : Result Fault (Counts × Database)) {fault : Fault}
      → (after_compile cursor_hash rel compile now loop changed purged db result).status.fault
        ≡ some fault
      → (after_compile cursor_hash rel compile now loop changed purged db result).loop ≡ loop
  unfolding after_compile
  after_compile-fault now loop changed purged db (err f) h = refl
  after_compile-fault now loop changed purged db (ok (counts, db')) h = cc

  compile_changed-fault :
      (now : ℕ) (loop : Loop) (changed : Times) (any : Bool) (purged : List PurgedFile)
      (db : Database) {fault : Fault}
      → (compile_changed cursor_hash rel compile now loop changed any purged db).status.fault
        ≡ some fault
      → (compile_changed cursor_hash rel compile now loop changed any purged db).loop ≡ loop
  unfolding compile_changed
  compile_changed-fault now loop [] any purged db h = cc
  compile_changed-fault now loop (c ∷ cs) any purged db h =
      after_compile-fault now loop (c ∷ cs) purged db
        (compile now (map (λ (p : Bytes × ℕ). p.0) (c ∷ cs)) db) h

  -- The times of the loop agree on a walk, and its settings are the same.
  abbrev SameOn : List FileInfo → Loop → Loop → Type 0
  SameOn files loop loop' =
      Agree loop.mod_times loop'.mod_times files × (loop'.settle ≡ loop.settle)

  after_purge-fault :
      (now : ℕ) (files : List FileInfo) (loop : Loop) (changed : Times) (db : Database)
      (purged : Option (List PurgedFile × Database)) {fault : Fault}
      → let deleted = deleted_paths (paths_of files) loop.mod_times in
        (after_purge cursor_hash rel compile now loop changed deleted db purged).status.fault
          ≡ some fault
        → SameOn files loop
            (after_purge cursor_hash rel compile now loop changed
              (deleted_paths (paths_of files) loop.mod_times)
              db
              purged).loop
  unfolding after_purge
  after_purge-fault now files loop changed db none h =
      subst (SameOn files loop) (sym (compile_changed-fault now loop changed false [] db h))
        (All-pure _ (λ f. refl) files, refl)
  after_purge-fault now files loop changed db (some (purged, db')) h =
      let deleted = deleted_paths (paths_of files) loop.mod_times in
      let loop' = record loop { mod_times = forget_paths deleted loop.mod_times } in
      subst (SameOn files loop)
        (sym (compile_changed-fault now loop' changed (some_path deleted) purged db' h))
        (forget_paths-Agree (paths_of files) loop.mod_times files (own_paths files), refl)

  -- A scan fails only where something has changed.
  after_purge-changed :
      (now : ℕ) (loop : Loop) (changed : Times) (deleted : List Bytes) (db : Database)
      (purged : Option (List PurgedFile × Database)) {fault : Fault}
      → (after_purge cursor_hash rel compile now loop changed deleted db purged).status.fault
        ≡ some fault
      → changed ≢ []
  unfolding after_purge compile_changed
  after_purge-changed now loop [] deleted db none h = cc
  after_purge-changed now loop [] deleted db (some (purged, db')) h = cc
  after_purge-changed now loop (c ∷ cs) deleted db purged h = λ e. ground (arith, e)

  after_compile-Ran :
      (now : ℕ) (loop : Loop) (changed : Times) (purged : List PurgedFile) (db : Database)
      (result : Result Fault (Counts × Database))
      → Ran (after_compile cursor_hash rel compile now loop changed purged db result) db result
  unfolding after_compile
  after_compile-Ran now loop changed purged db (ok (counts, db')) = (refl, refl, refl, refl)
  after_compile-Ran now loop changed purged db (err fault) = (refl, refl)

  compile_changed-Ran :
      (now : ℕ) (loop : Loop) (changed : Times) (any : Bool) (purged : List PurgedFile)
      (db : Database)
      → changed ≢ []
      → Ran
          (compile_changed cursor_hash rel compile now loop changed any purged db)
          db
          (compile now (paths changed) db)
  unfolding compile_changed
  compile_changed-Ran now loop [] any purged db h = absurd (h refl)
  compile_changed-Ran now loop (c ∷ cs) any purged db h =
      after_compile-Ran now loop (c ∷ cs) purged db (compile now (paths (c ∷ cs)) db)

  after_purge-Ran :
      (now : ℕ) (loop : Loop) (changed : Times) (deleted : List Bytes) (db : Database)
      (purged : Option (List PurgedFile × Database))
      → changed ≢ []
      → Ran
          (after_purge cursor_hash rel compile now loop changed deleted db purged)
          (purged_db purged db)
          (compile now (paths changed) (purged_db purged db))
  unfolding after_purge
  after_purge-Ran now loop changed deleted db none h =
      compile_changed-Ran now loop changed false [] db h
  after_purge-Ran now loop changed deleted db (some (purged, db')) h =
      compile_changed-Ran now (record loop { mod_times = forget_paths deleted loop.mod_times })
        changed (some_path deleted) purged db' h

-- What a scan of the files finds deleted, and the database behind its purge.
abbrev pub db_to_compile :
    (ℕ → List Delta → Bytes) → (Bytes → Bytes) → ℕ → List FileInfo → Loop → Database → Database
db_to_compile cursor_hash rel now files loop db =
    purged_db
      (reconcile_deleted cursor_hash now (map rel (deleted_paths (paths_of files) loop.mod_times))
        db)
      db

-- A scan whose compile failed loses no work. At any later time, whatever the database and the compile
-- are by then, a scan of the same files finds every file again that the first one had found changed,
-- with its time, and hands the paths of all that it finds to the compile, on the database behind
-- its purge. It ends as that compile does: with its counts and its database and a notice, or with its
-- error.
pub scan-retries :
    {Fault : Type 0} (cursor_hash : ℕ → List Delta → Bytes) (rel : Bytes → Bytes)
    (compile compile' : ℕ → List Bytes → Database → Result Fault (Counts × Database))
    (now later : ℕ) (files : List FileInfo) (loop : Loop) (db db' : Database) {fault : Fault}
    → now ≤ later
    → (scan cursor_hash rel compile now (ok files) loop db).status.fault ≡ some fault
    → let loop' = (scan cursor_hash rel compile now (ok files) loop db).loop in
      let again = changed_files later loop'.settle loop'.mod_times files in
      let purged = db_to_compile cursor_hash rel later files loop' db' in
      All (λ e. is_listed e again ≡ true) (changed_files now loop.settle loop.mod_times files)
      × Ran
          (scan cursor_hash rel compile' later (ok files) loop' db')
          purged
          (compile' later (paths again) purged)
unfolding scan scan_files
scan-retries cursor_hash rel compile compile' now later files loop db db' le fail =
    let deleted = deleted_paths (paths_of files) loop.mod_times in
    let purged = reconcile_deleted cursor_hash now (map rel deleted) db in
    let changed = changed_files now loop.settle loop.mod_times files in
    let (agree, settle) =
      after_purge-fault cursor_hash rel compile now files loop changed db purged fail in
    let loop' = (scan cursor_hash rel compile now (ok files) loop db).loop in
    let again = changed_files later loop'.settle loop'.mod_times files in
    let gone = deleted_paths (paths_of files) loop'.mod_times in
    let listed : AllListed changed again =
      rw settle (changed_files-later now later loop.settle loop.mod_times _ files le agree) in
    let some_changed =
      after_purge-changed cursor_hash rel compile now loop changed deleted db purged fail in
    (
      listed,
      after_purge-Ran cursor_hash rel compile' later loop' again gone db'
          (reconcile_deleted cursor_hash later (map rel gone) db')
          (AllListed-filled changed again some_changed listed),
    )
