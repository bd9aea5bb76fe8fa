-- ===== src/Store/Prune.antt =====
-- `PruneSnapshotsAfter` of pkg/store/snapshot.go.
use remindb.Prelude.{ℕ, ◌-◌, not, ◌&&◌, List, [], ◌∷◌, ltb, ◌==◌, if◌then◌else◌, length}
use remindb.Store.Snapshots.{DiffRecord, Snapshot, Database}

-- `PruneSnapshotsAfterTx`: what it keeps, and how many snapshots it deletes.
unfoldable prune_diffs : ℕ → ℕ → List DiffRecord → List DiffRecord
prune_diffs target exclude [] = []
prune_diffs target exclude (d ∷ l) =
    let rest = prune_diffs target exclude l in
    if ltb target d.snapshot_id && not (d.snapshot_id == exclude) then rest else d ∷ rest

unfoldable prune_snapshots : ℕ → ℕ → List Snapshot → List Snapshot
prune_snapshots target exclude [] = []
prune_snapshots target exclude (s ∷ l) =
    let rest = prune_snapshots target exclude l in
    if ltb target s.id && not (s.id == exclude) then rest else s ∷ rest

unfoldable pub prune_snapshots_after : ℕ → ℕ → Database → Database × ℕ
unfolding prune_diffs prune_snapshots
prune_snapshots_after target exclude db =
    let kept = prune_snapshots target exclude db.snapshots in
    (
      record db { diffs = prune_diffs target exclude db.diffs; snapshots = kept },
      length db.snapshots - length kept,
    )
