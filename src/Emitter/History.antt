-- ===== src/Emitter/History.antt =====
-- A history of emits, and the restore of the state that it began with.
use remindb.Prelude.{
  ℕ, ◌≤◌, ◌<◌, ◌≡◌, refl, ap, ◌∙◌, inl, inr, true, List, [], ◌∷◌, ◌++◌, arith, Option-cases, All,
}
use remindb.Prelude.Assoc.{lookup}
use remindb.Prelude.Result.{ok}
use remindb.Parser.Ast.{flatten_map}
use remindb.Diff.{Delta}
use remindb.Store.Rows.{Table}
use remindb.Store.Snapshots.{
  Snapshot, DiffRecord, Database, RestoreResult, diffs_after, restore_to_snapshot, has_snapshot,
  new_snapshot,
}
use remindb.Emitter.{Options, NodeMap, capture_pre_state, diff_record, snapshot_options}
use remindb.Emitter.Core.{core_at, Same, Keyed, KeyedMap}
use remindb.Emitter.Records.{undo_all, reverse_apply_all-reverse, records}
use remindb.Emitter.Emitted.{
  start, next, SafeChange, History, Emitted, flatten_map-KeyedMap, next, emit-Emitted,
  has_snapshot-append,
}
use remindb.Emitter.Restored.{reverse_apply-Same, undo_all-append}
use remindb.Emitter.Undo.{undo_all-apply_deltas}
use remindb.Emitter.Forward.{apply_deltas-Keyed}

undo_all-Same_of_Same :
    (ds : List DiffRecord) (r r' : RestoreResult)
    → Same r.nodes r'.nodes
    → Same (undo_all ds r).nodes (undo_all ds r').nodes
unfolding undo_all
undo_all-Same_of_Same [] r r' s = s
undo_all-Same_of_Same (d ∷ ds) r r' s =
    reverse_apply-Same d (undo_all ds r) (undo_all ds r') (undo_all-Same_of_Same ds r r' s)

diffs_after-append :
    (target : ℕ) (xs ys : List DiffRecord)
    → diffs_after target (xs ++ ys) ≡ diffs_after target xs ++ diffs_after target ys
unfolding diffs_after
diffs_after-append target [] ys = refl
diffs_after-append target (d ∷ xs) ys = ground (arith, diffs_after-append target xs ys)

diffs_after-records :
    (target s : ℕ) (pre : Table) (ds : List Delta)
    → target < s
    → diffs_after target (records s pre ds) ≡ records s pre ds
unfolding diffs_after diff_record
diffs_after-records target s pre [] h = refl
diffs_after-records target s pre (d ∷ ds) h =
    ground (arith, diffs_after-records target s pre ds h, Option-cases (lookup d.node_id pre))

diffs_after_none :
    (target : ℕ) (ds : List DiffRecord)
    → All (λ d. d.snapshot_id ≤ target) ds
    → diffs_after target ds ≡ []
unfolding diffs_after
diffs_after_none target [] h = refl
diffs_after_none target (d ∷ ds) h = ground (arith, diffs_after_none target ds h.1)

abbrev begin : Table → RestoreResult
begin t = record { nodes = t; skipped = [] }

-- The database at the target snapshot.
pub record IsAt (target : ℕ) (db : Database) : Type 0 where
  pub keyed : Keyed db.nodes
  pub recorded : All (λ d. d.snapshot_id ≤ target) db.diffs
  pub present : has_snapshot target db.snapshots ≡ true
  pub past : target < db.next_snapshot

pub record Tracks (target : ℕ) (db db' : Database) : Type 0 where
  keyed : Keyed db'.nodes
  present : has_snapshot target db'.snapshots ≡ true
  past : target < db'.next_snapshot
  undone : Same (undo_all (diffs_after target db'.diffs) (begin db'.nodes)).nodes db.nodes

Emitted-Tracks :
    (target now : ℕ) (o : Options) (db d₁ d₂ : Database)
    → Tracks target db d₁
    → SafeChange now o d₁
    → Emitted now o d₁ d₂
    → Tracks target db d₂
Emitted-Tracks target now o db d₁ d₂ k safe (ran, diffs, next_id, head, snaps) = record {
  keyed = apply_deltas-Keyed now m o.deltas d₁.nodes d₂.nodes km k.keyed ran;
  present =
      ground
        (arith, ap (has_snapshot target) snaps, has_snapshot-append target d₁.snapshots (new ∷ []));
  past = omega arith;
  undone = λ q.
      ap (λ ds. core_at q (undo_all ds (begin d₂.nodes)).nodes) later
      ∙ ap (λ (r : RestoreResult). core_at q r.nodes)
          (undo_all-append (diffs_after target d₁.diffs) recs (begin d₂.nodes))
      ∙ undo_all-Same_of_Same (diffs_after target d₁.diffs) (undo_all recs (begin d₂.nodes))
          (begin d₁.nodes) undone_once q
      ∙ k.undone q;
}
  where
    m : NodeMap
    m = flatten_map o.roots

    km : KeyedMap m
    km = flatten_map-KeyedMap o.roots

    new : Snapshot
    new = new_snapshot now (snapshot_options o) (record d₁ { nodes = d₂.nodes })

    recs : List DiffRecord
    recs = records d₁.next_snapshot (capture_pre_state d₁.nodes o.deltas []) o.deltas

    later : diffs_after target d₂.diffs ≡ diffs_after target d₁.diffs ++ recs
    later =
        ap (diffs_after target) diffs
        ∙ diffs_after-append target d₁.diffs recs
        ∙ ap (λ l. diffs_after target d₁.diffs ++ l)
            (diffs_after-records target d₁.next_snapshot _ o.deltas k.past)

    undone_once : Same (undo_all recs (begin d₂.nodes)).nodes d₁.nodes
    undone_once =
        undo_all-apply_deltas now d₁.next_snapshot m o.deltas d₁.nodes (begin d₂.nodes) km k.keyed
          safe.distinct safe.coherent safe.closed ran

History-Tracks :
    (target : ℕ) {db db' : Database} → IsAt target db → History db db' → Tracks target db db'
unfolding undo_all
History-Tracks target {db} at start = record {
  keyed = at.keyed;
  present = at.present;
  past = at.past;
  undone = λ q. rw (diffs_after_none target db.diffs at.recorded) refl;
}
History-Tracks target {db} at (next {d₁} {d₂} now o h safe e) =
    let k = History-Tracks target at h in
    elim (emit-Emitted now o d₁ d₂ e) [
      | inl (nothing, same) ↦ rw same k
      | inr emitted ↦ Emitted-Tracks target now o db d₁ d₂ k safe emitted
    ]

-- Restoring a snapshot gives back the nodes of its time: after any history of emits on a database
-- whose diffs all belong to snapshots up to `target`, the restore of `target` succeeds, and finds
-- at every id the node that stood there, with its place, content and metadata; what no diff holds
-- is left open (temperature, access counts, times, pin). Each emit of the history has one delta for
-- an id, deltas that are right about the table, and deletions that take along only rows removed by
-- later deltas.
pub restore_to_snapshot-Same :
    (target : ℕ) (db db' : Database)
    → IsAt target db
    → History db db'
    → (r : RestoreResult) × (restore_to_snapshot db' target ≡ ok r) × Same r.nodes db.nodes
unfolding restore_to_snapshot
restore_to_snapshot-Same target db db' at h =
    let k = History-Tracks target at h in
    let ds = diffs_after target db'.diffs in
    (
      undo_all ds (begin db'.nodes),
      rw (k.present, reverse_apply_all-reverse ds (begin db'.nodes)) refl,
      k.undone,
    )
