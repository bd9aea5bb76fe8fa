-- ===== src/Tools/Rollback/Restores.antt =====
-- A rollback gives back the nodes of its target.
use remindb.Prelude.{
  ℕ, ◌≡◌, refl, sym, ap, ◌∙◌, subst, inl, inr, Bool, true, Option, none, some, List, [], ◌∷◌, arith,
  Bool-cases, Bytes,
}
use remindb.Prelude.Assoc.{lookup}
use remindb.Prelude.Result.{ok, >>=-ok}
use remindb.Diff.{Delta}
use remindb.Diff.Distinct.{IsMap}
use remindb.Store.Rows.{Node, Table}
use remindb.Store.Snapshots.{
  Database, RestoreResult, restore_to_snapshot, create_snapshot, SnapshotOptions,
}
use remindb.Store.Prune.{prune_snapshots_after}
use remindb.Emitter.Core.{core, core_at, Keyed, Same}
use remindb.Tools.Rollback.{
  node_equal, compute_rollback_deltas, apply_rollback_mutations, rollback_write, handle_rollback,
  Outcome, rolled_back, rollback_options, rollback_finish, rollback_changes,
}
use remindb.Tools.Rollback.Step.{Fate}
use remindb.Tools.Rollback.Fate.{rollback_closed, mutations-Fate}
use remindb.Emitter.{capture_pre_state}
use remindb.Tools.Rollback.Deltas.{delta_at, compute-DistinctDeltas, find-compute}

-- Rows of one id with one content hash have one content.
abbrev NoCollision : Table → Table → Type 0
NoCollision current target =
    (q : Bytes) (c t : Node)
    → lookup q current ≡ some c
    → lookup q target ≡ some t
    → c.content_hash ≡ t.content_hash
    → c.content ≡ t.content

node_equal-core :
    (c t : Node)
    → c.id ≡ t.id
    → (c.content_hash ≡ t.content_hash → c.content ≡ t.content)
    → node_equal c t ≡ true
    → core c ≡ core t
unfolding node_equal
node_equal-core c t i h e = ground (arith, h)

core-none : (q : Bytes) (t : Table) → lookup q t ≡ none → core_at q t ≡ none
core-none q t e = ground (arith, e)

core-some : (q : Bytes) (t : Table) (n : Node) → lookup q t ≡ some n → core_at q t ≡ some (core n)
core-some q t n e = ground (arith, e)

module _ (now : ℕ) (current target : Table) (kc : Keyed current) (kt : Keyed target)
    (mc : IsMap current) (mt : IsMap target) where
  mutations-Same :
      (t' : Table)
      → NoCollision current target
      → rollback_closed now target current (compute_rollback_deltas current target) ≡ true
      → apply_rollback_mutations now target (compute_rollback_deltas current target) current ≡ ok t'
      → Same t' target
  mutations-Same t' h c e q =
      let ds = compute_rollback_deltas current target in
      let fate =
        mutations-Fate now target kt ds current t' q kc
          (compute-DistinctDeltas current target mc mt) c e in
      go (lookup q current) (lookup q target) refl refl
        (subst (Fate target q current t') (find-compute current target mc mt q) fate)
    where
      go :
          (x y : Option Node)
          → lookup q current ≡ x
          → lookup q target ≡ y
          → Fate target q current t' (delta_at q x y)
          → core_at q t' ≡ core_at q target
      go none none a b f = f ∙ core-none q current a ∙ sym (core-none q target b)
      go (some x) none a b f = core-none q t' f ∙ sym (core-none q target b)
      go none (some y) a b f = f
      go (some x) (some y) a b f = elim (Bool-cases (node_equal x y)) [
        | inl same ↦
            let kept : core_at q t' ≡ core_at q current = ground (arith, f, same) in
            kept
            ∙ core-some q current x a
            ∙ ap some (node_equal-core x y (kc q x a ∙ sym (kt q y b)) (h q x y a b) same)
            ∙ sym (core-some q target y b)
        | inr other ↦ ground (arith, f, other)
      ]

create-nodes :
    (now : ℕ) (o : SnapshotOptions) (db db' : Database) (id : ℕ)
    → create_snapshot now o db ≡ ok (id, db')
    → db'.nodes ≡ db.nodes
unfolding create_snapshot
create-nodes now o db db' id e = ground arith

module _ (cursor_hash : ℕ → ℕ → List Delta → Bytes) (now target : ℕ) (drop_after : Bool) where
  finish-nodes :
      (deltas : List Delta) (pre : Table) (restore : RestoreResult) (id : ℕ) (made db' : Database)
      (o : Outcome)
      → rollback_finish cursor_hash target drop_after deltas pre restore id made ≡ ok (o, db')
      → db'.nodes ≡ made.nodes
  unfolding rollback_finish prune_snapshots_after
  finish-nodes deltas pre restore id made db' o e = ground (arith, Bool-cases drop_after)

  write-nodes :
      (deltas : List Delta) (restore : RestoreResult) (db db' : Database) (o : Outcome)
      → rollback_write cursor_hash now target drop_after deltas restore db ≡ ok (o, db')
      → apply_rollback_mutations now restore.nodes deltas db.nodes ≡ ok db'.nodes
  unfolding rollback_write
  write-nodes deltas restore db db' o e =
      let opts = rollback_options cursor_hash target drop_after deltas db in
      let pre = capture_pre_state db.nodes deltas [] in
      let (t, applied, rest) =
        >>=-ok (apply_rollback_mutations now restore.nodes deltas db.nodes) _ e in
      let (made, created, finished) =
        >>=-ok (create_snapshot now opts (record db { nodes = t })) _ rest in
      applied
      ∙ ap ok (
          sym (create-nodes now opts (record db { nodes = t }) made.1 made.0 created)
          ∙ sym (finish-nodes deltas pre restore made.0 made.1 db' o finished))

  changes-write :
      (deltas : List Delta) (restore : RestoreResult) (db db' : Database) (id affected pruned : ℕ)
      (skipped : List Bytes)
      → rollback_changes cursor_hash now target drop_after deltas restore db
        ≡ ok (rolled_back id affected pruned skipped, db')
      → rollback_write cursor_hash now target drop_after deltas restore db
        ≡ ok (rolled_back id affected pruned skipped, db')
  unfolding rollback_changes
  changes-write [] restore db db' id affected pruned skipped e = absurd (ground (arith, e))
  changes-write (d ∷ ds) restore db db' id affected pruned skipped e = e

  handle-changes :
      (db db' : Database) (id affected pruned : ℕ) (skipped : List Bytes) (restore : RestoreResult)
      → restore_to_snapshot db target ≡ ok restore
      → handle_rollback cursor_hash now target drop_after db
        ≡ ok (rolled_back id affected pruned skipped, db')
      → rollback_changes cursor_hash now target drop_after
          (compute_rollback_deltas db.nodes restore.nodes)
          restore
          db
        ≡ ok (rolled_back id affected pruned skipped, db')
  unfolding handle_rollback
  handle-changes db db' id affected pruned skipped restore r e = ground (arith, r, e)

  -- A rollback that reports a new snapshot has given every id the node that the restore of the target
  -- computes for it, with its place, content and metadata, whether or not it prunes. The rows of both
  -- tables stand under their ids, once each; rows of one id with one content hash have one content;
  -- and deletions take along only rows that later deltas remove.
  pub handle_rollback-Same :
      (db db' : Database) (id affected pruned : ℕ) (skipped : List Bytes) (restore : RestoreResult)
      → Keyed db.nodes
      → IsMap db.nodes
      → Keyed restore.nodes
      → IsMap restore.nodes
      → NoCollision db.nodes restore.nodes
      → rollback_closed now restore.nodes db.nodes (compute_rollback_deltas db.nodes restore.nodes)
        ≡ true
      → restore_to_snapshot db target ≡ ok restore
      → handle_rollback cursor_hash now target drop_after db
        ≡ ok (rolled_back id affected pruned skipped, db')
      → Same db'.nodes restore.nodes
  handle_rollback-Same db db' id affected pruned skipped restore kc mc kt mt h c r e =
      mutations-Same now db.nodes restore.nodes kc kt mc mt db'.nodes h c (
        write-nodes (compute_rollback_deltas db.nodes restore.nodes) restore db db'
          (rolled_back id affected pruned skipped)
          (changes-write (compute_rollback_deltas db.nodes restore.nodes) restore db db' id affected
            pruned skipped (handle-changes db db' id affected pruned skipped restore r e)))
