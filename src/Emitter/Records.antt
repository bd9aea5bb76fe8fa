-- ===== src/Emitter/Records.antt =====
-- The diffs that pkg/emitter records, and the metadata in them.
use remindb.Prelude.{
  ℕ, ◌≡◌, refl, ap, ◌∙◌, ◌≢◌, inl, inr, false, none, some, List, [], ◌∷◌, ◌++◌, map, arith,
  Option-cases, Bytes,
}
use mathlib.Core.List.{reverse, reverse-cons}
use remindb.Prelude.Assoc.{lookup, lookup-insert, lookup-erase}
use remindb.Diff.{Op, op_add, op_mod, op_rem, Delta}
use remindb.Store.Rows.{Node, Table}
use remindb.Store.Snapshots.{
  DiffRecord, RestoreResult, metadata_of, revert_row, revive_row, reverse_apply_diff,
  reverse_apply_all,
}
use remindb.Emitter.{diff_record}
use remindb.Emitter.Core.{core, core_at}
use remindb.Diff.Distinct.{touched}

-- A delta is right about the table: an addition is of a new id, a change is of a row, with the old
-- hash and content that the row has.
abbrev OldRow : Table → Delta → Type 0
OldRow t d =
    (n : Node) × (lookup d.node_id t ≡ some n)
    × (d.old_hash ≡ n.content_hash)
    × (d.old_content ≡ n.content)

abbrev pub CoherentOp : Table → Delta → Op → Type 0
CoherentOp t d op_add = lookup d.node_id t ≡ none
CoherentOp t d op_mod = OldRow t d
CoherentOp t d op_rem = OldRow t d

abbrev pub Coherent : Table → Delta → Type 0
Coherent t d = CoherentOp t d d.op

-- The diffs of one snapshot, newest first.
unfoldable pub undo_all : List DiffRecord → RestoreResult → RestoreResult
undo_all [] r = r
undo_all (d ∷ ds) r = reverse_apply_diff d (undo_all ds r)

reverse_apply_all-append :
    (xs ys : List DiffRecord) (r : RestoreResult)
    → reverse_apply_all (xs ++ ys) r ≡ reverse_apply_all ys (reverse_apply_all xs r)
unfolding reverse_apply_all
reverse_apply_all-append [] ys r = refl
reverse_apply_all-append (d ∷ xs) ys r = reverse_apply_all-append xs ys (reverse_apply_diff d r)

pub reverse_apply_all-reverse :
    (recs : List DiffRecord) (r : RestoreResult)
    → reverse_apply_all (reverse recs) r ≡ undo_all recs r
unfolding undo_all reverse_apply_all
reverse_apply_all-reverse [] r = refl
reverse_apply_all-reverse (d ∷ recs) r =
    rw (reverse-cons d recs, reverse_apply_all-append (reverse recs) (d ∷ []) r)
      (ap (reverse_apply_diff d) (reverse_apply_all-reverse recs r))

pub undo_other :
    (q : Bytes) (d : DiffRecord) (r : RestoreResult)
    → q ≢ d.node_id
    → core_at q (reverse_apply_diff d r).nodes ≡ core_at q r.nodes
undo_other q d r h = go d.op refl
  where
    go : (o : Op) → d.op ≡ o → core_at q (reverse_apply_diff d r).nodes ≡ core_at q r.nodes
    go op_add e = unfold reverse_apply_diff in ground (arith, lookup-erase q d.node_id r.nodes)
    go op_mod e = elim (Option-cases (lookup d.node_id r.nodes)) [
      | inl lost ↦ unfold reverse_apply_diff in ground arith
      | inr (n, found) ↦
          unfold reverse_apply_diff in
          ground (arith, lookup-insert q d.node_id (revert_row d n) r.nodes)
    ]
    go op_rem e = elim (Option-cases d.old_metadata) [
      | inl lost ↦ unfold reverse_apply_diff in ground arith
      | inr (m, found) ↦
          unfold reverse_apply_diff in
          ground (arith, lookup-insert q d.node_id (revive_row d m) r.nodes)
    ]

-- The records of a list of deltas, against the rows `pre` that were captured.
abbrev pub records : ℕ → Table → List Delta → List DiffRecord
records s pre ds = map (diff_record s pre) ds

pub diff_record_fields :
    (s : ℕ) (pre : Table) (d : Delta)
    → ((diff_record s pre d).node_id ≡ d.node_id) × ((diff_record s pre d).op ≡ d.op)
unfolding diff_record
diff_record_fields s pre d = ground (arith, Option-cases (lookup d.node_id pre))

pub diff_record_old :
    (s : ℕ) (pre : Table) (d : Delta) (n : Node)
    → lookup d.node_id pre ≡ some n
    → ((diff_record s pre d).old_metadata ≡ some (metadata_of n))
      × ((diff_record s pre d).old_hash ≡ d.old_hash)
      × ((diff_record s pre d).old_content ≡ d.old_content)
unfolding diff_record
diff_record_old s pre d n e = ground arith

pub undo_untouched :
    (q : Bytes) (s : ℕ) (pre : Table) (ds : List Delta) (r : RestoreResult)
    → touched q ds ≡ false
    → core_at q (undo_all (records s pre ds) r).nodes ≡ core_at q r.nodes
unfolding undo_all touched
undo_untouched q s pre [] r h = refl
undo_untouched q s pre (d ∷ ds) r h =
    undo_other q (diff_record s pre d) (undo_all (records s pre ds) r)
      (λ e. ground (arith, diff_record_fields s pre d))
    ∙ undo_untouched q s pre ds r (ground arith)

-- Metadata read back from a diff are those of the row that was captured.
pub revived_core :
    (d : DiffRecord) (n : Node)
    → d.node_id ≡ n.id
    → d.old_hash ≡ n.content_hash
    → d.old_content ≡ n.content
    → core (revive_row d (metadata_of n)) ≡ core n
unfolding revive_row metadata_of
revived_core d n i h c = ground arith

pub reverted_core :
    (d : DiffRecord) (x n : Node)
    → x.id ≡ n.id
    → d.old_metadata ≡ some (metadata_of n)
    → d.old_hash ≡ n.content_hash
    → d.old_content ≡ n.content
    → core (revert_row d x) ≡ core n
unfolding revert_row metadata_of
reverted_core d x n i m h c = ground arith
