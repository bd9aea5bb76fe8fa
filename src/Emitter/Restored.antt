-- ===== src/Emitter/Restored.antt =====
-- Undoing diffs on tables that agree.
use remindb.Prelude.{
  ◌≡◌, refl, sym, ap, ◌∙◌, inl, inr, Option, none, some, List, [], ◌∷◌, ◌++◌, arith, Option-cases,
  str_dec,
}
use remindb.Prelude.Assoc.{lookup, lookup-insert, lookup-erase}
use remindb.Diff.{Op, op_add, op_mod, op_rem}
use remindb.Store.Rows.{Node}
use remindb.Store.Snapshots.{
  DiffRecord, RestoreResult, revert_row, revive_row, reverse_apply_diff, OldMetadata,
}
use remindb.Emitter.Core.{core, core_at, Same}
use remindb.Emitter.Records.{undo_all, undo_other}

pub undo_all-append :
    (xs ys : List DiffRecord) (r : RestoreResult)
    → undo_all (xs ++ ys) r ≡ undo_all xs (undo_all ys r)
unfolding undo_all
undo_all-append [] ys r = refl
undo_all-append (d ∷ xs) ys r = ap (reverse_apply_diff d) (undo_all-append xs ys r)

revert_row-cong :
    (d : DiffRecord) (x y : Node) → core x ≡ core y → core (revert_row d x) ≡ core (revert_row d y)
unfolding revert_row
revert_row-cong d x y e = ground arith

reverted_at :
    (d : DiffRecord) (r : RestoreResult)
    → d.op ≡ op_mod
    → core_at d.node_id (reverse_apply_diff d r).nodes
      ≡ elim (lookup d.node_id r.nodes) [ none ↦ none | some x ↦ some (core (revert_row d x)) ]
unfolding reverse_apply_diff
reverted_at d r o = elim (Option-cases (lookup d.node_id r.nodes)) [
  | inl lost ↦ ground arith
  | inr (x, e) ↦ ground (arith, lookup-insert d.node_id d.node_id (revert_row d x) r.nodes)
]

-- Undoing looks at the rows through what it restores of them.
pub reverse_apply-Same :
    (d : DiffRecord) (r r' : RestoreResult)
    → Same r.nodes r'.nodes
    → Same (reverse_apply_diff d r).nodes (reverse_apply_diff d r').nodes
reverse_apply-Same d r r' s q = elim (str_dec q d.node_id) [
  | no there ↦ undo_other q d r there ∙ s q ∙ sym (undo_other q d r' there)
  | yes here ↦ rw here (at d.op refl)
]
  where
    revived :
        (m : OldMetadata)
        → d.op ≡ op_rem
        → d.old_metadata ≡ some m
        → core_at d.node_id (reverse_apply_diff d r).nodes
          ≡ core_at d.node_id (reverse_apply_diff d r').nodes
    revived m o e =
        unfold reverse_apply_diff in
        ground (
          arith,
          lookup-insert d.node_id d.node_id (revive_row d m) r.nodes,
          lookup-insert d.node_id d.node_id (revive_row d m) r'.nodes,
        )

    at :
        (o : Op)
        → d.op ≡ o
        → core_at d.node_id (reverse_apply_diff d r).nodes
          ≡ core_at d.node_id (reverse_apply_diff d r').nodes
    at op_add o =
        unfold reverse_apply_diff in
        ground (
          arith,
          lookup-erase d.node_id d.node_id r.nodes,
          lookup-erase d.node_id d.node_id r'.nodes,
        )
    at op_mod o = both (lookup d.node_id r.nodes) (lookup d.node_id r'.nodes) refl refl
      where
        both :
            (a b : Option Node)
            → lookup d.node_id r.nodes ≡ a
            → lookup d.node_id r'.nodes ≡ b
            → core_at d.node_id (reverse_apply_diff d r).nodes
              ≡ core_at d.node_id (reverse_apply_diff d r').nodes
        both none none h h' = ground (arith, reverted_at d r o, reverted_at d r' o)
        both (some x) none h h' = absurd (ground (arith, s d.node_id))
        both none (some y) h h' = absurd (ground (arith, s d.node_id))
        both (some x) (some y) h h' = ground (
          arith,
          s d.node_id,
          reverted_at d r o,
          reverted_at d r' o,
          revert_row-cong d x y (ground (arith, s d.node_id)),
        )
    at op_rem o = elim (Option-cases d.old_metadata) [
      | inl lost ↦ unfold reverse_apply_diff in ground (arith, s d.node_id)
      | inr (m, e) ↦ revived m o e
    ]
