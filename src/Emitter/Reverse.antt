-- ===== src/Emitter/Reverse.antt =====
-- One diff of pkg/emitter applied in reverse by pkg/store.
use remindb.Prelude.{
  ℕ, ◌≡◌, refl, ◌∙◌, subst, ◌≢◌, inl, inr, false, none, some, List, [], ◌∷◌, arith, Option-cases,
  Bytes, str_dec, All,
}
use remindb.Prelude.Assoc.{lookup, lookup-insert, lookup-erase}
use remindb.Diff.{Op, op_add, op_mod, op_rem, Delta}
use remindb.Store.Rows.{Node, Table}
use remindb.Store.Snapshots.{RestoreResult, metadata_of, revert_row, revive_row, reverse_apply_diff}
use remindb.Emitter.{NodeMap, diff_record}
use remindb.Emitter.Core.{core, core_at, Keyed, KeyedMap}
use remindb.Emitter.Records.{
  diff_record_fields, Coherent, undo_all, diff_record_old, CoherentOp, reverted_core, revived_core,
  records, undo_untouched, undo_other,
}
use remindb.Emitter.Step.{FateOf, Fate}
use remindb.Diff.Distinct.{touched, DistinctDeltas}
use remindb.Emitter.Closed.{find_delta}
use remindb.Emitter.Forward.{find_delta_here, fate_kept, find_delta_there}

module _ (m : NodeMap) (km : KeyedMap m) (t : Table) (kt : Keyed t) (s : ℕ) (pre : Table) where
  -- The captured rows hold what stood at each changed or removed id.
  abbrev Captured : List Delta → Type 0
  Captured = All (λ d. d.op ≢ op_add → lookup d.node_id pre ≡ lookup d.node_id t)

  undo_add :
      (d : Delta) (r : RestoreResult)
      → d.op ≡ op_add
      → core_at d.node_id (reverse_apply_diff (diff_record s pre d) r).nodes ≡ none
  unfolding reverse_apply_diff
  undo_add d r o =
      ground (arith, diff_record_fields s pre d, lookup-erase d.node_id d.node_id r.nodes)

  undo_mod :
      (d : Delta) (n x : Node) (r : RestoreResult)
      → d.op ≡ op_mod
      → lookup d.node_id pre ≡ some n
      → lookup d.node_id r.nodes ≡ some x
      → core_at d.node_id (reverse_apply_diff (diff_record s pre d) r).nodes
        ≡ some (core (revert_row (diff_record s pre d) x))
  unfolding reverse_apply_diff
  undo_mod d n x r o e h = ground (
    arith,
    diff_record_fields s pre d,
    lookup-insert d.node_id d.node_id (revert_row (diff_record s pre d) x) r.nodes,
  )

  undo_rem :
      (d : Delta) (n : Node) (r : RestoreResult)
      → d.op ≡ op_rem
      → lookup d.node_id pre ≡ some n
      → core_at d.node_id (reverse_apply_diff (diff_record s pre d) r).nodes
        ≡ some (core (revive_row (diff_record s pre d) (metadata_of n)))
  unfolding reverse_apply_diff
  undo_rem d n r o e = ground (
    arith,
    diff_record_fields s pre d,
    diff_record_old s pre d n e,
    lookup-insert d.node_id d.node_id (revive_row (diff_record s pre d) (metadata_of n)) r.nodes,
  )

  undo_self :
      (d : Delta) (r : RestoreResult)
      → Coherent t d
      → (d.op ≢ op_add → lookup d.node_id pre ≡ lookup d.node_id t)
      → FateOf m d.node_id r.nodes d.op
      → core_at d.node_id (reverse_apply_diff (diff_record s pre d) r).nodes ≡ core_at d.node_id t
  undo_self d r c p f = go d.op refl c f
    where
      go :
          (o : Op)
          → d.op ≡ o
          → CoherentOp t d o
          → FateOf m d.node_id r.nodes o
          → core_at d.node_id (reverse_apply_diff (diff_record s pre d) r).nodes
            ≡ core_at d.node_id t
      go op_add o c f = ground (arith, undo_add d r o)
      go op_mod o (n, e, h, b) (cn, found, stored) =
          elim (Option-cases (lookup d.node_id r.nodes)) [
            | inl lost ↦ absurd (ground arith)
            | inr (x, at) ↦
                let q : lookup d.node_id pre ≡ some n = p (ground arith) ∙ e in
                ground (
                  arith,
                  undo_mod d n x r o q at,
                  km d.node_id cn found,
                  kt d.node_id n e,
                  diff_record_old s pre d n q,
                  reverted_core (diff_record s pre d) x n,
                )
          ]
      go op_rem o (n, e, h, b) f =
          let q : lookup d.node_id pre ≡ some n = p (ground arith) ∙ e in
          ground (
            arith,
            undo_rem d n r o q,
            kt d.node_id n e,
            diff_record_fields s pre d,
            diff_record_old s pre d n q,
            revived_core (diff_record s pre d) n,
          )

  undo_step :
      (q : Bytes) (d : Delta) (ds : List Delta) (r : RestoreResult)
      → touched d.node_id ds ≡ false
      → Coherent t d
      → (d.op ≢ op_add → lookup d.node_id pre ≡ lookup d.node_id t)
      → Fate m q t r.nodes (find_delta q (d ∷ ds))
      → (Fate m q t r.nodes (find_delta q ds)
          → core_at q (undo_all (records s pre ds) r).nodes ≡ core_at q t)
      → core_at q (undo_all (records s pre (d ∷ ds)) r).nodes ≡ core_at q t
  unfolding undo_all
  undo_step q d ds r dd c p f later = elim (str_dec q d.node_id) [
    | yes here ↦
        let r' = undo_all (records s pre ds) r in
        let here_fate : FateOf m d.node_id r.nodes d.op =
          subst (λ x. FateOf m x r.nodes d.op) here
            (subst (λ o. Fate m q t r.nodes o) (find_delta_here q d ds here) f) in
        rw here (
          undo_self d r' c p (
            fate_kept m d.node_id r.nodes r'.nodes d.op (undo_untouched d.node_id s pre ds r dd)
              here_fate))
    | no there ↦
        undo_other q (diff_record s pre d) (undo_all (records s pre ds) r)
          (λ e. there (e ∙ (diff_record_fields s pre d).0))
        ∙ later (subst (λ o. Fate m q t r.nodes o) (find_delta_there q d ds there) f)
  ]

  pub undo_all-Same :
      (q : Bytes) (ds : List Delta) (r : RestoreResult)
      → DistinctDeltas ds
      → All (Coherent t) ds
      → Captured ds
      → Fate m q t r.nodes (find_delta q ds)
      → core_at q (undo_all (records s pre ds) r).nodes ≡ core_at q t
  unfolding undo_all find_delta
  undo_all-Same q [] r dd c p f = f
  undo_all-Same q (d ∷ ds) r dd c p f =
      undo_step q d ds r dd.0 c.0 p.0 f (λ g. undo_all-Same q ds r dd.1 c.1 p.1 g)
