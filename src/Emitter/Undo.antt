-- ===== src/Emitter/Undo.antt =====
-- The diffs that pkg/emitter records, applied in reverse by pkg/store.
use remindb.Prelude.{
  ℕ, ◌≡◌, refl, sym, ◌∙◌, ◌≢◌, inl, inr, true, some, List, [], ◌∷◌, arith, Option-cases, Bytes, All,
}
use remindb.Prelude.Assoc.{lookup, lookup-insert}
use remindb.Diff.{Op, op_add, op_mod, op_rem, Delta}
use remindb.Store.Rows.{Node, Table}
use remindb.Store.Snapshots.{RestoreResult}
use remindb.Emitter.{NodeMap, capture_pre_state, capture_one, apply_deltas}
use remindb.Emitter.Core.{Keyed, KeyedMap, Same}
use remindb.Prelude.Result.{ok}
use remindb.Emitter.Records.{Coherent, CoherentOp, undo_all, records}
use remindb.Diff.Distinct.{DistinctDeltas}
use remindb.Emitter.Closed.{is_closed}
use remindb.Emitter.Reverse.{undo_all-Same}
use remindb.Emitter.Forward.{apply_deltas-Fate}

-- The rows that `capturePreState` collects.
capture_one_keeps :
    (t : Table) (d : Delta) (out : Table) (q : Bytes) (n : Node)
    → lookup q t ≡ some n
    → lookup q out ≡ some n
    → lookup q (capture_one t d out) ≡ some n
unfolding capture_one
capture_one_keeps t d out q n e h = elim (Option-cases (lookup d.node_id t)) [
  | inl none_there ↦ ground arith
  | inr (x, at) ↦ ground (arith, lookup-insert q d.node_id x out)
]

capture_keeps :
    (t : Table) (ds : List Delta) (out : Table) (q : Bytes) (n : Node)
    → lookup q t ≡ some n
    → lookup q out ≡ some n
    → lookup q (capture_pre_state t ds out) ≡ some n
unfolding capture_pre_state
capture_keeps t [] out q n e h = h
capture_keeps t (d ∷ ds) out q n e h =
    capture_keeps t ds _ q n e (capture_one_keeps t d out q n e h)

capture_one_finds :
    (t : Table) (d : Delta) (out : Table)
    → Coherent t d
    → d.op ≢ op_add
    → (n : Node) × (lookup d.node_id t ≡ some n) × (lookup d.node_id (capture_one t d out) ≡ some n)
unfolding capture_one
capture_one_finds t d out c h = go d.op refl c
  where
    found :
        (n : Node) → lookup d.node_id t ≡ some n → lookup d.node_id (capture_one t d out) ≡ some n
    found n e = ground (arith, lookup-insert d.node_id d.node_id n out)

    go :
        (o : Op)
        → d.op ≡ o
        → CoherentOp t d o
        → (n : Node) × (lookup d.node_id t ≡ some n)
          × (lookup d.node_id (capture_one t d out) ≡ some n)
    go op_add o c = absurd (h o)
    go op_mod o (n, e, _, _) = (n, e, found n e)
    go op_rem o (n, e, _, _) = (n, e, found n e)

capture-Captured :
    (t : Table) (ds : List Delta) (out : Table)
    → All (Coherent t) ds
    → All
        (λ d. d.op ≢ op_add → lookup d.node_id (capture_pre_state t ds out) ≡ lookup d.node_id t)
        ds
unfolding capture_pre_state
capture-Captured t [] out c = tt
capture-Captured t (d ∷ ds) out c = (
  λ h.
      let (n, e, f) = capture_one_finds t d out c.0 h in
      capture_keeps t ds (capture_one t d out) d.node_id n e f ∙ sym e,
  capture-Captured t ds (capture_one t d out) c.1,
)

-- Undoing the diffs that one run of the emitter records gives back the table that it changed: at
-- each id the node that stood there, but for what no diff holds. Nodes and rows stand under their ids,
-- no id has two deltas, each delta is right about the table, and deletions take along only rows that
-- later deltas remove.
pub undo_all-apply_deltas :
    (now s : ℕ) (m : NodeMap) (ds : List Delta) (t : Table) (r : RestoreResult)
    → KeyedMap m
    → Keyed t
    → DistinctDeltas ds
    → All (Coherent t) ds
    → is_closed now m t ds ≡ true
    → apply_deltas now m ds t ≡ ok r.nodes
    → Same (undo_all (records s (capture_pre_state t ds []) ds) r).nodes t
undo_all-apply_deltas now s m ds t r km kt dd c closed e q =
    undo_all-Same m km t kt s (capture_pre_state t ds []) q ds r dd c (capture-Captured t ds [] c)
      (apply_deltas-Fate now m ds t r.nodes q km kt dd closed e)
