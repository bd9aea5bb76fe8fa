-- ===== src/Tools/Rollback/Step.antt =====
-- What one delta of a rollback does to the rows.
use remindb.Prelude.{
  ℕ, ◌≡◌, refl, ◌≢◌, ◌⊎◌, inl, inr, true, Option, none, some, List, arith, Option-cases, Bytes,
}
use remindb.Prelude.Assoc.{lookup, lookup-insert}
use remindb.Prelude.Result.{ok}
use remindb.Diff.{Op, op_add, op_mod, op_rem, Delta}
use remindb.Store.Rows.{Node, Table, upsert_row, delete_node_self}
use remindb.Emitter.Core.{core, core_at, Keyed}
use remindb.Emitter.Closed.{find_delta, is_removal, closes}
use remindb.Emitter.Step.{delete_other}
use remindb.Tools.Rollback.{rollback_step, upsert_deferred}

-- What a rollback leaves at `q`, by the operation of the delta that is about it.
abbrev pub FateOf : Table → Bytes → Table → Op → Type 0
FateOf target q t' op_add = core_at q t' ≡ core_at q target
FateOf target q t' op_mod = core_at q t' ≡ core_at q target
FateOf target q t' op_rem = lookup q t' ≡ none

abbrev pub Fate : Table → Bytes → Table → Table → Option Delta → Type 0
Fate target q t t' none = core_at q t' ≡ core_at q t
Fate target q t t' (some d) = FateOf target q t' d.op

-- The delta that is about an id decides what stands there.
module _ (now : ℕ) (target : Table) (kt : Keyed target) where
  deferred_other :
      (q : Bytes) (n : Node) (t : Table)
      → q ≢ n.id
      → lookup q (upsert_deferred now n t) ≡ lookup q t
  unfolding upsert_deferred
  deferred_other q n t h = ground (arith, lookup-insert q n.id (upsert_row now n (lookup n.id t)) t)

  deferred_self :
      (n : Node) (t : Table)
      → lookup n.id (upsert_deferred now n t) ≡ some (upsert_row now n (lookup n.id t))
  unfolding upsert_deferred
  deferred_self n t = ground (arith, lookup-insert n.id n.id (upsert_row now n (lookup n.id t)) t)

  deferred_core :
      (n : Node) (t : Table) → Keyed t → core_at n.id (upsert_deferred now n t) ≡ some (core n)
  unfolding upsert_row
  deferred_core n t k = elim (Option-cases (lookup n.id t)) [
    | inl new ↦ ground (arith, deferred_self n t)
    | inr (old, o) ↦ ground (arith, deferred_self n t, k n.id old o)
  ]

  pub step_other :
      (q : Bytes) (d : Delta) (t t' : Table) (ds : List Delta)
      → q ≢ d.node_id
      → closes d t ds ≡ true
      → rollback_step now target d t ≡ ok t'
      → (lookup q t' ≡ lookup q t) ⊎ (is_removal (find_delta q ds) ≡ true)
  unfolding rollback_step closes
  step_other q d t t' ds h c e = elim (Option-cases (lookup d.node_id target)) [
    | inl missing ↦ ground (arith, delete_other q d.node_id t ds h)
    | inr (n, found) ↦
        ground (arith, kt d.node_id n found, delete_other q d.node_id t ds h, deferred_other q n t)
  ]

  upsert_self :
      (d : Delta) (t t' : Table)
      → Keyed t
      → d.op ≢ op_rem
      → rollback_step now target d t ≡ ok t'
      → core_at d.node_id t' ≡ core_at d.node_id target
  unfolding rollback_step
  upsert_self d t t' k o e = elim (Option-cases (lookup d.node_id target)) [
    | inl missing ↦ absurd (ground arith)
    | inr (n, found) ↦ ground (arith, kt d.node_id n found, deferred_core n t k)
  ]

  pub step_self :
      (d : Delta) (t t' : Table)
      → Keyed t
      → rollback_step now target d t ≡ ok t'
      → FateOf target d.node_id t' d.op
  step_self d t t' k e = go d.op refl
    where
      go : (o : Op) → d.op ≡ o → FateOf target d.node_id t' o
      go op_add o = upsert_self d t t' k (ground arith) e
      go op_mod o = upsert_self d t t' k (ground arith) e
      go op_rem o = unfold rollback_step in ground (arith, delete_node_self d.node_id t)
