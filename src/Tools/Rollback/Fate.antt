-- ===== src/Tools/Rollback/Fate.antt =====
-- What the mutations of a rollback leave at an id.
use remindb.Prelude.{
  ℕ, ◌≡◌, refl, sym, ◌∙◌, subst, ◌⊎◌, inl, inr, Bool, true, false, ◌&&◌, Option, none, some, List,
  [], ◌∷◌, arith, Option-cases, Bytes, str_dec,
}
use remindb.Prelude.Assoc.{lookup, lookup-insert}
use remindb.Prelude.Result.{ok, err, >>=-ok}
use remindb.Diff.{Op, op_add, op_mod, op_rem, Delta}
use remindb.Diff.Distinct.{DistinctDeltas, touched}
use remindb.Store.Rows.{Node, Table, upsert_row, delete_node, delete_node_cases}
use remindb.Emitter.Core.{core_at, Keyed}
use remindb.Emitter.Closed.{find_delta, is_removal, closes}
use remindb.Emitter.Forward.{find-touched, find_delta_here, find_delta_there}
use remindb.Tools.Rollback.{rollback_step, upsert_deferred, apply_rollback_mutations}
use remindb.Tools.Rollback.Step.{FateOf, Fate, step_other, step_self}

-- Deletions take along only rows that later deltas remove.
unfoldable pub rollback_closed : ℕ → Table → Table → List Delta → Bool
rollback_closed now target t [] = true
rollback_closed now target t (d ∷ ds) = closes d t ds && elim (rollback_step now target d t) [
  | ok t' ↦ rollback_closed now target t' ds
  | err e ↦ true
]

Fate-untouched :
    (target : Table) (q : Bytes) (t t₁ t' : Table) (o : Option Delta)
    → Fate target q t₁ t' o
    → (lookup q t₁ ≡ lookup q t) ⊎ (is_removal o ≡ true)
    → Fate target q t t' o
Fate-untouched target q t t₁ t' none f h = ground arith
Fate-untouched target q t t₁ t' (some d) f h = f

fate_kept :
    (target : Table) (q : Bytes) (t₁ t' : Table) (o : Op)
    → core_at q t' ≡ core_at q t₁
    → FateOf target q t₁ o
    → FateOf target q t' o
fate_kept target q t₁ t' op_add e h = e ∙ h
fate_kept target q t₁ t' op_mod e h = e ∙ h
fate_kept target q t₁ t' op_rem e h = ground (arith, Option-cases (lookup q t'))

module _ (now : ℕ) (target : Table) (kt : Keyed target) where
  deferred-Keyed : (n : Node) (t : Table) → Keyed t → Keyed (upsert_deferred now n t)
  unfolding upsert_deferred upsert_row
  deferred-Keyed n t k q x h = elim (str_dec q n.id) [
    | no other ↦ k q x (ground (arith, lookup-insert q n.id (upsert_row now n (lookup n.id t)) t))
    | yes here ↦ elim (Option-cases (lookup n.id t)) [
      | inl new ↦ ground (arith, lookup-insert q n.id (upsert_row now n (lookup n.id t)) t)
      | inr (old, o) ↦
          ground (arith, lookup-insert q n.id (upsert_row now n (lookup n.id t)) t, k n.id old o)
    ]
  ]

  delete-Keyed : (id : Bytes) (t : Table) → Keyed t → Keyed (delete_node id t)
  delete-Keyed id t k q x h = elim (delete_node_cases q id t) [
    | inl lost ↦ absurd (ground arith)
    | inr kept ↦ k q x (sym kept ∙ h)
  ]

  step-cases :
      (d : Delta) (t t' : Table)
      → rollback_step now target d t ≡ ok t'
      → (t' ≡ delete_node d.node_id t) ⊎ ((n : Node) × (t' ≡ upsert_deferred now n t))
  unfolding rollback_step
  step-cases d t t' e = elim (Option-cases (lookup d.node_id target)) [
    | inl missing ↦ inl (ground arith)
    | inr (n, found) ↦ go d.op refl n found
  ]
    where
      go :
          (o : Op)
          → d.op ≡ o
          → (n : Node) → lookup d.node_id target ≡ some n
          → (t' ≡ delete_node d.node_id t) ⊎ ((n : Node) × (t' ≡ upsert_deferred now n t))
      go op_add o n found = inr (n, ground arith)
      go op_mod o n found = inr (n, ground arith)
      go op_rem o n found = inl (ground arith)

  step-Keyed :
      (d : Delta) (t t' : Table) → Keyed t → rollback_step now target d t ≡ ok t' → Keyed t'
  step-Keyed d t t' k e = elim (step-cases d t t' e) [
    | inl same ↦ rw same (delete-Keyed d.node_id t k)
    | inr (n, same) ↦ rw same (deferred-Keyed n t k)
  ]

  Fate-step :
      (d : Delta) (ds : List Delta) (t t₁ t' : Table) (q : Bytes)
      → Keyed t
      → touched d.node_id ds ≡ false
      → closes d t ds ≡ true
      → rollback_step now target d t ≡ ok t₁
      → Fate target q t₁ t' (find_delta q ds)
      → Fate target q t t' (find_delta q (d ∷ ds))
  Fate-step d ds t t₁ t' q k dd c e later = elim (str_dec q d.node_id) [
    | yes here ↦ rw (find_delta_here q d ds here) (
        rw here (
          fate_kept target d.node_id t₁ t' d.op
            (subst (λ o. Fate target d.node_id t₁ t' o) (find-touched d.node_id ds dd)
              (subst (λ p. Fate target p t₁ t' (find_delta p ds)) here later))
            (step_self now target kt d t t₁ k e)))
    | no there ↦ rw (find_delta_there q d ds there) (
        Fate-untouched target q t t₁ t' (find_delta q ds) later
          (step_other now target kt q d t t₁ ds there c e))
  ]

  closed_now :
      (d : Delta) (ds : List Delta) (t : Table)
      → rollback_closed now target t (d ∷ ds) ≡ true
      → closes d t ds ≡ true
  unfolding rollback_closed
  closed_now d ds t c = ground arith

  closed_later :
      (d : Delta) (ds : List Delta) (t t₁ : Table)
      → rollback_closed now target t (d ∷ ds) ≡ true
      → rollback_step now target d t ≡ ok t₁
      → rollback_closed now target t₁ ds ≡ true
  unfolding rollback_closed
  closed_later d ds t t₁ c e = ground arith

  pub mutations-Fate :
      (ds : List Delta) (t t' : Table) (q : Bytes)
      → Keyed t
      → DistinctDeltas ds
      → rollback_closed now target t ds ≡ true
      → apply_rollback_mutations now target ds t ≡ ok t'
      → Fate target q t t' (find_delta q ds)
  unfolding apply_rollback_mutations find_delta
  mutations-Fate [] t t' q k dd c e = ground arith
  mutations-Fate (d ∷ ds) t t' q k dd c e =
      let (t₁, first, rest) =
        >>=-ok (rollback_step now target d t) (λ s. apply_rollback_mutations now target ds s) e in
      let later =
        mutations-Fate ds t₁ t' q (step-Keyed d t t₁ k first) dd.1 (closed_later d ds t t₁ c first)
          rest in
      Fate-step d ds t t₁ t' q k dd.0 (closed_now d ds t c) first later
