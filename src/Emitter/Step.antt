-- ===== src/Emitter/Step.antt =====
-- What one delta does to the rows in the first loop of pkg/emitter.
use remindb.Prelude.{
  ℕ, ◌≡◌, refl, sym, ◌∙◌, subst, ◌≢◌, ◌⊎◌, inl, inr, true, Option, none, some, List, arith,
  Option-cases, Bytes, str_dec,
}
use remindb.Prelude.Assoc.{lookup, insert, lookup-insert}
use remindb.Prelude.Result.{ok}
use remindb.Parser.Ast.{ContextNode}
use remindb.Diff.{Op, op_add, op_mod, op_rem, Delta}
use remindb.Store.Rows.{
  Node, Table, upsert_node, upsert_row, delete_node, delete_node_cases, delete_node_self,
}
use remindb.Emitter.{NodeMap, apply_delta, node_from_context}
use remindb.Emitter.Core.{core_at, context_core, KeyedMap, Keyed}
use remindb.Emitter.Closed.{covered, closes, is_removal, find_delta, covered_at}

-- What the loop leaves at `q`, by the operation of the delta that is about it.
abbrev pub Stored : NodeMap → Bytes → Table → Type 0
Stored m q t' =
    (cn : ContextNode) × (lookup q m ≡ some cn) × (core_at q t' ≡ some (context_core cn))

abbrev pub FateOf : NodeMap → Bytes → Table → Op → Type 0
FateOf m q t' op_add = Stored m q t'
FateOf m q t' op_mod = Stored m q t'
FateOf m q t' op_rem = lookup q t' ≡ none

abbrev pub Fate : NodeMap → Bytes → Table → Table → Option Delta → Type 0
Fate m q t t' none = core_at q t' ≡ core_at q t
Fate m q t t' (some d) = FateOf m q t' d.op

pub delete_other :
    (q id : Bytes) (t : Table) (ds : List Delta)
    → q ≢ id
    → covered id t ds t ≡ true
    → (lookup q (delete_node id t) ≡ lookup q t) ⊎ (is_removal (find_delta q ds) ≡ true)
delete_other q id t ds h c = elim (delete_node_cases q id t) [
  | inr kept ↦ inl kept
  | inl lost ↦ elim (Option-cases (lookup q t)) [
    | inl e ↦ inl (lost ∙ sym e)
    | inr (n, e) ↦ inr (covered_at q id t ds t n c e h lost)
  ]
]

module _ (now : ℕ) (n : Node) (t t' : Table) (e : upsert_node now n t ≡ ok t') where
  upsert_node_eq : t' ≡ insert n.id (upsert_row now n (lookup n.id t)) t
  unfolding upsert_node
  upsert_node_eq = ground arith

  upsert_other : (q : Bytes) → q ≢ n.id → lookup q t' ≡ lookup q t
  upsert_other q h =
      rw upsert_node_eq (ground (arith, lookup-insert q n.id (upsert_row now n (lookup n.id t)) t))

  upsert_self : lookup n.id t' ≡ some (upsert_row now n (lookup n.id t))
  upsert_self =
      rw upsert_node_eq
        (ground (arith, lookup-insert n.id n.id (upsert_row now n (lookup n.id t)) t))

module _ (now : ℕ) (m : NodeMap) (k : KeyedMap m) where
  -- One delta that is not about `q` leaves the row at `q`, or takes it along.
  pub apply_delta_other :
      (q : Bytes) (d : Delta) (t t' : Table) (ds : List Delta)
      → q ≢ d.node_id
      → closes d t ds ≡ true
      → apply_delta now m d t ≡ ok t'
      → (lookup q t' ≡ lookup q t) ⊎ (is_removal (find_delta q ds) ≡ true)
  unfolding apply_delta closes
  apply_delta_other q d t t' ds h c e = elim (Option-cases (lookup d.node_id m)) [
    | inl missing ↦ ground (arith, delete_other q d.node_id t ds h)
    | inr (cn, found) ↦ ground (
      arith,
      k d.node_id cn found,
      delete_other q d.node_id t ds h,
      λ (g : upsert_node now (node_from_context cn) t ≡ ok t').
          upsert_other now (node_from_context cn) t t' g q,
    )
  ]

  upsert_Stored :
      (cn : ContextNode) (t t' : Table)
      → Keyed t
      → lookup cn.id m ≡ some cn
      → upsert_node now (node_from_context cn) t ≡ ok t'
      → Stored m cn.id t'
  unfolding node_from_context upsert_row
  upsert_Stored cn t t' kt h e =
      let n = node_from_context cn in
      (
        cn,
        h,
        elim (Option-cases (lookup cn.id t)) [
          | inl new ↦ ground (arith, upsert_self now n t t' e)
          | inr (old, o) ↦ ground (arith, upsert_self now n t t' e, kt cn.id old o)
        ],
      )

  Stored-delta :
      (d : Delta) (t t' : Table)
      → Keyed t
      → d.op ≢ op_rem
      → apply_delta now m d t ≡ ok t'
      → Stored m d.node_id t'
  unfolding apply_delta
  Stored-delta d t t' kt o e = elim (Option-cases (lookup d.node_id m)) [
    | inl missing ↦ absurd (ground arith)
    | inr (cn, found) ↦
        let id : cn.id ≡ d.node_id = k d.node_id cn found in
        subst (λ q. Stored m q t') id (upsert_Stored cn t t' kt (ground arith) (ground arith))
  ]

  -- The delta that is about an id decides what stands there.
  pub apply_delta_self :
      (d : Delta) (t t' : Table)
      → Keyed t
      → apply_delta now m d t ≡ ok t'
      → FateOf m d.node_id t' d.op
  apply_delta_self d t t' kt e = go d.op refl
    where
      go : (o : Op) → d.op ≡ o → FateOf m d.node_id t' o
      go op_add o = Stored-delta d t t' kt (ground arith) e
      go op_mod o = Stored-delta d t t' kt (ground arith) e
      go op_rem o = unfold apply_delta in ground (arith, delete_node_self d.node_id t)

  upsert-Keyed : (n : Node) (t t' : Table) → Keyed t → upsert_node now n t ≡ ok t' → Keyed t'
  unfolding upsert_row
  upsert-Keyed n t t' kt e q x h = elim (str_dec q n.id) [
    | no other ↦ kt q x (sym (upsert_other now n t t' e q other) ∙ h)
    | yes here ↦ elim (Option-cases (lookup n.id t)) [
      | inl new ↦ ground (arith, upsert_self now n t t' e)
      | inr (old, o) ↦ ground (arith, upsert_self now n t t' e, kt n.id old o)
    ]
  ]

  delete-Keyed : (id : Bytes) (t : Table) → Keyed t → Keyed (delete_node id t)
  delete-Keyed id t kt q x h = elim (delete_node_cases q id t) [
    | inl lost ↦ absurd (ground arith)
    | inr kept ↦ kt q x (sym kept ∙ h)
  ]

  apply_delta_cases :
      (d : Delta) (t t' : Table)
      → apply_delta now m d t ≡ ok t'
      → (t' ≡ delete_node d.node_id t)
        ⊎ ((cn : ContextNode) × (upsert_node now (node_from_context cn) t ≡ ok t'))
  unfolding apply_delta
  apply_delta_cases d t t' e = go d.op refl
    where
      stored :
          d.op ≢ op_rem → (cn : ContextNode) × (upsert_node now (node_from_context cn) t ≡ ok t')
      stored o = elim (Option-cases (lookup d.node_id m)) [
        | inl missing ↦ absurd (ground arith)
        | inr (cn, found) ↦ (cn, ground arith)
      ]

      go :
          (o : Op)
          → d.op ≡ o
          → (t' ≡ delete_node d.node_id t)
            ⊎ ((cn : ContextNode) × (upsert_node now (node_from_context cn) t ≡ ok t'))
      go op_add o = inr (stored (ground arith))
      go op_mod o = inr (stored (ground arith))
      go op_rem o = inl (ground arith)

  pub apply_delta-Keyed :
      (d : Delta) (t t' : Table) → Keyed t → apply_delta now m d t ≡ ok t' → Keyed t'
  apply_delta-Keyed d t t' kt e = elim (apply_delta_cases d t t' e) [
    | inl gone ↦ rw gone (delete-Keyed d.node_id t kt)
    | inr (cn, stored) ↦ upsert-Keyed (node_from_context cn) t t' kt stored
  ]
