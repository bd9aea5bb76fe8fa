-- ===== src/Tools/Rollback/Deltas.antt =====
-- The deltas of a rollback, by id.
use remindb.Prelude.{
  ◌≡◌, refl, ap, ◌∙◌, inl, inr, false, Option, none, some, List, [], ◌∷◌, ◌++◌, arith,
  if◌then◌else◌, Option-cases, Bytes, str_dec, All, All-map,
}
use remindb.Prelude.Assoc.{lookup}
use remindb.Diff.{Delta}
use remindb.Diff.Distinct.{DistinctDeltas, touched, IsMap, append-DistinctDeltas}
use remindb.Store.Rows.{Node, Table}
use remindb.Emitter.Closed.{find_delta}
use remindb.Tools.Rollback.{
  node_equal, rollback_removals, rollback_upserts, compute_rollback_deltas, rollback_rem,
  rollback_add, rollback_mod,
}
use remindb.Tools.Rollback.Sorted.{sort-DistinctDeltas, find-sort, find-append}

-- The delta about `q`, from the rows at `q`.
abbrev pub delta_at : Bytes → Option Node → Option Node → Option Delta
delta_at q none none = none
delta_at q (some c) none = some (rollback_rem q c)
delta_at q none (some t) = some (rollback_add q t)
delta_at q (some c) (some t) = if node_equal c t then none else some (rollback_mod q c t)

abbrev removal_at : Bytes → Option Node → Option Node → Option Delta
removal_at q (some c) none = some (rollback_rem q c)
removal_at q c t = none

abbrev upsert_at : Bytes → Option Node → Option Node → Option Delta
upsert_at q c none = none
upsert_at q none (some t) = some (rollback_add q t)
upsert_at q (some c) (some t) = if node_equal c t then none else some (rollback_mod q c t)

touched-find : (q : Bytes) (ds : List Delta) → find_delta q ds ≡ none → touched q ds ≡ false
unfolding touched find_delta
touched-find q [] h = refl
touched-find q (d ∷ ds) h = ground (arith, touched-find q ds)

find-removals :
    (q : Bytes) (target current : Table)
    → IsMap current
    → find_delta q (rollback_removals target current)
      ≡ removal_at q (lookup q current) (lookup q target)
unfolding rollback_removals find_delta lookup
find-removals q target [] m = refl
find-removals q target ((id, c) ∷ current) m = elim (str_dec q id) [
  | yes e ↦ elim (Option-cases (lookup id target)) [
    | inl gone ↦ ground arith
    | inr (t, kept) ↦ ground (arith, find-removals q target current m.1)
  ]
  | no e ↦ ground (arith, find-removals q target current m.1, Option-cases (lookup id target))
]

find-upserts :
    (q : Bytes) (current target : Table)
    → IsMap target
    → find_delta q (rollback_upserts current target)
      ≡ upsert_at q (lookup q current) (lookup q target)
unfolding rollback_upserts find_delta lookup
find-upserts q current [] m = ground (arith, Option-cases (lookup q current))
find-upserts q current ((id, t) ∷ target) m = elim (str_dec q id) [
  | yes e ↦ elim (Option-cases (lookup id current)) [
    | inl new ↦ ground arith
    | inr (c, old) ↦ ground (arith, find-upserts q current target m.1)
  ]
  | no e ↦ ground (arith, find-upserts q current target m.1, Option-cases (lookup id current))
]

removal-none : (q : Bytes) (c t : Option Node) → c ≡ none → removal_at q c t ≡ none
removal-none q none none e = refl
removal-none q none (some t) e = refl
removal-none q (some c) t e = absurd (ground arith)

upsert-none : (q : Bytes) (c t : Option Node) → t ≡ none → upsert_at q c t ≡ none
upsert-none q none none e = refl
upsert-none q (some c) none e = refl
upsert-none q c (some t) e = absurd (ground arith)

removals-DistinctDeltas :
    (target current : Table) → IsMap current → DistinctDeltas (rollback_removals target current)
unfolding rollback_removals
removals-DistinctDeltas target [] m = tt
removals-DistinctDeltas target ((id, c) ∷ current) m =
    let fresh = touched-find id (rollback_removals target current) (
      find-removals id target current m.1
      ∙ removal-none id (lookup id current) (lookup id target) m.0) in
    ground (arith, fresh, removals-DistinctDeltas target current m.1)

upserts-DistinctDeltas :
    (current target : Table) → IsMap target → DistinctDeltas (rollback_upserts current target)
unfolding rollback_upserts
upserts-DistinctDeltas current [] m = tt
upserts-DistinctDeltas current ((id, t) ∷ target) m =
    let fresh = touched-find id (rollback_upserts current target) (
      find-upserts id current target m.1
      ∙ upsert-none id (lookup id current) (lookup id target) m.0) in
    ground
      (arith, fresh, upserts-DistinctDeltas current target m.1, Option-cases (lookup id current))

-- An id with a removal is not in the target.
removals-gone :
    (target current : Table)
    → All (λ d. lookup d.node_id target ≡ none) (rollback_removals target current)
unfolding rollback_removals
removals-gone target [] = tt
removals-gone target ((id, c) ∷ current) = elim (Option-cases (lookup id target)) [
  | inl gone ↦ ground (arith, removals-gone target current)
  | inr (t, kept) ↦ ground (arith, removals-gone target current)
]

module _ (current target : Table) (mc : IsMap current) (mt : IsMap target) where
  unsorted-DistinctDeltas :
      DistinctDeltas (rollback_removals target current ++ rollback_upserts current target)
  unsorted-DistinctDeltas =
      append-DistinctDeltas (rollback_removals target current) (rollback_upserts current target)
        (removals-DistinctDeltas target current mc) (upserts-DistinctDeltas current target mt)
        (All-map
          (λ d gone. touched-find d.node_id (rollback_upserts current target) (
            find-upserts d.node_id current target mt
            ∙ upsert-none d.node_id (lookup d.node_id current) (lookup d.node_id target) gone))
          (rollback_removals target current) (removals-gone target current))

  pub compute-DistinctDeltas : DistinctDeltas (compute_rollback_deltas current target)
  unfolding compute_rollback_deltas
  compute-DistinctDeltas =
      sort-DistinctDeltas (rollback_removals target current ++ rollback_upserts current target)
        unsorted-DistinctDeltas

  delta_at-parts :
      (q : Bytes) (c t : Option Node)
      → elim (removal_at q c t) [ none ↦ upsert_at q c t | some d ↦ some d ] ≡ delta_at q c t
  delta_at-parts q none none = refl
  delta_at-parts q none (some t) = refl
  delta_at-parts q (some c) none = refl
  delta_at-parts q (some c) (some t) = refl

  -- `computeRollbackDeltas` has at an id the one delta that the two rows ask for.
  pub find-compute :
      (q : Bytes)
      → find_delta q (compute_rollback_deltas current target)
        ≡ delta_at q (lookup q current) (lookup q target)
  unfolding compute_rollback_deltas
  find-compute q =
      find-sort q (rollback_removals target current ++ rollback_upserts current target)
        unsorted-DistinctDeltas
      ∙ find-append q (rollback_removals target current) (rollback_upserts current target)
      ∙ ap (λ o. elim o [ none ↦ find_delta q (rollback_upserts current target) | some d ↦ some d ])
          (find-removals q target current mc)
      ∙ ap
          (λ o. elim (removal_at q (lookup q current) (lookup q target)) [
            | none ↦ o
            | some d ↦ some d
          ])
          (find-upserts q current target mt)
      ∙ delta_at-parts q (lookup q current) (lookup q target)
