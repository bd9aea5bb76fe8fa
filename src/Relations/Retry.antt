-- ===== src/Relations/Retry.antt =====
-- The replay of the pending rows, and `RunTx` as a whole.
use remindb.Prelude.{
  ℕ, ◌≡◌, refl, sym, subst, inl, inr, Bool, true, false, not, ◌&&◌, ◌||◌, List, [], ◌∷◌, arith,
  ◌==◌, Bool-cases, Bytes, ◌=s◌, All, All-map, All-zip,
}
use remindb.Prelude.Result.{ok}
use remindb.Parser.Ast.{ContextNode, WikilinkRef}
use remindb.Store.Rows.{Table}
use remindb.Store.Relations.{
  Graph, PendingRelation, origin_parsed, has_row, has_relation, drop_pending, delete_pending_by_id,
}
use remindb.Relations.{resolve, ref_of, retry_pending, run}
use remindb.Diff.Patch.{Distinct}
use remindb.Relations.Pending.{drop_pending-WellFormed, has_id, DistinctIds, Sources, WellFormed}
use remindb.Relations.Edges.{has_pending, upsert_relation-ok}
use remindb.Relations.Resolved.{KeyedRows, resolve-Found}
use remindb.Relations.Settled.{StaySettled, Anyone, AllSettled, WellFormed-eq}
use remindb.Relations.Round.{run_nodes-ok}

-- The row has no target.
abbrev pub unresolved : Table → PendingRelation → Bool
unresolved nodes p = resolve nodes (ref_of p) =s []

-- A row with a target, of an id.
unfoldable has_open : Table → ℕ → List PendingRelation → Bool
has_open nodes id [] = false
has_open nodes id (p ∷ ps) = (p.id == id && not (unresolved nodes p)) || has_open nodes id ps

-- What is pending has no target, or is still to be replayed, and not both.
abbrev Replaying : Table → List PendingRelation → List PendingRelation → Type 0
Replaying nodes todo ps =
    All
      (λ p.
        ((unresolved nodes p || has_open nodes p.id todo) ≡ true)
        × ((unresolved nodes p && has_open nodes p.id todo) ≡ false))
      ps

resolve-weight :
    (nodes : Table) (a b : WikilinkRef)
    → a.label ≡ b.label
    → a.source_qual ≡ b.source_qual
    → a.id_hint ≡ b.id_hint
    → resolve nodes a ≡ resolve nodes b
unfolding resolve
resolve-weight nodes a b l s h = rw (l, s, h)

has_open-has_id :
    (nodes : Table) (id : ℕ) (ps : List PendingRelation)
    → has_id id ps ≡ false
    → has_open nodes id ps ≡ false
unfolding has_open has_id
has_open-has_id nodes id [] h = refl
has_open-has_id nodes id (p ∷ ps) h = ground (arith, has_open-has_id nodes id ps)

has_id-All :
    (id : ℕ) (ps : List PendingRelation) → has_id id ps ≡ false → All (λ p. (id == p.id) ≡ false) ps
unfolding has_id
has_id-All id [] h = tt
has_id-All id (p ∷ ps) h = ground (arith, has_id-All id ps)

Replaying-start :
    (nodes : Table) (ps : List PendingRelation) → DistinctIds ps → Replaying nodes ps ps
unfolding has_open
Replaying-start nodes [] d = tt
Replaying-start nodes (p ∷ ps) d =
    let fresh = has_open-has_id nodes p.id ps d.0 in
    (
      (ground arith, ground arith),
      All-map (λ q h. let (other, old) = h in (ground arith, ground arith)) ps
          (All-zip _ _ ps (has_id-All p.id ps d.0) (Replaying-start nodes ps d.1)),
    )

Replaying-skip :
    (nodes : Table) (p : PendingRelation) (todo ps : List PendingRelation)
    → unresolved nodes p ≡ true
    → Replaying nodes (p ∷ todo) ps
    → Replaying nodes todo ps
unfolding has_open
Replaying-skip nodes p todo [] u r = tt
Replaying-skip nodes p todo (q ∷ ps) u r = ground (arith, Replaying-skip nodes p todo ps u r.1)

Replaying-drop :
    (nodes : Table) (p : PendingRelation) (todo ps : List PendingRelation)
    → Replaying nodes (p ∷ todo) ps
    → Replaying nodes todo (drop_pending (λ q. q.id == p.id) ps)
unfolding has_open drop_pending
Replaying-drop nodes p todo [] r = tt
Replaying-drop nodes p todo (q ∷ ps) r = ground (arith, Replaying-drop nodes p todo ps r.1)

has_pending-drop :
    (nodes : Table) (p : PendingRelation) (todo ps : List PendingRelation) (s : Bytes)
    (ref : WikilinkRef)
    → unresolved nodes p ≡ false
    → Replaying nodes (p ∷ todo) ps
    → resolve nodes ref ≡ []
    → has_pending s ref ps ≡ true
    → has_pending s ref (drop_pending (λ q. q.id == p.id) ps) ≡ true
unfolding has_open has_pending drop_pending
has_pending-drop nodes p todo [] s ref u r e h = h
has_pending-drop nodes p todo (q ∷ ps) s ref u r e h =
    ground
      (arith, resolve-weight nodes (ref_of q) ref, has_pending-drop nodes p todo ps s ref u r.1 e)

Replaying-end :
    (nodes : Table) (ps : List PendingRelation)
    → Replaying nodes [] ps
    → All (λ p. unresolved nodes p ≡ true) ps
unfolding has_open
Replaying-end nodes [] r = tt
Replaying-end nodes (p ∷ ps) r = ground (arith, Replaying-end nodes ps r.1)

module _ (now : ℕ) (nodes : Table) (keyed : KeyedRows nodes) where
  -- A row with a target becomes an edge, and goes.
  replay-StaySettled :
      (p : PendingRelation) (todo : List PendingRelation) (g g' : Graph)
      → unresolved nodes p ≡ false
      → Replaying nodes (p ∷ todo) g'.pending
      → ((s t o : Bytes)
          → has_relation s t o g.relations ≡ true
          → has_relation s t o g'.relations ≡ true)
      → g'.pending ≡ g.pending
      → StaySettled nodes g (delete_pending_by_id p.id g') Anyone
  unfolding delete_pending_by_id
  replay-StaySettled p todo g g' found r edges rows s ref _ k = ground (
    arith,
    edges s (resolve nodes ref) origin_parsed,
    has_pending-drop nodes p todo g'.pending s ref found r,
    rows,
    k,
  )

  retry_pending-ok :
      (todo : List PendingRelation) (g : Graph)
      → Sources nodes todo
      → WellFormed nodes g
      → Replaying nodes todo g.pending
      → (g' : Graph) × (retry_pending now nodes todo g ≡ ok g')
        × All (λ p. unresolved nodes p ≡ true) g'.pending
        × StaySettled nodes g g' Anyone
  unfolding retry_pending delete_pending_by_id
  retry_pending-ok [] g s w r = (g, refl, Replaying-end nodes g.pending r, λ s ref _ k. k)
  retry_pending-ok (p ∷ todo) g s w r = elim (Bool-cases (unresolved nodes p)) [
    | inl none_found ↦
        let (g', done, rest, stay) =
          retry_pending-ok todo g s.1 w (Replaying-skip nodes p todo g.pending none_found r) in
        (g', ground (arith, done, none_found), rest, stay)
    | inr found ↦
        let target = resolve nodes (ref_of p) in
        let (g₁, done₁, own, edges, rows, next) =
          upsert_relation-ok now nodes p.source_node_id target p.weight p.origin g s.0
            (resolve-Found nodes (ref_of p) keyed (ground arith)) in
        let r₁ : Replaying nodes (p ∷ todo) g₁.pending =
          subst (Replaying nodes (p ∷ todo)) (sym rows) r in
        let w₁ = drop_pending-WellFormed (λ q. q.id == p.id) g₁ (WellFormed-eq g g₁ rows next w) in
        let (g', done, rest, stay) =
          retry_pending-ok todo (delete_pending_by_id p.id g₁) s.1 w₁
            (Replaying-drop nodes p todo g₁.pending r₁) in
        (
          g',
          rw found (rw done₁ done),
          rest,
          λ source ref a k.
              stay source ref a (replay-StaySettled p todo g g₁ found r₁ edges rows source ref a k),
        )
  ]

-- After `RunTx` every wikilink of a compiled node is an edge to the node that it resolves to, or a
-- pending row where it resolves to none, and no pending row of the database has a target any more;
-- and it does not fail. The compiled nodes have distinct ids, and they and the sources of the pending
-- rows are rows of the table, which stand under their ids; pending rows have ids of their own.
pub run-Settled :
    (now : ℕ) (nodes : Table) (ns : List ContextNode) (g : Graph)
    → KeyedRows nodes
    → All (λ (n : ContextNode). has_row n.id nodes ≡ true) ns
    → Distinct ns
    → WellFormed nodes g
    → (g' : Graph) × (run now nodes ns g ≡ ok g')
      × All (λ (n : ContextNode). AllSettled nodes g' n.id n.wikilink_refs) ns
      × All (λ p. unresolved nodes p ≡ true) g'.pending
unfolding run
run-Settled now nodes ns g keyed rows distinct w =
    let (g₁, done₁, w₁, own, stay₁) = run_nodes-ok now nodes keyed ns g rows distinct w in
    let (g₂, done₂, none_left, stay₂) =
      retry_pending-ok now nodes keyed g₁.pending g₁ w₁.sources w₁
        (Replaying-start nodes g₁.pending w₁.distinct) in
    (
      g₂,
      rw done₁ done₂,
      All-map
          (λ n (h : AllSettled nodes g₁ n.id n.wikilink_refs).
            All-map (λ ref k. stay₂ n.id ref tt k) n.wikilink_refs h)
          ns own,
      none_left,
    )
