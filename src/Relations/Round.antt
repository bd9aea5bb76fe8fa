-- ===== src/Relations/Round.antt =====
-- The rounds of the first loop settle the references of the compiled nodes.
use remindb.Prelude.{
  ℕ, ◌≡◌, refl, ◌≢◌, true, false, ◌&&◌, List, [], ◌∷◌, arith, Bytes, ◌=s◌, str_dec, All, All-map,
}
use remindb.Prelude.Result.{Result, ok}
use remindb.Parser.Ast.{ContextNode, WikilinkRef}
use remindb.Store.Rows.{Table, Error}
use remindb.Store.Relations.{
  Graph, PendingRelation, origin_parsed, has_row, drop_pending, delete_parsed_pending,
}
use remindb.Relations.{resolve, pending_of, emit_ref, emit_refs, run_node, run_nodes}
use remindb.Diff.{seen}
use remindb.Diff.Patch.{Distinct}
use remindb.Relations.Resolved.{KeyedRows, resolve-Found}
use remindb.Relations.Pending.{drop_pending-WellFormed, WellFormed, insert_pending-ok, new_row}
use remindb.Relations.Edges.{has_pending, upsert_relation-ok, has_pending-append}
use remindb.Relations.Settled.{
  StaySettled, settled, AllSettled, Anyone, has_pending_self, WellFormed-eq, settled_mono,
}

module _ (now : ℕ) (nodes : Table) (keyed : KeyedRows nodes) where
  -- What a step does: it succeeds, and keeps the invariant and what is settled.
  abbrev Keeps : Graph → Result Error Graph → (Graph → Type 0) → (Bytes → Type 0) → Type 0
  Keeps g r After Kind =
      (g' : Graph) × (r ≡ ok g') × WellFormed nodes g' × After g' × StaySettled nodes g g' Kind

  emit_missing :
      (source : Bytes) (ref : WikilinkRef) (g : Graph)
      → has_row source nodes ≡ true
      → WellFormed nodes g
      → resolve nodes ref ≡ []
      → Keeps g
          (emit_ref now nodes source ref origin_parsed g)
          (λ g'. settled nodes g' source ref ≡ true)
          Anyone
  unfolding emit_ref
  emit_missing source ref g h w e =
      let p = pending_of source ref origin_parsed in
      let (g', done, same, rows, w') = insert_pending-ok now nodes p g h w in
      let own = has_pending_self source ref (new_row now p g) refl refl refl in
      (
        g',
        ground (arith, done, e),
        w',
        ground
            (arith, e, rows, own, has_pending-append source ref g.pending (new_row now p g ∷ [])),
        settled_mono nodes g g' (λ s t o k. rw same k)
            (λ s r k.
              rw rows
                (rw (has_pending-append s r g.pending (new_row now p g ∷ [])) (ground (arith, k)))),
      )

  emit_edge :
      (source : Bytes) (ref : WikilinkRef) (g : Graph)
      → has_row source nodes ≡ true
      → WellFormed nodes g
      → resolve nodes ref ≢ []
      → Keeps g
          (emit_ref now nodes source ref origin_parsed g)
          (λ g'. settled nodes g' source ref ≡ true)
          Anyone
  unfolding emit_ref
  emit_edge source ref g h w ne =
      let (g', done, own, edges, rows, next) =
        upsert_relation-ok now nodes source (resolve nodes ref) ref.weight origin_parsed g h
          (resolve-Found nodes ref keyed ne) in
      (
        g',
        ground (arith, done, ne),
        WellFormed-eq g g' rows next w,
        ground (arith, own, ne),
        settled_mono nodes g g' edges (λ s r k. rw rows k),
      )

  emit_ref-ok :
      (source : Bytes) (ref : WikilinkRef) (g : Graph)
      → has_row source nodes ≡ true
      → WellFormed nodes g
      → Keeps g
          (emit_ref now nodes source ref origin_parsed g)
          (λ g'. settled nodes g' source ref ≡ true)
          Anyone
  emit_ref-ok source ref g h w = elim (str_dec (resolve nodes ref) []) [
    | yes missing ↦ emit_missing source ref g h w missing
    | no found ↦ emit_edge source ref g h w found
  ]

  emit_refs-ok :
      (source : Bytes) (refs : List WikilinkRef) (g : Graph)
      → has_row source nodes ≡ true
      → WellFormed nodes g
      → Keeps g (emit_refs now nodes source refs g) (λ g'. AllSettled nodes g' source refs) Anyone
  unfolding emit_refs
  emit_refs-ok source [] g h w = (g, refl, w, tt, λ s ref _ k. k)
  emit_refs-ok source (ref ∷ refs) g h w =
      let (g₁, done₁, w₁, own, stay₁) = emit_ref-ok source ref g h w in
      let (g₂, done₂, w₂, rest, stay₂) = emit_refs-ok source refs g₁ h w₁ in
      (
        g₂,
        rw done₁ done₂,
        w₂,
        (stay₂ source ref tt own, rest),
        λ s r k e. stay₂ s r k (stay₁ s r k e),
      )

  has_pending-clear :
      (source s : Bytes) (ref : WikilinkRef) (ps : List PendingRelation)
      → s ≢ source
      → has_pending s ref ps ≡ true
      → has_pending s ref
          (drop_pending (λ p. p.source_node_id =s source && p.origin =s origin_parsed) ps)
        ≡ true
  unfolding has_pending drop_pending
  has_pending-clear source s ref [] ne h = h
  has_pending-clear source s ref (p ∷ ps) ne h = ground (arith, has_pending-clear source s ref ps)

  -- Clearing the pending rows of one node leaves what is settled of the others.
  delete_parsed_pending-StaySettled :
      (source : Bytes) (g : Graph)
      → StaySettled nodes g (delete_parsed_pending source g) (λ s. s ≢ source)
  unfolding delete_parsed_pending
  delete_parsed_pending-StaySettled source g s ref ne h =
      ground (arith, has_pending-clear source s ref g.pending ne)

  run_node-ok :
      (source : Bytes) (refs : List WikilinkRef) (g : Graph)
      → has_row source nodes ≡ true
      → WellFormed nodes g
      → Keeps g
          (run_node now nodes source refs g)
          (λ g'. AllSettled nodes g' source refs)
          (λ s. s ≢ source)
  unfolding run_node
  run_node-ok source [] g h w = (g, refl, w, tt, λ s ref _ k. k)
  run_node-ok source (ref ∷ refs) g h w =
      let cleared : WellFormed nodes (delete_parsed_pending source g) =
        unfold delete_parsed_pending in drop_pending-WellFormed _ g w in
      let (g', done, w', own, stay) =
        emit_refs-ok source (ref ∷ refs) (delete_parsed_pending source g) h cleared in
      (
        g',
        done,
        w',
        own,
        λ s r ne k. stay s r tt (delete_parsed_pending-StaySettled source g s r ne k),
      )

  seen-cons :
      (s : Bytes) (n : ContextNode) (ns : List ContextNode)
      → seen s (n ∷ ns) ≡ false
      → (s ≢ n.id) × (seen s ns ≡ false)
  unfolding seen
  seen-cons s n ns h = ground arith

  pub run_nodes-ok :
      (ns : List ContextNode) (g : Graph)
      → All (λ (n : ContextNode). has_row n.id nodes ≡ true) ns
      → Distinct ns
      → WellFormed nodes g
      → Keeps g
          (run_nodes now nodes ns g)
          (λ g'. All (λ (n : ContextNode). AllSettled nodes g' n.id n.wikilink_refs) ns)
          (λ s. seen s ns ≡ false)
  unfolding run_nodes
  run_nodes-ok [] g h d w = (g, refl, w, tt, λ s ref _ k. k)
  run_nodes-ok (n ∷ ns) g h d w =
      let (g₁, done₁, w₁, own, stay₁) = run_node-ok n.id n.wikilink_refs g h.0 w in
      let (g₂, done₂, w₂, rest, stay₂) = run_nodes-ok ns g₁ h.1 d.1 w₁ in
      (
        g₂,
        rw done₁ done₂,
        w₂,
        (All-map (λ ref k. stay₂ n.id ref d.0 k) n.wikilink_refs own, rest),
        λ s r u k. let (ne, later) = seen-cons s n ns u in stay₂ s r later (stay₁ s r ne k),
      )
