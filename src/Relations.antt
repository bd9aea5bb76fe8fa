-- ===== src/Relations.antt =====
-- pkg/relations: resolver.go and compile.go. A resolution reads the rows that its transaction has
-- written; the graph is the two tables of edges.
pub mod Edges
pub mod Pending
pub mod Resolved
mod Examples
pub mod Retry
pub mod Settled
pub mod Round
use remindb.Prelude.{
  ℕ, zero, suc, ◌+◌, ◌-◌, ◌*◌, ◌/◌, ◌%◌, ◌≤◌, ◌<◌, min, max, ◌≡◌, refl, sym, ap, ◌∙◌, subst, ◌≢◌,
  ◌↔◌, ◌⊎◌, inl, inr, Bool, true, false, not, ◌&&◌, ◌||◌, Option, none, some, List, [], ◌∷◌, ◌++◌,
  map, append_assoc, append-nil, arith, ltb, leb, ◌==◌, if◌then◌else◌, Bool-cases, Option-cases,
  Bytes, codes, ◌=s◌, str_dec, length, get_elem?, set, take, drop, replicate, All, All-append,
  All-map, length-append,
}
use remindb.Prelude.Assoc.{lookup}
use remindb.Prelude.Result.{Result, ok, err, ◌>>=◌}
use remindb.Parser.Ast.{ContextNode, WikilinkRef}
use remindb.Store.Rows.{Table, Error}
use remindb.Store.Relations.{
  Graph, PendingRelation, origin_parsed, upsert_relation, insert_pending, delete_pending_by_id,
  delete_parsed_pending, id_or_empty, find_heading_by_label, find_heading_by_label_in_file,
}

-- `ResolveTx`: the id of the target, empty where there is none.
unfoldable pub resolve : Table → WikilinkRef → Bytes
resolve nodes ref =
    if not (ref.id_hint =s [])
    then id_or_empty (lookup ref.id_hint nodes)
    else if ref.label =s []
    then []
    else if not (ref.source_qual =s [])
    then find_heading_by_label_in_file nodes ref.source_qual ref.label
    else find_heading_by_label nodes ref.label

abbrev pub pending_of : Bytes → WikilinkRef → Bytes → PendingRelation
pending_of source ref origin = record {
  id = 0;
  source_node_id = source;
  target_label = ref.label;
  target_source = ref.source_qual;
  target_id_hint = ref.id_hint;
  weight = ref.weight;
  origin = origin;
  created_at = 0;
}

-- The reference that `retryPending` makes of a row.
abbrev pub ref_of : PendingRelation → WikilinkRef
ref_of p = record {
  label = p.target_label;
  source_qual = p.target_source;
  id_hint = p.target_id_hint;
  weight = p.weight;
}

module _ (now : ℕ) (nodes : Table) where
  unfoldable pub emit_ref : Bytes → WikilinkRef → Bytes → Graph → Result Error Graph
  emit_ref source ref origin g =
      let target = resolve nodes ref in
      if not (target =s [])
      then upsert_relation now nodes source target ref.weight origin g
      else insert_pending now nodes (pending_of source ref origin) g

  unfoldable pub emit_refs : Bytes → List WikilinkRef → Graph → Result Error Graph
  unfolding emit_ref
  emit_refs source [] g = ok g
  emit_refs source (ref ∷ refs) g = emit_ref source ref origin_parsed g >>= emit_refs source refs

  -- The loop of `retryPending` over the rows that it has read.
  unfoldable pub retry_pending : List PendingRelation → Graph → Result Error Graph
  retry_pending [] g = ok g
  retry_pending (p ∷ ps) g =
      let target = resolve nodes (ref_of p) in
      let skipped = retry_pending ps g in
      let resolved = upsert_relation now nodes p.source_node_id target p.weight p.origin g >>= λ g'.
      retry_pending ps (delete_pending_by_id p.id g') in
      if target =s [] then skipped else resolved

  -- One round of `RunTx`: a node without references is passed over.
  unfoldable pub run_node : Bytes → List WikilinkRef → Graph → Result Error Graph
  unfolding emit_refs
  run_node source [] g = ok g
  run_node source (ref ∷ refs) g = emit_refs source (ref ∷ refs) (delete_parsed_pending source g)

  unfoldable pub run_nodes : List ContextNode → Graph → Result Error Graph
  unfolding run_node
  run_nodes [] g = ok g
  run_nodes (n ∷ ns) g = run_node n.id n.wikilink_refs g >>= run_nodes ns

  unfoldable pub run : List ContextNode → Graph → Result Error Graph
  run source_nodes g = run_nodes source_nodes g >>= λ g'. retry_pending g'.pending g'
