-- ===== src/Relations/Settled.antt =====
-- A reference that is settled is an edge or a pending row, and stays so.
use remindb.Prelude.{
  ℕ, ◌<◌, ◌≡◌, sym, subst, Bool, true, List, [], ◌∷◌, arith, if◌then◌else◌, Bytes, ◌=s◌, All,
}
use remindb.Parser.Ast.{WikilinkRef}
use remindb.Store.Rows.{Table}
use remindb.Store.Relations.{Graph, PendingRelation, origin_parsed, has_relation}
use remindb.Relations.{resolve, ref_of}
use remindb.Relations.Edges.{has_pending}
use remindb.Relations.Pending.{WellFormed, Sources, DistinctIds}

-- A reference of a node is an edge to its target, or pending if it has none.
abbrev pub settled : Table → Graph → Bytes → WikilinkRef → Bool
settled nodes g source ref =
    let target = resolve nodes ref in
    if target =s []
    then has_pending source ref g.pending
    else has_relation source target origin_parsed g.relations

abbrev pub AllSettled : Table → Graph → Bytes → List WikilinkRef → Type 0
AllSettled nodes g source refs = All (λ ref. settled nodes g source ref ≡ true) refs

-- What was settled stays so, for the nodes of a kind.
abbrev pub StaySettled : Table → Graph → Graph → (Bytes → Type 0) → Type 0
StaySettled nodes g g' Kind =
    (source : Bytes) (ref : WikilinkRef)
    → Kind source
    → settled nodes g source ref ≡ true
    → settled nodes g' source ref ≡ true

abbrev pub Anyone : Bytes → Type 0
Anyone source = Unit

pub has_pending_self :
    (source : Bytes) (ref : WikilinkRef) (p : PendingRelation)
    → p.source_node_id ≡ source
    → ref_of p ≡ ref
    → p.origin ≡ origin_parsed
    → has_pending source ref (p ∷ []) ≡ true
unfolding has_pending
has_pending_self source ref p a b c = ground arith

pub settled_mono :
    (nodes : Table) (g g' : Graph)
    → ((s t o : Bytes)
        → has_relation s t o g.relations ≡ true
        → has_relation s t o g'.relations ≡ true)
    → ((s : Bytes) (ref : WikilinkRef)
        → has_pending s ref g.pending ≡ true
        → has_pending s ref g'.pending ≡ true)
    → StaySettled nodes g g' Anyone
settled_mono nodes g g' edges rows s ref _ h =
    ground (arith, edges s (resolve nodes ref) origin_parsed, rows s ref, h)

pub WellFormed-eq :
    {nodes : Table} (g g' : Graph)
    → g'.pending ≡ g.pending
    → g'.next_pending ≡ g.next_pending
    → WellFormed nodes g
    → WellFormed nodes g'
WellFormed-eq {nodes} g g' e next w = record {
  sources = subst (Sources nodes) (sym e) w.sources;
  given =
      subst (All (λ (p : PendingRelation). p.id < g'.next_pending)) (sym e)
        (subst (λ (m : ℕ). All (λ (p : PendingRelation). p.id < m) g.pending) (sym next) w.given);
  distinct = subst DistinctIds (sym e) w.distinct;
}
