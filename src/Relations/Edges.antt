-- ===== src/Relations/Edges.antt =====
-- What the statement on the table of edges keeps.
use remindb.Prelude.{
  ℕ, ◌+◌, ◌≡◌, refl, ◌∙◌, inl, inr, Bool, true, false, ◌&&◌, ◌||◌, List, [], ◌∷◌, ◌++◌, arith,
  Bool-cases, Bytes, ◌=s◌,
}
use remindb.Prelude.Result.{ok}
use remindb.Parser.Ast.{WikilinkRef}
use remindb.Store.Rows.{Table}
use remindb.Store.Relations.{
  Graph, Relation, PendingRelation, origin_parsed, has_row, has_relation, set_weight,
  upsert_relation, new_edge,
}

-- A pending row that holds a reference of a node.
abbrev holds_ref : Bytes → WikilinkRef → PendingRelation → Bool
holds_ref source ref p =
    p.source_node_id =s source
    && p.target_label =s ref.label
    && p.target_source =s ref.source_qual
    && p.target_id_hint =s ref.id_hint
    && p.origin =s origin_parsed

unfoldable pub has_pending : Bytes → WikilinkRef → List PendingRelation → Bool
has_pending source ref [] = false
has_pending source ref (p ∷ ps) = holds_ref source ref p || has_pending source ref ps

has_relation-set_weight :
    (s t o s' t' o' : Bytes) (w : ℕ) (rs : List Relation)
    → has_relation s t o (set_weight s' t' o' w rs) ≡ has_relation s t o rs
unfolding has_relation set_weight
has_relation-set_weight s t o s' t' o' w [] = refl
has_relation-set_weight s t o s' t' o' w (r ∷ rs) =
    ground (arith, has_relation-set_weight s t o s' t' o' w rs)

has_relation-append :
    (s t o : Bytes) (rs qs : List Relation)
    → has_relation s t o (rs ++ qs) ≡ (has_relation s t o rs || has_relation s t o qs)
unfolding has_relation
has_relation-append s t o [] qs = refl
has_relation-append s t o (r ∷ rs) qs = ground (arith, has_relation-append s t o rs qs)

pub has_pending-append :
    (s : Bytes) (ref : WikilinkRef) (ps qs : List PendingRelation)
    → has_pending s ref (ps ++ qs) ≡ (has_pending s ref ps || has_pending s ref qs)
unfolding has_pending
has_pending-append s ref [] qs = refl
has_pending-append s ref (p ∷ ps) qs = ground (arith, has_pending-append s ref ps qs)

has_relation_self :
    (s t o : Bytes) (r : Relation)
    → r.source_node_id ≡ s
    → r.target_node_id ≡ t
    → r.origin ≡ o
    → has_relation s t o (r ∷ []) ≡ true
unfolding has_relation
has_relation_self s t o r hs ht ho = ground arith

-- An upsert between rows of the table adds its edge, keeps the other edges, and leaves the pending
-- rows alone.
pub upsert_relation-ok :
    (now : ℕ) (nodes : Table) (s t : Bytes) (w : ℕ) (o : Bytes) (g : Graph)
    → has_row s nodes ≡ true
    → has_row t nodes ≡ true
    → (g' : Graph) × (upsert_relation now nodes s t w o g ≡ ok g')
      × (has_relation s t o g'.relations ≡ true)
      × ((s' t' o' : Bytes)
          → has_relation s' t' o' g.relations ≡ true
          → has_relation s' t' o' g'.relations ≡ true)
      × (g'.pending ≡ g.pending)
      × (g'.next_pending ≡ g.next_pending)
unfolding upsert_relation
upsert_relation-ok now nodes s t w o g hs ht = elim (Bool-cases (has_relation s t o g.relations)) [
  | inl old ↦ (
    record g { relations = set_weight s t o w g.relations },
    ground arith,
    has_relation-set_weight s t o s t o w g.relations ∙ old,
    λ s' t' o' h. has_relation-set_weight s' t' o' s t o w g.relations ∙ h,
    refl,
    refl,
  )
  | inr new ↦ (
    record g {
      relations = g.relations ++ new_edge now s t w o g ∷ [];
      next_relation = g.next_relation + 1;
    },
    ground arith,
    rw (has_relation-append s t o g.relations (new_edge now s t w o g ∷ []))
        (ground (arith, has_relation_self s t o (new_edge now s t w o g))),
    λ s' t' o' h.
        rw (has_relation-append s' t' o' g.relations (new_edge now s t w o g ∷ []))
          (ground (arith, h)),
    refl,
    refl,
  )
]
