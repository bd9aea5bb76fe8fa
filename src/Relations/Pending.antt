-- ===== src/Relations/Pending.antt =====
-- What the statements on the table of pending rows keep.
use remindb.Prelude.{
  ℕ, ◌+◌, ◌<◌, ◌≡◌, refl, Bool, true, false, ◌||◌, List, [], ◌∷◌, ◌++◌, arith, ◌==◌, All,
  All-append, All-map,
}
use remindb.Prelude.Result.{ok}
use remindb.Store.Rows.{Table}
use remindb.Store.Relations.{Graph, PendingRelation, has_row, insert_pending, drop_pending}

abbrev pub Sources : Table → List PendingRelation → Type 0
Sources nodes ps = All (λ p. has_row p.source_node_id nodes ≡ true) ps

unfoldable pub has_id : ℕ → List PendingRelation → Bool
has_id id [] = false
has_id id (p ∷ ps) = p.id == id || has_id id ps

abbrev pub DistinctIds : List PendingRelation → Type 0
DistinctIds [] = Unit
DistinctIds (p ∷ ps) = (has_id p.id ps ≡ false) × DistinctIds ps

-- The pending rows belong to nodes, and have ids of their own that AUTOINCREMENT has given out.
pub record WellFormed (nodes : Table) (g : Graph) : Type 0 where
  pub sources : Sources nodes g.pending
  pub given : All (λ p. p.id < g.next_pending) g.pending
  pub distinct : DistinctIds g.pending

module _ (dropped : PendingRelation → Bool) where
  drop_pending-All {κ} :
      (P : PendingRelation → Type κ) (ps : List PendingRelation)
      → All P ps
      → All P (drop_pending dropped ps)
  unfolding drop_pending
  drop_pending-All P [] h = tt
  drop_pending-All P (p ∷ ps) h = ground (arith, drop_pending-All P ps h.1)

  has_id-drop_pending :
      (id : ℕ) (ps : List PendingRelation)
      → has_id id ps ≡ false
      → has_id id (drop_pending dropped ps) ≡ false
  unfolding drop_pending has_id
  has_id-drop_pending id [] h = refl
  has_id-drop_pending id (p ∷ ps) h = ground (arith, has_id-drop_pending id ps)

  drop_pending-DistinctIds :
      (ps : List PendingRelation) → DistinctIds ps → DistinctIds (drop_pending dropped ps)
  unfolding drop_pending
  drop_pending-DistinctIds [] h = tt
  drop_pending-DistinctIds (p ∷ ps) h =
      ground (arith, drop_pending-DistinctIds ps h.1, has_id-drop_pending p.id ps h.0)

  pub drop_pending-WellFormed :
      {nodes : Table} (g : Graph)
      → WellFormed nodes g
      → WellFormed nodes (record g { pending = drop_pending dropped g.pending })
  drop_pending-WellFormed g w = record {
    sources = drop_pending-All _ g.pending w.sources;
    given = drop_pending-All _ g.pending w.given;
    distinct = drop_pending-DistinctIds g.pending w.distinct;
  }

has_id-given : (id : ℕ) (ps : List PendingRelation) → All (λ p. p.id < id) ps → has_id id ps ≡ false
unfolding has_id
has_id-given id [] h = refl
has_id-given id (p ∷ ps) h = ground (arith, has_id-given id ps)

has_id-snoc :
    (id : ℕ) (ps : List PendingRelation) (q : PendingRelation)
    → has_id id (ps ++ q ∷ []) ≡ (has_id id ps || q.id == id)
unfolding has_id
has_id-snoc id [] q = ground arith
has_id-snoc id (p ∷ ps) q = ground (arith, has_id-snoc id ps q)

DistinctIds-snoc :
    (ps : List PendingRelation) (q : PendingRelation)
    → DistinctIds ps
    → All (λ p. p.id < q.id) ps
    → DistinctIds (ps ++ q ∷ [])
unfolding has_id
DistinctIds-snoc [] q d h = (refl, tt)
DistinctIds-snoc (p ∷ ps) q d h =
    (ground (arith, has_id-snoc p.id ps q, d.0, h.0), DistinctIds-snoc ps q d.1 h.1)

-- The row that `InsertPendingRelationTx` writes.
abbrev pub new_row : ℕ → PendingRelation → Graph → PendingRelation
new_row now p g = record p { id = g.next_pending; created_at = now }

-- A pending row of a node of the table goes in, behind the others.
pub insert_pending-ok :
    (now : ℕ) (nodes : Table) (p : PendingRelation) (g : Graph)
    → has_row p.source_node_id nodes ≡ true
    → WellFormed nodes g
    → (g' : Graph) × (insert_pending now nodes p g ≡ ok g')
      × (g'.relations ≡ g.relations)
      × (g'.pending ≡ g.pending ++ new_row now p g ∷ [])
      × WellFormed nodes g'
unfolding insert_pending
insert_pending-ok now nodes p g h w = (
  record g { pending = g.pending ++ new_row now p g ∷ []; next_pending = g.next_pending + 1 },
  rw h,
  refl,
  refl,
  record {
    sources = All-append _ g.pending (new_row now p g ∷ []) w.sources (h, tt);
    given =
        All-append _ g.pending (new_row now p g ∷ [])
          (All-map (λ q (lt : q.id < g.next_pending). omega arith) g.pending w.given)
          (omega arith, tt);
    distinct = DistinctIds-snoc g.pending (new_row now p g) w.distinct w.given;
  },
)
