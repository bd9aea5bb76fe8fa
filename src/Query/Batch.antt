-- ===== src/Query/Batch.antt =====
-- What `FetchBatch` answers for each id.
use remindb.Prelude.{
  ◌≡◌, refl, sym, ap, ◌∙◌, subst, ◌≢◌, ◌⊎◌, inl, inr, Bool, true, false, not, ◌&&◌, Option, none,
  some, List, [], ◌∷◌, arith, if◌then◌else◌, Bool-cases, Bytes, str_dec, All,
}
use remindb.Prelude.Assoc.{lookup, insert, lookup-insert}
use remindb.Prelude.Sorting.{contains, DistinctStrings}
use remindb.Store.Rows.{Node}
use remindb.Query.Budget.{ScoredNode, Filled, all_nodes}
use remindb.Query.Engine.{QueryStore, Scoring, batch_order, fetch_batch, by_id, score_one}

-- No row has the id.
abbrev NoRow : Bytes → List Node → Type 0
NoRow q rows = All (λ (m : Node). m.id ≢ q) rows

-- The last one of the rows that have the id.
pub data LastRow (q : Bytes) (n : Node) : List Node → Type 0 where
  here : {rows : List Node} → n.id ≡ q → NoRow q rows → LastRow q n (n ∷ rows)
  later : {m : Node} {rows : List Node} → LastRow q n rows → LastRow q n (m ∷ rows)

module _ (store : QueryStore) (scoring : Scoring) where
  -- Each id is answered by its row among those that the store has read, or reported as missing where
  -- it has none, in the order of the ids.
  pub data Answers (rows : List Node) : List Bytes → List ScoredNode → List Bytes → Type 0 where
    finished : Answers rows [] [] []
    found :
        {ids : List Bytes} {ordered : List ScoredNode} {missing : List Bytes} (id : Bytes)
        (n : Node)
        → LastRow id n rows
        → Answers rows ids ordered missing
        → Answers rows (id ∷ ids) (score_one store scoring n ∷ ordered) missing
    absent :
        {ids : List Bytes} {ordered : List ScoredNode} {missing : List Bytes} (id : Bytes)
        → NoRow id rows
        → Answers rows ids ordered missing
        → Answers rows (id ∷ ids) ordered (id ∷ missing)

-- What the map of the rows says about an id.
abbrev Kept : Bytes → List Node → Option Node → Option Node → Type 0
Kept q rows before o =
    ((n : Node) × (o ≡ some n) × LastRow q n rows) ⊎ ((o ≡ before) × NoRow q rows)

by_id-Kept :
    (q : Bytes) (rows : List Node) (m : List (Bytes × Node))
    → Kept q rows (lookup q m) (lookup q (by_id rows m))
unfolding by_id
by_id-Kept q [] m = inr (refl, tt)
by_id-Kept q (n ∷ rows) m = elim (by_id-Kept q rows (insert n.id n m)) [
  | inl (x, e, last) ↦ inl (x, e, later last)
  | inr (e, none_of) ↦ elim (str_dec q n.id) [
    | yes same ↦
        inl (n, e ∙ ground (arith, lookup-insert q n.id n m, same), here (sym same) none_of)
    | no differ ↦
        inr (e ∙ ground (arith, lookup-insert q n.id n m, differ), ((λ h. differ (sym h)), none_of))
  ]
]

-- The map of the rows from the empty one: `o` is what it has at the id.
abbrev Rows : Bytes → List Node → Option Node → Type 0
Rows q rows none = NoRow q rows
Rows q rows (some n) = LastRow q n rows

Kept-Rows : (q : Bytes) (rows : List Node) (o : Option Node) → Kept q rows none o → Rows q rows o
Kept-Rows q rows o (inl (n, e, last)) = subst (Rows q rows) (sym e) last
Kept-Rows q rows o (inr (e, none_of)) = subst (Rows q rows) (sym e) none_of

by_id-Rows : (q : Bytes) (rows : List Node) → Rows q rows (lookup q (by_id rows []))
by_id-Rows q rows = Kept-Rows q rows _ (unfold lookup in by_id-Kept q rows [])

-- The ids that are not among those seen, each at its first place.
unfoldable first_places : List Bytes → List Bytes → List Bytes
unfolding contains
first_places [] seen = []
first_places (id ∷ ids) seen =
    let again = first_places ids seen in
    let new = id ∷ first_places ids (id ∷ seen) in if contains id seen then again else new

-- Some of the ids, in their order.
pub data Within : List Bytes → List Bytes → Type 0 where
  ended : Within [] []
  taken : {us ids : List Bytes} (id : Bytes) → Within us ids → Within (id ∷ us) (id ∷ ids)
  passed : {us ids : List Bytes} (id : Bytes) → Within us ids → Within us (id ∷ ids)

first_places-Within : (ids seen : List Bytes) → Within (first_places ids seen) ids
unfolding first_places
first_places-Within [] seen = ended
first_places-Within (id ∷ ids) seen = ground (
  arith,
  passed id (first_places-Within ids seen),
  taken id (first_places-Within ids (id ∷ seen)),
)

contains-first_places :
    (q : Bytes) (ids seen : List Bytes)
    → contains q (first_places ids seen) ≡ (contains q ids && not (contains q seen))
unfolding first_places contains
contains-first_places q [] seen = refl
contains-first_places q (id ∷ ids) seen = elim (str_dec q id) [
  | yes e ↦ ground (
    arith,
    contains-first_places q ids seen,
    contains-first_places q ids (id ∷ seen),
    ap (λ k. contains k seen) e,
    e,
  )
  | no e ↦
      ground (arith, contains-first_places q ids seen, contains-first_places q ids (id ∷ seen), e)
]

and_not_empty : (q : Bytes) (b : Bool) → (b && not (contains q [])) ≡ b
unfolding contains
and_not_empty q true = refl
and_not_empty q false = refl

not-contains-places :
    (id : Bytes) (ids seen : List Bytes) → contains id (first_places ids (id ∷ seen)) ≡ false
unfolding contains
not-contains-places id ids seen =
    ground (arith, contains-first_places id ids (id ∷ seen), Bool-cases (contains id ids))

first_places-DistinctStrings : (ids seen : List Bytes) → DistinctStrings (first_places ids seen)
unfolding first_places
first_places-DistinctStrings [] seen = tt
first_places-DistinctStrings (id ∷ ids) seen = ground (
  arith,
  first_places-DistinctStrings ids seen,
  first_places-DistinctStrings ids (id ∷ seen),
  not-contains-places id ids seen,
)

module _ (store : QueryStore) (scoring : Scoring) where
  -- One round of the loop.
  abbrev round :
      Bytes
      → Bool
      → Option Node
      → List ScoredNode × List Bytes
      → List ScoredNode × List Bytes
      → List ScoredNode × List Bytes
  round id b o again new = if b then again else elim o [
    | none ↦ (new.0, id ∷ new.1)
    | some n ↦ (score_one store scoring n ∷ new.0, new.1)
  ]

  round-Answers :
      (rows : List Node) (id : Bytes) (us vs : List Bytes)
      (again new : List ScoredNode × List Bytes) (b : Bool) (o : Option Node)
      → Rows id rows o
      → Answers store scoring rows us again.0 again.1
      → Answers store scoring rows vs new.0 new.1
      → Answers store scoring rows
          (if b then us else id ∷ vs)
          (round id b o again new).0
          (round id b o again new).1
  round-Answers rows id us vs again new true o r p q = p
  round-Answers rows id us vs again new false none r p q = absent id r q
  round-Answers rows id us vs again new false (some n) r p q = found id n r q

  batch_order-Answers :
      (ids : List Bytes) (rows : List Node) (seen : List Bytes)
      → Answers store scoring rows
          (first_places ids seen)
          (batch_order store scoring ids (by_id rows []) seen).0
          (batch_order store scoring ids (by_id rows []) seen).1
  unfolding batch_order first_places
  batch_order-Answers [] rows seen = finished
  batch_order-Answers (id ∷ ids) rows seen =
      let nodes = by_id rows [] in
      round-Answers rows id (first_places ids seen) (first_places ids (id ∷ seen))
        (batch_order store scoring ids nodes seen) (batch_order store scoring ids nodes (id ∷ seen))
        (contains id seen) (lookup id nodes) (by_id-Rows id rows)
        (batch_order-Answers ids rows seen) (batch_order-Answers ids rows (id ∷ seen))

  fetch_batch_all :
      (id : Bytes) (ids : List Bytes) (rows : List Node)
      → store.get_nodes_by_ids (id ∷ ids) ≡ some rows
      → fetch_batch store scoring (id ∷ ids) 0
        ≡ some (
          all_nodes (batch_order store scoring (id ∷ ids) (by_id rows []) []).0,
          (batch_order store scoring (id ∷ ids) (by_id rows []) []).1,
        )
  unfolding fetch_batch
  fetch_batch_all id ids rows e = ground (arith, e)

  all-nodes : (l : List ScoredNode) → (all_nodes l).nodes ≡ l
  unfolding all_nodes
  all-nodes l = refl

  -- Without a budget, where the store reads the rows of the ids, `FetchBatch` answers for a list that
  -- has each requested id exactly once and no other, in the order of the request: in the order of that
  -- list it gives the node of the id where the store has returned one, the last of them if there are
  -- several, and reports the id as missing where it has not.
  pub fetch_batch-Answers :
      (id : Bytes) (ids : List Bytes) (rows : List Node)
      → store.get_nodes_by_ids (id ∷ ids) ≡ some rows
      → (r : Filled × List Bytes) × (unique : List Bytes) × (fetch_batch store scoring (id ∷ ids) 0
          ≡ some r)
        × DistinctStrings unique
        × Within unique (id ∷ ids)
        × ((q : Bytes) → contains q unique ≡ contains q (id ∷ ids))
        × Answers store scoring rows unique r.0.nodes r.1
  fetch_batch-Answers id ids rows e =
      let o = batch_order store scoring (id ∷ ids) (by_id rows []) [] in
      (
        (all_nodes o.0, o.1),
        first_places (id ∷ ids) [],
        fetch_batch_all id ids rows e,
        first_places-DistinctStrings (id ∷ ids) [],
        first_places-Within (id ∷ ids) [],
        (λ q. contains-first_places q (id ∷ ids) [] ∙ and_not_empty q (contains q (id ∷ ids))),
        subst (λ l. Answers store scoring rows (first_places (id ∷ ids) []) l o.1)
            (sym (all-nodes o.0)) (batch_order-Answers (id ∷ ids) rows []),
      )
