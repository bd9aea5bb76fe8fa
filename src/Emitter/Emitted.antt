-- ===== src/Emitter/Emitted.antt =====
-- What a successful run of pkg/emitter does to the tables.
use remindb.Prelude.{
  ℕ, ◌+◌, ◌≡◌, refl, ◌⊎◌, inl, inr, true, some, List, [], ◌∷◌, ◌++◌, arith, if◌then◌else◌, str_dec,
  All,
}
use remindb.Prelude.Assoc.{lookup, insert, lookup-insert}
use remindb.Prelude.Result.{ok, >>=-ok}
use remindb.Parser.Ast.{ContextNode, Trees, flatten, flatten_map, index_nodes}
use remindb.Diff.{Delta}
use remindb.Store.Snapshots.{Snapshot, Database, create_snapshot, has_snapshot, new_snapshot}
use remindb.Emitter.{
  Options, NodeMap, apply_deltas, capture_pre_state, emit, emit_tx, snapshot_options,
}
use remindb.Emitter.Core.{KeyedMap}
use remindb.Diff.Distinct.{DistinctDeltas}
use remindb.Emitter.Records.{Coherent, records}
use remindb.Emitter.Closed.{is_closed}

-- `FlattenMap` keys each node by its id.
index_nodes-KeyedMap :
    (flat : List ContextNode) (m : NodeMap) → KeyedMap m → KeyedMap (index_nodes flat m)
unfolding index_nodes
index_nodes-KeyedMap [] m k = k
index_nodes-KeyedMap (n ∷ flat) m k = index_nodes-KeyedMap flat (insert n.id n m) (λ q x e.
    elim (str_dec q n.id) [
      | yes here ↦ ground (arith, lookup-insert q n.id n m)
      | no there ↦ k q x (ground (arith, lookup-insert q n.id n m))
    ])

pub flatten_map-KeyedMap : (roots : Trees) → KeyedMap (flatten_map roots)
unfolding flatten_map lookup
flatten_map-KeyedMap roots =
    index_nodes-KeyedMap (flatten roots) [] (λ q n e. absurd (ground arith))

-- What the compiler and the tools see to before they emit.
pub record SafeChange (now : ℕ) (o : Options) (db : Database) : Type 0 where
  pub distinct : DistinctDeltas o.deltas
  pub coherent : All (Coherent db.nodes) o.deltas
  pub closed : is_closed now (flatten_map o.roots) db.nodes o.deltas ≡ true

pub data History (db : Database) : Database → Type 0 where
  start : History db db
  next :
      {d₁ d₂ : Database} (now : ℕ) (o : Options)
      → History db d₁
      → SafeChange now o d₁
      → emit now o d₁ ≡ ok d₂
      → History db d₂

-- What a successful emit with deltas does to the tables.
abbrev pub Emitted : ℕ → Options → Database → Database → Type 0
Emitted now o db db' =
    (apply_deltas now (flatten_map o.roots) o.deltas db.nodes ≡ ok db'.nodes)
    × (db'.diffs
        ≡ db.diffs ++ records db.next_snapshot (capture_pre_state db.nodes o.deltas []) o.deltas)
    × (db'.next_snapshot ≡ db.next_snapshot + 1)
    × (db'.head ≡ some db.next_snapshot)
    × (db'.snapshots
        ≡ db.snapshots
          ++ new_snapshot now (snapshot_options o) (record db { nodes = db'.nodes }) ∷ [])

pub has_snapshot-append :
    (id : ℕ) (xs ys : List Snapshot)
    → has_snapshot id (xs ++ ys) ≡ (if has_snapshot id xs then true else has_snapshot id ys)
unfolding has_snapshot
has_snapshot-append id [] ys = refl
has_snapshot-append id (s ∷ xs) ys = ground (arith, has_snapshot-append id xs ys)

emit_tx-Emitted :
    (now : ℕ) (o : Options) (db db' : Database) → emit_tx now o db ≡ ok db' → Emitted now o db db'
unfolding emit_tx create_snapshot
emit_tx-Emitted now o db db' e =
    let (t, ran, rest) = >>=-ok (apply_deltas now (flatten_map o.roots) o.deltas db.nodes) _ e in
    (ground (arith, ran), ground (arith, ran), ground arith, ground arith, ground (arith, ran))

pub emit-Emitted :
    (now : ℕ) (o : Options) (db db' : Database)
    → emit now o db ≡ ok db'
    → ((o.deltas ≡ []) × (db' ≡ db)) ⊎ Emitted now o db db'
emit-Emitted now o db db' e = go o.deltas refl
  where
    go : (ds : List Delta) → o.deltas ≡ ds → ((o.deltas ≡ []) × (db' ≡ db)) ⊎ Emitted now o db db'
    go [] h = inl (h, unfold emit in ground arith)
    go (d ∷ ds) h = inr (emit_tx-Emitted now o db db' (unfold emit in ground arith))
