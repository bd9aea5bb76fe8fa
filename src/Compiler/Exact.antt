-- ===== src/Compiler/Exact.antt =====
-- What the table holds after the `Compile` of pkg/compiler/compiler.go.
use remindb.Prelude.{
  ℕ, ◌≡◌, refl, sym, ◌∙◌, subst, inl, inr, true, Option, none, some, List, [], ◌∷◌, arith,
  Bool-cases, Option-cases, Bytes, ◌=s◌,
}
use remindb.Parser.Ast.{ContextNode, flatten, flatten_map, index_nodes}
use remindb.Prelude.Assoc.{lookup, insert, lookup-insert}
use remindb.Prelude.Result.{ok, >>=-ok}
use remindb.Diff.{NodeState, Delta, find, diff_flat, added, modified, removed}
use remindb.Diff.Patch.{Distinct, seen-find}
use remindb.Diff.Distinct.{IsMap}
use remindb.Diff.Found.{find_delta-found, find_delta-lost, find_delta-absent}
use remindb.Store.Rows.{Node, Table}
use remindb.Emitter.{emit, Options}
use remindb.Emitter.Core.{Keyed, core_at, context_core}
use remindb.Emitter.Closed.{is_closed, find_delta}
use remindb.Emitter.Step.{Fate, Stored}
use remindb.Emitter.Forward.{apply_deltas-Fate}
use remindb.Emitter.Emitted.{SafeChange, emit-Emitted, flatten_map-KeyedMap}
use remindb.Compiler.{
  Counts, CompileInput, states_of, load_prev_nodes, build_prev_state, compile_options, compile,
}
use remindb.Compiler.Coherent.{
  compile_options-SafeChange, Owned, Part-lookup, lookup-states_of, load_prev_nodes-Part,
  states_of-none,
}
use remindb.Store.Snapshots.{Database}

-- The hash of the row at an id.
abbrev pub hash_at : Bytes → Table → Option Bytes
hash_at q t = elim (lookup q t) [ none ↦ none | some n ↦ some n.content_hash ]

hash_at-core : (q : Bytes) (s t : Table) → core_at q s ≡ core_at q t → hash_at q s ≡ hash_at q t
hash_at-core q s t e = ground (arith, e)

hash_at-stored :
    (q : Bytes) (t : Table) (n : ContextNode)
    → core_at q t ≡ some (context_core n)
    → hash_at q t ≡ some n.content_hash
hash_at-stored q t n e = ground (arith, e)

index_nodes-find :
    (q : Bytes) (flat : List ContextNode) (m : List (Bytes × ContextNode))
    → Distinct flat
    → lookup q (index_nodes flat m) ≡ (elim (find q flat) [ none ↦ lookup q m | some n ↦ some n ])
unfolding index_nodes find
index_nodes-find q [] m d = refl
index_nodes-find q (n ∷ flat) m d = ground (
  arith,
  index_nodes-find q flat (insert n.id n m) d.1,
  lookup-insert q n.id n m,
  seen-find n.id flat,
  d.0,
)

emit-Fate :
    (now : ℕ) (o : Options) (db db' : Database) (q : Bytes)
    → Keyed db.nodes
    → SafeChange now o db
    → emit now o db ≡ ok db'
    → Fate (flatten_map o.roots) q db.nodes db'.nodes (find_delta q o.deltas)
emit-Fate now o db db' q k safe e = elim (emit-Emitted now o db db' e) [
  | inl (none_eq, same) ↦ unfold find_delta in rw (none_eq, same) refl
  | inr emitted ↦
      apply_deltas-Fate now (flatten_map o.roots) o.deltas db.nodes db'.nodes q
        (flatten_map-KeyedMap o.roots) k safe.distinct safe.closed emitted.0
]

states_of-some :
    (q : Bytes) (t : Table) (n : Node)
    → lookup q t ≡ some n
    → lookup q (states_of t) ≡ some (record { hash = n.content_hash; content = n.content })
unfolding states_of lookup
states_of-some q [] n h = ground (arith, h)
states_of-some q ((k, x) ∷ t) n h = ground (arith, h, states_of-some q t n)

-- What the fate of an id says of its hash.
module _ (m : List (Bytes × ContextNode)) (q : Bytes) (t t' : Table) where
  untouched-hash : (o : Option Delta) → o ≡ none → Fate m q t t' o → hash_at q t' ≡ hash_at q t
  untouched-hash o e fate = hash_at-core q t' t (subst (Fate m q t t') e fate)

  removed-hash :
      (o : Option Delta) (old : NodeState)
      → o ≡ some (removed q old)
      → Fate m q t t' o
      → hash_at q t' ≡ none
  removed-hash o old e fate =
      let here : lookup q t' ≡ none = subst (Fate m q t t') e fate in ground (arith, here)

  Stored-hash :
      (n : ContextNode) → lookup q m ≡ some n → Stored m q t' → hash_at q t' ≡ some n.content_hash
  Stored-hash n found (cn, there, here) = hash_at-stored q t' cn here ∙ ground (arith, found, there)

module _ (stored : Bytes → Bytes → Bytes) (hash : ℕ → List ContextNode → Bytes) where
  -- The hash that belongs at an id: that of the node in the new tree, none where the node is gone from
  -- the files of the compile, and else the one that is there.
  abbrev pub expected_hash : CompileInput → Database → Bytes → Option Bytes
  expected_hash input db q = elim (find q (flatten input.roots)) [
    | some n ↦ some n.content_hash
    | none ↦ elim (lookup q (load_prev_nodes stored hash input db)) [
      | some _ ↦ none
      | none ↦ hash_at q db.nodes
    ]
  ]

  found-hash :
      (now : ℕ) (input : CompileInput) (db db' : Database) (q : Bytes) (n : ContextNode)
      → Distinct (flatten input.roots)
      → IsMap db.nodes
      → find q (flatten input.roots) ≡ some n
      → Fate (flatten_map input.roots) q db.nodes db'.nodes (
          find_delta q
            (diff_flat (flatten input.roots) (states_of (load_prev_nodes stored hash input db))))
      → hash_at q db'.nodes ≡ some n.content_hash
  unfolding flatten_map
  found-hash now input db db' q n distinct m found fate =
      let flat = flatten input.roots in
      let prev = load_prev_nodes stored hash input db in
      let ds = diff_flat flat (states_of prev) in
      let delta = find_delta-found q (states_of prev) flat n distinct found in
      let mapped : lookup q (flatten_map input.roots) ≡ some n =
        ground (arith, index_nodes-find q flat [] distinct, found) in
      let store = Stored-hash (flatten_map input.roots) q db.nodes db'.nodes n mapped in
      elim (Option-cases (lookup q (states_of prev))) [
        | inl new ↦
            let d : find_delta q ds ≡ some (added n) = ground (arith, delta, new) in
            store (subst (Fate (flatten_map input.roots) q db.nodes db'.nodes) d fate)
        | inr (old, there) ↦ elim (Bool-cases (old.hash =s n.content_hash)) [
          | inl same ↦
              let (row, here, h, _) = lookup-states_of q prev old there in
              let held = Part-lookup q row (load_prev_nodes-Part stored hash input db) m here in
              let current : hash_at q db.nodes ≡ some n.content_hash =
                ground (arith, held, h, same) in
              untouched-hash (flatten_map input.roots) q db.nodes db'.nodes (find_delta q ds)
                (ground (arith, delta, there, same)) fate
              ∙ current
          | inr differ ↦
              let d : find_delta q ds ≡ some (modified n old) =
                ground (arith, delta, there, differ) in
              store (subst (Fate (flatten_map input.roots) q db.nodes db'.nodes) d fate)
        ]
      ]

  compile_options-Fate :
      (now : ℕ) (input : CompileInput) (db db' : Database) (q : Bytes)
      → Distinct (flatten input.roots)
      → IsMap db.nodes
      → Owned (load_prev_nodes stored hash input db) db.nodes (flatten input.roots)
      → Keyed db.nodes
      → SafeChange now (compile_options stored hash input db) db
      → emit now (compile_options stored hash input db) db ≡ ok db'
      → hash_at q db'.nodes ≡ expected_hash input db q
  unfolding compile_options build_prev_state
  compile_options-Fate now input db db' q distinct m own keyed safe e =
      let flat = flatten input.roots in
      let prev = load_prev_nodes stored hash input db in
      let m' = flatten_map input.roots in
      let ds = diff_flat flat (states_of prev) in
      let fate : Fate m' q db.nodes db'.nodes (find_delta q ds) =
        emit-Fate now (compile_options stored hash input db) db db' q keyed safe e in
      elim (Option-cases (find q flat)) [
        | inl lost ↦ elim (Option-cases (lookup q prev)) [
          | inl absent ↦
              let expected : expected_hash input db q ≡ hash_at q db.nodes =
                ground (arith, lost, absent) in
              untouched-hash m' q db.nodes db'.nodes (find_delta q ds)
                (find_delta-absent q (states_of prev) flat lost (states_of-none q prev absent)) fate
              ∙ sym expected
          | inr (row, here) ↦
              let expected : expected_hash input db q ≡ none = ground (arith, lost, here) in
              removed-hash m' q db.nodes db'.nodes (find_delta q ds) _
                (find_delta-lost q (states_of prev) flat _ lost (states_of-some q prev row here))
                fate
              ∙ sym expected
        ]
        | inr (n, found) ↦
            let expected : expected_hash input db q ≡ some n.content_hash = ground (arith, found) in
            found-hash now input db db' q n distinct m found fate ∙ sym expected
      ]

  -- What the table holds after a `Compile` that succeeds: at the id of each node of the new tree its
  -- content hash, nothing at an id that the previous state had and no node has, and elsewhere what was
  -- there. The conditions are those under which its deltas are safe to emit.
  pub compile-expected :
      (now : ℕ) (input : CompileInput) (db db' : Database) (counts : Counts) (q : Bytes)
      → Distinct (flatten input.roots)
      → IsMap db.nodes
      → Owned (load_prev_nodes stored hash input db) db.nodes (flatten input.roots)
      → is_closed now
          (flatten_map input.roots)
          db.nodes
          (compile_options stored hash input db).deltas
        ≡ true
      → Keyed db.nodes
      → compile stored hash now input db ≡ ok (counts, db')
      → hash_at q db'.nodes ≡ expected_hash input db q
  unfolding compile
  compile-expected now input db db' counts q distinct m own closed keyed ran =
      let (d, emitted, done) = >>=-ok (emit now (compile_options stored hash input db) db) _ ran in
      let same : d ≡ db' = ground (arith, done) in
      subst (λ x. hash_at q x.nodes ≡ expected_hash input db q) same
        (compile_options-Fate now input db d q distinct m own keyed
          (compile_options-SafeChange stored hash now input db distinct m own closed) emitted)
