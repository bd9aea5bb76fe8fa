-- ===== src/Compiler/Coherent.antt =====
-- What pkg/compiler emits is right about the table.
use remindb.Prelude.{
  ℕ, ◌≡◌, refl, sym, subst, Bool, true, false, none, some, List, [], ◌∷◌, arith, if◌then◌else◌,
  Bytes, str_dec, All, All-map,
}
use remindb.Prelude.Assoc.{lookup}
use remindb.Parser.Ast.{ContextNode, flatten, flatten_map}
use remindb.Diff.{Delta, NodeState, diff_flat, find}
use remindb.Diff.Patch.{Distinct}
use remindb.Diff.Genuine.{Genuine, adds, modifies, removes, diff_flat-Genuine}
use remindb.Diff.Distinct.{IsMap, diff_flat-DistinctDeltas}
use remindb.Store.Rows.{Node, Table}
use remindb.Store.Snapshots.{Database}
use remindb.Emitter.Records.{Coherent}
use remindb.Emitter.Closed.{is_closed}
use remindb.Emitter.Emitted.{SafeChange}
use remindb.Compiler.{
  CompileInput, nodes_by_files, nodes_by_compile_root, states_of, load_prev_nodes, build_prev_state,
  compile_options,
}

-- Some rows of a table, in its order.
pub data Part : Table → Table → Type 0 where
  done : Part [] []
  keep : {s t : Table} (k : Bytes) (n : Node) → Part s t → Part ((k, n) ∷ s) ((k, n) ∷ t)
  skip : {s t : Table} (k : Bytes) (n : Node) → Part s t → Part s ((k, n) ∷ t)

Part-none : (q : Bytes) {s t : Table} → Part s t → lookup q t ≡ none → lookup q s ≡ none
unfolding lookup
Part-none q done h = refl
Part-none q (keep k n p) h = ground (arith, Part-none q p)
Part-none q (skip k n p) h = ground (arith, Part-none q p)

Part-IsMap : {s t : Table} → Part s t → IsMap t → IsMap s
Part-IsMap done m = tt
Part-IsMap (keep k n p) m = (Part-none k p m.0, Part-IsMap p m.1)
Part-IsMap (skip k n p) m = Part-IsMap p m.1

pub Part-lookup :
    (q : Bytes) (x : Node) {s t : Table}
    → Part s t
    → IsMap t
    → lookup q s ≡ some x
    → lookup q t ≡ some x
unfolding lookup
Part-lookup q x done m h = h
Part-lookup q x (keep k n p) m h = ground (arith, Part-lookup q x p m.1)
Part-lookup q x (skip k n p) m h = elim (str_dec q k) [
  | yes e ↦ let lost = Part-none k p m.0 in absurd (ground (arith, lost, h, e))
  | no e ↦ ground (arith, Part-lookup q x p m.1 h)
]

nodes_by_files-Part : (files : List Bytes) (t : Table) → Part (nodes_by_files files t) t
unfolding nodes_by_files
nodes_by_files-Part files [] = done
nodes_by_files-Part files ((k, n) ∷ t) =
    ground (arith, keep k n (nodes_by_files-Part files t), skip k n (nodes_by_files-Part files t))

nodes_by_compile_root-Part :
    (db : Database) (root : Bytes) (t : Table) → Part (nodes_by_compile_root db root t) t
unfolding nodes_by_compile_root
nodes_by_compile_root-Part db root [] = done
nodes_by_compile_root-Part db root ((k, n) ∷ t) = ground (
  arith,
  keep k n (nodes_by_compile_root-Part db root t),
  skip k n (nodes_by_compile_root-Part db root t),
)

either : (P : Table → Type 0) (b : Bool) (s t : Table) → P s → P t → P (if b then s else t)
either P true s t p q = p
either P false s t p q = q

pub lookup-states_of :
    (q : Bytes) (t : Table) (s : NodeState)
    → lookup q (states_of t) ≡ some s
    → (n : Node) × (lookup q t ≡ some n) × (s.hash ≡ n.content_hash) × (s.content ≡ n.content)
unfolding states_of lookup
lookup-states_of q [] s h = absurd (ground arith)
lookup-states_of q ((k, n) ∷ t) s h = elim (str_dec q k) [
  | yes e ↦ (n, ground arith, ground arith, ground arith)
  | no e ↦ let (x, l, a, b) = lookup-states_of q t s (ground arith) in (x, ground (arith, l), a, b)
]

lookup-states_of-none : (q : Bytes) (t : Table) → lookup q (states_of t) ≡ none → lookup q t ≡ none
unfolding states_of lookup
lookup-states_of-none q [] h = refl
lookup-states_of-none q ((k, n) ∷ t) h = ground (arith, lookup-states_of-none q t)

pub states_of-none : (q : Bytes) (t : Table) → lookup q t ≡ none → lookup q (states_of t) ≡ none
unfolding states_of lookup
states_of-none q [] h = refl
states_of-none q ((k, n) ∷ t) h = ground (arith, states_of-none q t)

states_of-IsMap : (t : Table) → IsMap t → IsMap (states_of t)
unfolding states_of
states_of-IsMap [] m = tt
states_of-IsMap ((k, n) ∷ t) m = (states_of-none k t m.0, states_of-IsMap t m.1)

-- A node of the new tree whose id is in the table has its row among the previous ones.
abbrev pub Owned : Table → Table → List ContextNode → Type 0
Owned prev t = All (λ n. lookup n.id prev ≡ none → lookup n.id t ≡ none)

find-All :
    (P : ContextNode → Type 0) (q : Bytes) (n : ContextNode) (flat : List ContextNode)
    → All P flat
    → find q flat ≡ some n
    → P n
unfolding find
find-All P q n [] a f = absurd (ground arith)
find-All P q n (x ∷ flat) a f = elim (str_dec q x.id) [
  | yes e ↦ let same : x ≡ n = ground arith in subst P same a.0
  | no e ↦ find-All P q n flat a.1 (ground arith)
]

coherent :
    (prev t : Table) (flat : List ContextNode)
    → Part prev t
    → IsMap t
    → Owned prev t flat
    → (d : Delta) → Genuine (states_of prev) flat d
    → Coherent t d
coherent prev t flat part m own d (adds n f l e) = subst (Coherent t) (sym e) (
    find-All (λ x. lookup x.id prev ≡ none → lookup x.id t ≡ none) n.id n flat own f
      (lookup-states_of-none n.id prev l))
coherent prev t flat part m own d (modifies n old f l h e) =
    let (x, here, a, b) = lookup-states_of n.id prev old l in
    subst (Coherent t) (sym e) (x, Part-lookup n.id x part m here, a, b)
coherent prev t flat part m own d (removes id old f l e) =
    let (x, here, a, b) = lookup-states_of id prev old l in
    subst (Coherent t) (sym e) (x, Part-lookup id x part m here, a, b)

module _ (stored : Bytes → Bytes → Bytes) (hash : ℕ → List ContextNode → Bytes) where
  pub load_prev_nodes-Part :
      (input : CompileInput) (db : Database) → Part (load_prev_nodes stored hash input db) db.nodes
  unfolding load_prev_nodes
  load_prev_nodes-Part input db =
      either (λ s. Part s db.nodes) _ _ _
        (nodes_by_compile_root-Part db input.compile_root db.nodes) (nodes_by_files-Part _ db.nodes)

  -- The deltas that `Compile` hands to the emitter are safe to emit: no id has two deltas, and each
  -- delta is right about the table, with the hash and content of the row that it changes or removes.
  -- The new nodes have distinct ids, the table is a map, a new node whose id is in the table has its
  -- row among those read for the previous state, and deletions take along only rows that later deltas
  -- remove.
  pub compile_options-SafeChange :
      (now : ℕ) (input : CompileInput) (db : Database)
      → Distinct (flatten input.roots)
      → IsMap db.nodes
      → Owned (load_prev_nodes stored hash input db) db.nodes (flatten input.roots)
      → is_closed now
          (flatten_map input.roots)
          db.nodes
          (compile_options stored hash input db).deltas
        ≡ true
      → SafeChange now (compile_options stored hash input db) db
  unfolding compile_options build_prev_state
  compile_options-SafeChange now input db distinct m own closed =
      let flat = flatten input.roots in
      let prev = load_prev_nodes stored hash input db in
      let part = load_prev_nodes-Part input db in
      record {
        distinct =
            diff_flat-DistinctDeltas flat (states_of prev) distinct
              (states_of-IsMap prev (Part-IsMap part m));
        coherent =
            All-map (coherent prev db.nodes flat part m own) (diff_flat flat (states_of prev))
              (diff_flat-Genuine flat (states_of prev) distinct);
        closed = closed;
      }
