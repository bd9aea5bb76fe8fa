-- ===== src/Diff.antt =====
-- pkg/diff: delta.go, cursor.go and engine.go.
pub mod Patch
pub mod Genuine
pub mod Distinct
pub mod Idempotent
pub mod Hash
pub mod Digests
pub mod Found
mod Examples
use remindb.Prelude.{
  Bool, true, false, List, [], ◌∷◌, ◌++◌, Option, none, some, Bytes, ◌=s◌, if◌then◌else◌,
}
use remindb.Prelude.Assoc.{lookup, insert}
use remindb.Prelude.Sorting.{sort, str_leb}
use remindb.Parser.Ast.{ContextNode, Trees, flatten}

pub data Op : Type 0 where
  op_add op_mod op_rem : Op

pub record Delta : Type 0 where
  pub node_id : Bytes
  pub old_hash : Bytes
  pub new_hash : Bytes
  pub old_content : Bytes
  pub new_content : Bytes
  pub op : Op

pub record NodeState : Type 0 where
  pub hash : Bytes
  pub content : Bytes

abbrev pub States : Type 0
States = List (Bytes × NodeState)

-- `seen[id]` after the loop over `flat`.
unfoldable pub seen : Bytes → List ContextNode → Bool
seen id [] = false
seen id (n ∷ flat) = if id =s n.id then true else seen id flat

-- The node with an id, which `FlattenMap` and `SnapshotFromNodes` keep when ids are distinct.
unfoldable pub find : Bytes → List ContextNode → Option ContextNode
find id [] = none
find id (n ∷ flat) = if id =s n.id then some n else find id flat

abbrev pub state_of : ContextNode → NodeState
state_of n = record { hash = n.content_hash; content = n.content }

unfoldable pub snapshot_flat : List ContextNode → States → States
snapshot_flat [] m = m
snapshot_flat (n ∷ flat) m = snapshot_flat flat (insert n.id (state_of n) m)

unfoldable snapshot_from_nodes : Trees → States
unfolding snapshot_flat
snapshot_from_nodes roots = snapshot_flat (flatten roots) []

abbrev pub added : ContextNode → Delta
added n = record {
  node_id = n.id;
  old_hash = [];
  new_hash = n.content_hash;
  old_content = [];
  new_content = n.content;
  op = op_add;
}

abbrev pub modified : ContextNode → NodeState → Delta
modified n old = record {
  node_id = n.id;
  old_hash = old.hash;
  new_hash = n.content_hash;
  old_content = old.content;
  new_content = n.content;
  op = op_mod;
}

abbrev pub removed : Bytes → NodeState → Delta
removed id old = record {
  node_id = id;
  old_hash = old.hash;
  new_hash = [];
  old_content = old.content;
  new_content = [];
  op = op_rem;
}

-- The first loop of `DiffFlat`.
unfoldable pub changes : States → List ContextNode → List Delta
changes prev [] = []
changes prev (n ∷ flat) =
    let rest = changes prev flat in
    elim (lookup n.id prev) [
      | none ↦ added n ∷ rest
      | some old ↦ if old.hash =s n.content_hash then rest else modified n old ∷ rest
    ]

-- The keys of the previous state that the walk did not see.
unfoldable pub gone : List ContextNode → States → List Bytes
gone flat [] = []
gone flat ((id, s) ∷ prev) = let rest = gone flat prev in if seen id flat then rest else id ∷ rest

-- `prev[id]`, the zero value on a missing key.
unfoldable state_at : States → Bytes → NodeState
state_at prev id = elim (lookup id prev) [ none ↦ record { hash = []; content = [] } | some s ↦ s ]

unfoldable pub removals : States → List Bytes → List Delta
unfolding state_at
removals prev [] = []
removals prev (id ∷ ids) = removed id (state_at prev id) ∷ removals prev ids

unfoldable pub diff_flat : List ContextNode → States → List Delta
diff_flat flat prev = changes prev flat ++ removals prev (sort str_leb (gone flat prev))

unfoldable diff : Trees → States → List Delta
diff roots prev = diff_flat (flatten roots) prev
