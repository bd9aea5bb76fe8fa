-- ===== src/Query/Consolidate.antt =====
-- pkg/query/diff.go: the diffs of a range as one record for each node.
use remindb.Prelude.{
  ℕ, Bool, true, false, not, ◌&&◌, Option, none, some, List, [], ◌∷◌, ◌++◌, ltb, leb, if◌then◌else◌,
  Bytes, ◌=s◌,
}
use remindb.Prelude.Assoc.{lookup, insert}
use remindb.Diff.{Op, op_add, op_mod, op_rem}
use remindb.Store.Snapshots.{DiffRecord, Database}
use remindb.Query.Delta.{by_snapshot}
use remindb.Prelude.Sorting.{sort}

pub record Bracket : Type 0 where
  pub first : DiffRecord
  pub last : DiffRecord

-- The loop over `raw`: the brackets by node, and the nodes in the order of their first diff.
unfoldable pub brackets :
    List DiffRecord → List (Bytes × Bracket) → List Bytes → List (Bytes × Bracket) × List Bytes
brackets [] by_node order = (by_node, order)
brackets (d ∷ raw) by_node order = elim (lookup d.node_id by_node) [
  | none ↦
      brackets raw (insert d.node_id (record { first = d; last = d }) by_node)
        (order ++ d.node_id ∷ [])
  | some b ↦ brackets raw (insert d.node_id (record b { last = d }) by_node) order
]

abbrev pub is_add : Op → Bool
is_add o = elim o [ op_add ↦ true | _ ↦ false ]

abbrev pub is_rem : Op → Bool
is_rem o = elim o [ op_rem ↦ true | _ ↦ false ]

-- A record without metadata: what the literals of `consolidateBracket` do not set is zero.
abbrev net_record : Op → DiffRecord → DiffRecord → DiffRecord
net_record o first last = record {
  snapshot_id = last.snapshot_id;
  node_id = first.node_id;
  op = o;
  old_hash = if is_add o then [] else first.old_hash;
  new_hash = if is_rem o then [] else last.new_hash;
  old_content = if is_add o then [] else first.old_content;
  new_content = if is_rem o then [] else last.new_content;
  old_metadata = none;
}

unfoldable pub consolidate_bracket : DiffRecord → DiffRecord → Option DiffRecord
consolidate_bracket first last =
    let existed_at_from = not (is_add first.op) in
    let exists_at_to = not (is_rem last.op) in
    if not existed_at_from && not exists_at_to
    then none
    else if not existed_at_from && exists_at_to
    then some (net_record op_add first last)
    else if existed_at_from && not exists_at_to
    then some (net_record op_rem first last)
    else if first.old_content =s last.new_content
    then none
    else some (net_record op_mod first last)

-- The second loop; every id of the order has a bracket.
unfoldable pub consolidated : List Bytes → List (Bytes × Bracket) → List DiffRecord
unfolding consolidate_bracket
consolidated [] by_node = []
consolidated (id ∷ order) by_node =
    let rest = consolidated order by_node in
    elim (lookup id by_node) [
      | none ↦ rest
      | some b ↦ elim (consolidate_bracket b.first b.last) [ none ↦ rest | some rec ↦ rec ∷ rest ]
    ]

unfoldable pub consolidate_diffs : List DiffRecord → List DiffRecord
unfolding brackets consolidated
consolidate_diffs raw = let (by_node, order) = brackets raw [] [] in consolidated order by_node

-- `GetDiffsBetween`, and `Engine.Diff`.
unfoldable between : ℕ → ℕ → List DiffRecord → List DiffRecord
between a b [] = []
between a b (d ∷ l) =
    let rest = between a b l in
    if ltb a d.snapshot_id && leb d.snapshot_id b then d ∷ rest else rest

unfoldable engine_diff : Database → ℕ → ℕ → List DiffRecord
unfolding consolidate_diffs between
engine_diff db a b = consolidate_diffs (sort by_snapshot (between a b db.diffs))
