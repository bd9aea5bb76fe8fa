-- ===== src/Store/Removal.antt =====
-- `DeleteNode` of pkg/store/node.go in its three modes, and the reads that it and the tools use.
use remindb.Prelude.{
  ℕ, not, ◌&&◌, ◌||◌, Option, none, some, List, [], ◌∷◌, ltb, if◌then◌else◌, Bytes, codes, ◌=s◌,
  length,
}
use remindb.Prelude.Assoc.{lookup}
use remindb.Prelude.Result.{Result, ok, err}
use remindb.Prelude.Sorting.{sort, str_leb}
use remindb.Store.Rows.{Node, Table, Error, node_not_found, has_children, delete_node, is_under}

pub data DeleteMode : Type 0 where
  strict cascade reparent : DeleteMode

unfoldable parse_delete_mode : Bytes → Option DeleteMode
parse_delete_mode s =
    if s =s [] || s =s codes "strict"
    then some strict
    else if s =s codes "cascade"
    then some cascade
    else if s =s codes "reparent"
    then some reparent
    else none

unfoldable pub mode_string : DeleteMode → Bytes
mode_string strict = codes "strict"
mode_string cascade = codes "cascade"
mode_string reparent = codes "reparent"

-- `qSelectChildIDs` before its ORDER BY, and `GetChildren`.
unfoldable child_ids : Bytes → Table → List Bytes
child_ids id [] = []
child_ids id ((k, n) ∷ t) =
    let rest = child_ids id t in
    if not (n.parent_id =s []) && n.parent_id =s id then k ∷ rest else rest

unfoldable pub get_children : Bytes → Table → List Node
get_children id [] = []
get_children id ((k, n) ∷ t) =
    let rest = get_children id t in
    if not (n.parent_id =s []) && n.parent_id =s id then n ∷ rest else rest

-- `qSelectDescendantIDs` before its ORDER BY: the rows below `id`, without `id`.
unfoldable descendant_ids : Bytes → Table → Table → List Bytes
unfolding is_under
descendant_ids id all [] = []
descendant_ids id all ((k, n) ∷ t) =
    let rest = descendant_ids id all t in
    if not (k =s id) && is_under (length all) all id k then k ∷ rest else rest

-- `qReparentChildren`.
unfoldable reparent_children : ℕ → Bytes → Bytes → Table → Table
reparent_children now parent id [] = []
reparent_children now parent id ((k, n) ∷ t) =
    let rest = reparent_children now parent id t in
    if not (n.parent_id =s []) && n.parent_id =s id
    then (k, record n { parent_id = parent; updated_at = now }) ∷ rest
    else (k, n) ∷ rest

-- `deleteNodeTx`: the ids it reports, and the rows that are left.
unfoldable delete_node_tx : ℕ → Bytes → DeleteMode → Table → Result Error (List Bytes × Table)
unfolding child_ids descendant_ids reparent_children
delete_node_tx now id mode t = elim (lookup id t) [
  | none ↦ err (node_not_found id)
  | some n ↦
      let children = sort str_leb (child_ids id t) in
      elim mode [
        | strict ↦
            if ltb 0 (length children)
            then err (has_children id (length children))
            else ok (id ∷ [], delete_node id t)
        | cascade ↦ ok (id ∷ sort str_leb (descendant_ids id t t), delete_node id t)
        | reparent ↦ ok (id ∷ children, delete_node id (reparent_children now n.parent_id id t))
      ]
]

-- `BuildTree`: the roots, and the children of each parent, in the order of the rows.
unfoldable tree_roots : List Node → List Node
tree_roots [] = []
tree_roots (n ∷ nodes) = let rest = tree_roots nodes in if n.parent_id =s [] then n ∷ rest else rest

unfoldable tree_children : Bytes → List Node → List Node
tree_children id [] = []
tree_children id (n ∷ nodes) =
    let rest = tree_children id nodes in
    if not (n.parent_id =s []) && n.parent_id =s id then n ∷ rest else rest
