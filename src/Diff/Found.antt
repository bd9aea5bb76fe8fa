-- ===== src/Diff/Found.antt =====
-- Which delta of pkg/diff is about an id.
use remindb.Prelude.{
  ◌≡◌, refl, false, Option, none, some, List, [], ◌∷◌, ◌++◌, arith, if◌then◌else◌, Bytes, ◌=s◌,
  str_dec,
}
use remindb.Parser.Ast.{ContextNode}
use remindb.Prelude.Assoc.{lookup}
use remindb.Prelude.Sorting.{contains, sort, str_leb, contains-sort}
use remindb.Diff.{
  States, NodeState, Delta, seen, find, added, modified, removed, changes, gone, removals,
  diff_flat, state_at,
}
use remindb.Diff.Patch.{Distinct, contains-gone, seen-find}
use remindb.Emitter.Closed.{find_delta}

-- The delta about a node of the tree.
abbrev node_delta : ContextNode → Option NodeState → Option Delta
node_delta n none = some (added n)
node_delta n (some old) = if old.hash =s n.content_hash then none else some (modified n old)

find_delta-append :
    (q : Bytes) (xs ys : List Delta)
    → find_delta q (xs ++ ys)
      ≡ (elim (find_delta q xs) [ none ↦ find_delta q ys | some d ↦ some d ])
unfolding find_delta
find_delta-append q [] ys = refl
find_delta-append q (x ∷ xs) ys = ground (arith, find_delta-append q xs ys)

find_delta-unseen :
    (q : Bytes) (prev : States) (flat : List ContextNode)
    → seen q flat ≡ false
    → find_delta q (changes prev flat) ≡ none
unfolding find_delta changes seen
find_delta-unseen q prev [] h = refl
find_delta-unseen q prev (n ∷ flat) h = ground (arith, find_delta-unseen q prev flat)

find_delta-changes :
    (q : Bytes) (prev : States) (flat : List ContextNode) (n : ContextNode)
    → Distinct flat
    → find q flat ≡ some n
    → find_delta q (changes prev flat) ≡ node_delta n (lookup q prev)
unfolding find_delta changes find
find_delta-changes q prev [] n d h = ground (arith, h)
find_delta-changes q prev (x ∷ flat) n d h = elim (str_dec q x.id) [
  | yes e ↦ ground (arith, e, h, find_delta-unseen x.id prev flat d.0)
  | no e ↦ ground (arith, e, h, find_delta-changes q prev flat n d.1)
]

find_delta-removals :
    (q : Bytes) (prev : States) (ids : List Bytes)
    → find_delta q (removals prev ids)
      ≡ (if contains q ids then some (removed q (state_at prev q)) else none)
unfolding find_delta removals contains
find_delta-removals q prev [] = refl
find_delta-removals q prev (id ∷ ids) = ground (arith, find_delta-removals q prev ids)

-- The delta about a node of the tree is what its own state asks for.
pub find_delta-found :
    (q : Bytes) (prev : States) (flat : List ContextNode) (n : ContextNode)
    → Distinct flat
    → find q flat ≡ some n
    → find_delta q (diff_flat flat prev) ≡ node_delta n (lookup q prev)
unfolding diff_flat
find_delta-found q prev flat n d h = ground (
  arith,
  find_delta-append q (changes prev flat) (removals prev (sort str_leb (gone flat prev))),
  find_delta-removals q prev (sort str_leb (gone flat prev)),
  contains-sort str_leb q (gone flat prev),
  contains-gone q flat prev,
  find_delta-changes q prev flat n d h,
  h,
)

-- An id that no node has is removed where the previous state has it.
pub find_delta-lost :
    (q : Bytes) (prev : States) (flat : List ContextNode) (old : NodeState)
    → find q flat ≡ none
    → lookup q prev ≡ some old
    → find_delta q (diff_flat flat prev) ≡ some (removed q (state_at prev q))
unfolding diff_flat
find_delta-lost q prev flat old h e = ground (
  arith,
  find_delta-append q (changes prev flat) (removals prev (sort str_leb (gone flat prev))),
  find_delta-removals q prev (sort str_leb (gone flat prev)),
  contains-sort str_leb q (gone flat prev),
  contains-gone q flat prev,
  find_delta-unseen q prev flat,
  seen-find q flat,
  h,
  e,
)

pub find_delta-absent :
    (q : Bytes) (prev : States) (flat : List ContextNode)
    → find q flat ≡ none
    → lookup q prev ≡ none
    → find_delta q (diff_flat flat prev) ≡ none
unfolding diff_flat
find_delta-absent q prev flat h e = ground (
  arith,
  find_delta-append q (changes prev flat) (removals prev (sort str_leb (gone flat prev))),
  find_delta-removals q prev (sort str_leb (gone flat prev)),
  contains-sort str_leb q (gone flat prev),
  contains-gone q flat prev,
  find_delta-unseen q prev flat,
  seen-find q flat,
  h,
  e,
)
