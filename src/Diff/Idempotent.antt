-- ===== src/Diff/Idempotent.antt =====
-- pkg/diff finds nothing to do where nothing changed.
use remindb.Diff.{States, find, state_of, snapshot_flat, changes, gone, removals, diff_flat}
use remindb.Diff.Patch.{Distinct, contains-gone, lookup-snapshot_flat}
use remindb.Prelude.{
  ◌≡◌, refl, false, some, List, [], ◌∷◌, arith, Option-cases, Bytes, All, All-map,
}
use remindb.Parser.Ast.{ContextNode}
use remindb.Prelude.Assoc.{lookup}
use remindb.Prelude.Sorting.{contains, sort}
use remindb.Diff.Genuine.{find_self}

-- Two lookups in a row: every node of `flat` has the state that its snapshot holds.
snapshot_self :
    (flat : List ContextNode)
    → Distinct flat
    → All (λ n. lookup n.id (snapshot_flat flat []) ≡ some (state_of n)) flat
snapshot_self flat d =
    All-map (λ n e. ground (arith, lookup-snapshot_flat n.id flat [] d)) flat (find_self flat d)

changes_none :
    (prev : States) (ns : List ContextNode)
    → All (λ n. lookup n.id prev ≡ some (state_of n)) ns
    → changes prev ns ≡ []
unfolding changes
changes_none prev [] h = refl
changes_none prev (n ∷ ns) h = ground (arith, changes_none prev ns h.1)

empty_of_contains : (l : List Bytes) → ((q : Bytes) → contains q l ≡ false) → l ≡ []
unfolding contains
empty_of_contains [] h = refl
empty_of_contains (k ∷ l) h = absurd (ground (arith, h k))

gone_none : (flat : List ContextNode) → Distinct flat → gone flat (snapshot_flat flat []) ≡ []
unfolding lookup
gone_none flat d = empty_of_contains _ (λ q. ground (
  arith,
  contains-gone q flat (snapshot_flat flat []),
  lookup-snapshot_flat q flat [] d,
  Option-cases (find q flat),
))

-- Compiling the same nodes again finds nothing to do: against the snapshot of a list of nodes with
-- distinct ids, `DiffFlat` of that list has no delta.
pub diff_flat-snapshot :
    (flat : List ContextNode) → Distinct flat → diff_flat flat (snapshot_flat flat []) ≡ []
unfolding diff_flat removals sort
diff_flat-snapshot flat d =
    rw (changes_none (snapshot_flat flat []) flat (snapshot_self flat d), gone_none flat d)
