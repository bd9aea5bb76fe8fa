-- ===== src/Diff/Patch.antt =====
-- The deltas of pkg/diff read as a patch on the previous state.
use remindb.Prelude.{
  ◌≡◌, refl, false, List, [], ◌∷◌, ◌++◌, Option, none, some, Bytes, ◌=s◌, arith, if◌then◌else◌,
  Bool, true, Option-cases, inl, inr,
}
use remindb.Prelude.Assoc.{lookup, insert, erase, lookup-insert, lookup-erase}
use remindb.Parser.Ast.{ContextNode}
use remindb.Diff.{
  op_rem, Delta, NodeState, States, seen, find, state_of, changes, removals, snapshot_flat,
  diff_flat, gone,
}
use remindb.Prelude.Sorting.{contains, sort, str_leb, contains-sort}

-- What a reader of one delta does to a copy of the previous state.
abbrev patch_one : Delta → States → States
patch_one d s = elim d.op [
  | op_rem ↦ erase d.node_id s
  | _ ↦ insert d.node_id (record { hash = d.new_hash; content = d.new_content }) s
]

unfoldable pub patch : List Delta → States → States
patch [] s = s
patch (d ∷ ds) s = patch ds (patch_one d s)

-- No two nodes share an id.
abbrev pub Distinct : List ContextNode → Type 0
Distinct [] = Unit
Distinct (n ∷ flat) = (seen n.id flat ≡ false) × Distinct flat

patch-append : (xs ys : List Delta) (s : States) → patch (xs ++ ys) s ≡ patch ys (patch xs s)
unfolding patch
patch-append [] ys s = refl
patch-append (d ∷ xs) ys s = patch-append xs ys (patch_one d s)

find_unseen : (q : Bytes) (flat : List ContextNode) → seen q flat ≡ false → find q flat ≡ none
unfolding seen find
find_unseen q [] h = refl
find_unseen q (n ∷ flat) h = ground (arith, find_unseen q flat)

abbrev is_some {ℓ} : {A : Type ℓ} → Option A → Bool
is_some none = false
is_some (some a) = true

pub seen-find : (q : Bytes) (flat : List ContextNode) → seen q flat ≡ is_some (find q flat)
unfolding seen find
seen-find q [] = refl
seen-find q (n ∷ flat) = ground (arith, seen-find q flat)

-- The state that the loop over the nodes leaves at an id.
abbrev after : States → States → Bytes → Option ContextNode → Option NodeState
after prev s q none = lookup q s
after prev s q (some n) = elim (lookup q prev) [
  | none ↦ some (state_of n)
  | some old ↦ if old.hash =s n.content_hash then lookup q s else some (state_of n)
]

lookup-changes :
    (prev s : States) (q : Bytes) (flat : List ContextNode)
    → Distinct flat
    → lookup q (patch (changes prev flat) s) ≡ after prev s q (find q flat)
unfolding patch changes find
lookup-changes prev s q [] d = refl
lookup-changes prev s q (n ∷ flat) d =
    let s' = insert n.id (state_of n) s in
    ground (
      arith,
      find_unseen q flat,
      lookup-insert q n.id (state_of n) s,
      lookup-changes prev s q flat d.1,
      lookup-changes prev s' q flat d.1,
    )

lookup-removals :
    (prev s : States) (q : Bytes) (ids : List Bytes)
    → lookup q (patch (removals prev ids) s) ≡ (if contains q ids then none else lookup q s)
unfolding patch removals contains
lookup-removals prev s q [] = refl
lookup-removals prev s q (id ∷ ids) =
    ground (arith, lookup-erase q id s, lookup-removals prev (erase id s) q ids)

-- The removed ids are those of the previous state that no node has.
abbrev dropped : Option NodeState → Option ContextNode → Bool
dropped (some s) none = true
dropped _ _ = false

pub contains-gone :
    (q : Bytes) (flat : List ContextNode) (prev : States)
    → contains q (gone flat prev) ≡ dropped (lookup q prev) (find q flat)
unfolding contains gone lookup
contains-gone q flat [] = ground arith
contains-gone q flat ((id, s) ∷ prev) =
    ground (arith, seen-find q flat, seen-find id flat, contains-gone q flat prev)

pub lookup-snapshot_flat :
    (q : Bytes) (flat : List ContextNode) (m : States)
    → Distinct flat
    → lookup q (snapshot_flat flat m)
      ≡ elim (find q flat) [ none ↦ lookup q m | some n ↦ some (state_of n) ]
unfolding snapshot_flat find
lookup-snapshot_flat q [] m d = refl
lookup-snapshot_flat q (n ∷ flat) m d = ground (
  arith,
  find_unseen q flat,
  lookup-insert q n.id (state_of n) m,
  lookup-snapshot_flat q flat (insert n.id (state_of n) m) d.1,
)

-- Equal hashes stand for equal contents, between the previous state and the new nodes.
abbrev pub NoCollision : States → List ContextNode → Type 0
NoCollision prev flat =
    (q : Bytes) (old : NodeState) (n : ContextNode)
    → lookup q prev ≡ some old
    → find q flat ≡ some n
    → old.hash ≡ n.content_hash
    → old.content ≡ n.content

-- Where an id is old and new, the state left by the loop is the new one.
after-new :
    (prev : States) (q : Bytes) (flat : List ContextNode)
    → NoCollision prev flat
    → (n : ContextNode) → find q flat ≡ some n
    → after prev prev q (some n) ≡ some (state_of n)
after-new prev q flat c n e = elim (Option-cases (lookup q prev)) [
  | inl new ↦ ground arith
  | inr (old, h) ↦ ground (arith, c q old n h e)
]

-- Patching the previous state by the deltas of `DiffFlat` gives, at every id, the state that the
-- compiled nodes have: those that were added or changed with their new hash and content, those
-- that are unchanged as they were, and none for an id that no node has. The nodes have distinct
-- ids, and content hashes do not collide between an old and a new content of one id.
pub patch-diff_flat :
    (flat : List ContextNode) (prev : States)
    → Distinct flat
    → NoCollision prev flat
    → (q : Bytes) → lookup q (patch (diff_flat flat prev) prev) ≡ lookup q (snapshot_flat flat [])
unfolding diff_flat lookup
patch-diff_flat flat prev d c q =
    rw (patch-append (changes prev flat)) (elim (Option-cases (find q flat)) [
      | inl e ↦ ground (
        arith,
        e,
        lookup-removals prev (patch (changes prev flat) prev) q (sort str_leb (gone flat prev)),
        contains-sort str_leb q (gone flat prev),
        contains-gone q flat prev,
        lookup-changes prev prev q flat d,
        lookup-snapshot_flat q flat [] d,
      )
      | inr (n, e) ↦ ground (
        arith,
        e,
        after-new prev q flat c n e,
        lookup-removals prev (patch (changes prev flat) prev) q (sort str_leb (gone flat prev)),
        contains-sort str_leb q (gone flat prev),
        contains-gone q flat prev,
        lookup-changes prev prev q flat d,
        lookup-snapshot_flat q flat [] d,
      )
    ])
