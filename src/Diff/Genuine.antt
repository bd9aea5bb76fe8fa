-- ===== src/Diff/Genuine.antt =====
-- Each delta of pkg/diff is a change that happened.
use remindb.Diff.{
  Delta, NodeState, States, seen, find, changes, gone, removals, diff_flat, added, modified,
  removed,
}
use remindb.Diff.Patch.{Distinct, seen-find, contains-gone}
use remindb.Prelude.{
  ◌≡◌, refl, sym, ◌∙◌, ◌≢◌, inl, inr, true, false, none, some, List, [], ◌∷◌, arith, Option-cases,
  Bytes, str_dec, All, All-append, All-map,
}
use remindb.Parser.Ast.{ContextNode}
use remindb.Prelude.Assoc.{lookup}
use remindb.Prelude.Sorting.{contains, sort, str_leb, contains-sort}

-- The three ways in which a delta is right about the previous state and the new nodes.
pub data Genuine (prev : States) (flat : List ContextNode) (d : Delta) : Type 0 where
  adds :
      (n : ContextNode)
      → find n.id flat ≡ some n
      → lookup n.id prev ≡ none
      → d ≡ added n
      → Genuine prev flat d
  modifies :
      (n : ContextNode) (old : NodeState)
      → find n.id flat ≡ some n
      → lookup n.id prev ≡ some old
      → old.hash ≢ n.content_hash
      → d ≡ modified n old
      → Genuine prev flat d
  removes :
      (id : Bytes) (old : NodeState)
      → find id flat ≡ none
      → lookup id prev ≡ some old
      → d ≡ removed id old
      → Genuine prev flat d

find_later :
    (q : Bytes) (n x : ContextNode) (flat : List ContextNode)
    → seen n.id flat ≡ false
    → find q flat ≡ some x
    → find q (n ∷ flat) ≡ some x
unfolding find
find_later q n x flat h e = ground (arith, seen-find n.id flat)

-- With distinct ids every node is the one that its id finds.
pub find_self : (flat : List ContextNode) → Distinct flat → All (λ n. find n.id flat ≡ some n) flat
unfolding find
find_self [] d = tt
find_self (n ∷ flat) d =
    (ground arith, All-map (λ m e. find_later m.id n m flat d.0 e) flat (find_self flat d.1))

module _ (prev : States) (n : ContextNode) (ns : List ContextNode) (old : NodeState) where
  changes_kept :
      lookup n.id prev ≡ some old
      → old.hash ≡ n.content_hash
      → changes prev (n ∷ ns) ≡ changes prev ns
  unfolding changes
  changes_kept e same = ground arith

  changes-modified :
      lookup n.id prev ≡ some old
      → old.hash ≢ n.content_hash
      → changes prev (n ∷ ns) ≡ modified n old ∷ changes prev ns
  unfolding changes
  changes-modified e other = ground arith

changes_nil : (prev : States) → changes prev [] ≡ []
unfolding changes
changes_nil prev = refl

changes-added :
    (prev : States) (n : ContextNode) (ns : List ContextNode)
    → lookup n.id prev ≡ none
    → changes prev (n ∷ ns) ≡ added n ∷ changes prev ns
unfolding changes
changes-added prev n ns e = ground arith

changes-Genuine :
    (prev : States) (flat ns : List ContextNode)
    → All (λ n. find n.id flat ≡ some n) ns
    → All (Genuine prev flat) (changes prev ns)
changes-Genuine prev flat [] h = rw (changes_nil prev) tt
changes-Genuine prev flat (n ∷ ns) h = elim (Option-cases (lookup n.id prev)) [
  | inl e ↦ rw (changes-added prev n ns e) (adds n h.0 e refl, changes-Genuine prev flat ns h.1)
  | inr (old, e) ↦ elim (str_dec old.hash n.content_hash) [
    | yes same ↦ rw (changes_kept prev n ns old e same) (changes-Genuine prev flat ns h.1)
    | no other ↦
        rw (changes-modified prev n ns old e other)
          (modifies n old h.0 e other refl, changes-Genuine prev flat ns h.1)
  ]
]

-- The keys of the previous state that no node has, with their states.
abbrev Lost : States → List ContextNode → Bytes → Type 0
Lost prev flat id = (old : NodeState) × (lookup id prev ≡ some old) × (find id flat ≡ none)

Lost-gone :
    (prev : States) (flat : List ContextNode) (id : Bytes)
    → contains id (gone flat prev) ≡ true
    → Lost prev flat id
Lost-gone prev flat id h = elim (Option-cases (lookup id prev)) [
  | inl e ↦ absurd (ground (arith, contains-gone id flat prev))
  | inr (old, e) ↦ (old, e, ground (arith, contains-gone id flat prev))
]

All-contained : (ids : List Bytes) → All (λ id. contains id ids ≡ true) ids
unfolding contains
All-contained [] = tt
All-contained (id ∷ ids) =
    (ground arith, All-map (λ k e. contains_later k id ids e) ids (All-contained ids))
  where
    contains_later :
        (k id : Bytes) (ids : List Bytes) → contains k ids ≡ true → contains k (id ∷ ids) ≡ true
    contains_later k id ids e = ground arith

removals-Genuine :
    (prev : States) (flat : List ContextNode) (ids : List Bytes)
    → All (Lost prev flat) ids
    → All (Genuine prev flat) (removals prev ids)
unfolding removals
removals-Genuine prev flat [] h = tt
removals-Genuine prev flat (id ∷ ids) ((old, e, f), rest) =
    (removes id old f e (ground arith), removals-Genuine prev flat ids rest)

-- Every delta of `DiffFlat` is genuine: an addition is a node whose id the previous state lacks, a
-- modification a node whose content hash differs from the one at its id, with the old hash and
-- content, and a removal an id of the previous state that no node has. The nodes have distinct ids.
pub diff_flat-Genuine :
    (flat : List ContextNode) (prev : States)
    → Distinct flat
    → All (Genuine prev flat) (diff_flat flat prev)
unfolding diff_flat
diff_flat-Genuine flat prev d =
    let ids = sort str_leb (gone flat prev) in
    All-append (Genuine prev flat) (changes prev flat) (removals prev ids)
      (changes-Genuine prev flat flat (find_self flat d))
      (removals-Genuine prev flat ids (
        All-map
          (λ id e. Lost-gone prev flat id (sym (contains-sort str_leb id (gone flat prev)) ∙ e)) ids
          (All-contained ids)))
