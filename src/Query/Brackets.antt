-- ===== src/Query/Brackets.antt =====
-- The brackets of pkg/query/diff.go, by node.
use remindb.Prelude.{
  ◌≡◌, refl, sym, ◌∙◌, subst, ◌≢◌, inl, inr, true, false, Option, none, some, List, [], ◌∷◌, ◌++◌,
  arith, if◌then◌else◌, Option-cases, Bytes, ◌=s◌, str_dec,
}
use remindb.Prelude.Assoc.{lookup, insert, lookup-insert}
use remindb.Prelude.Sorting.{contains, DistinctStrings}
use remindb.Store.Snapshots.{DiffRecord}
use remindb.Query.Consolidate.{Bracket, brackets}

-- The records about `q`.
unfoldable pub of_node : Bytes → List DiffRecord → List DiffRecord
of_node q [] = []
of_node q (d ∷ ds) = let rest = of_node q ds in if q =s d.node_id then d ∷ rest else rest

-- The bracket of `q`, extended by the diffs about it.
abbrev pub extend : Option Bracket → DiffRecord → Bracket
extend none d = record { first = d; last = d }
extend (some b) d = record b { last = d }

unfoldable pub bracket_of : Bytes → Option Bracket → List DiffRecord → Option Bracket
bracket_of q o [] = o
bracket_of q o (d ∷ ds) =
    let found = bracket_of q (some (extend o d)) ds in
    let rest = bracket_of q o ds in if q =s d.node_id then found else rest

pub lookup-brackets :
    (q : Bytes) (raw : List DiffRecord) (m : List (Bytes × Bracket)) (order : List Bytes)
    → lookup q (brackets raw m order).0 ≡ bracket_of q (lookup q m) raw
unfolding brackets bracket_of
lookup-brackets q [] m order = refl
lookup-brackets q (d ∷ raw) m order = elim (Option-cases (lookup d.node_id m)) [
  | inl new ↦
      let one : Bracket = record { first = d; last = d } in
      ground (
        arith,
        lookup-brackets q raw (insert d.node_id one m) (order ++ d.node_id ∷ []),
        lookup-insert q d.node_id one m,
      )
  | inr (b, old) ↦
      let longer : Bracket = record b { last = d } in
      ground (
        arith,
        lookup-brackets q raw (insert d.node_id longer m) order,
        lookup-insert q d.node_id longer m,
      )
]

-- The order lists the keys of the map, each once.
abbrev pub Lists : List (Bytes × Bracket) → List Bytes → Type 0
Lists m order =
    ((q : Bytes) → contains q order ≡ elim (lookup q m) [ none ↦ false | some b ↦ true ])
    × DistinctStrings order

contains-append :
    (q k : Bytes) (l : List Bytes)
    → contains q (l ++ k ∷ []) ≡ (if q =s k then true else contains q l)
unfolding contains
contains-append q k [] = refl
contains-append q k (x ∷ l) = ground (arith, contains-append q k l)

append-DistinctStrings :
    (k : Bytes) (l : List Bytes)
    → contains k l ≡ false
    → DistinctStrings l
    → DistinctStrings (l ++ k ∷ [])
unfolding contains
append-DistinctStrings k [] h d = (refl, tt)
append-DistinctStrings k (x ∷ l) h d =
    ground (arith, append-DistinctStrings k l, contains-append x k l)

module _ (d : DiffRecord) (raw : List DiffRecord) (m : List (Bytes × Bracket))
    (order : List Bytes) where
  brackets_new :
      lookup d.node_id m ≡ none
      → brackets (d ∷ raw) m order
        ≡ brackets raw
            (insert d.node_id (record { first = d; last = d }) m)
            (order ++ d.node_id ∷ [])
  unfolding brackets
  brackets_new e = ground (arith, e)

  brackets_old :
      (b : Bracket)
      → lookup d.node_id m ≡ some b
      → brackets (d ∷ raw) m order ≡ brackets raw (insert d.node_id (record b { last = d }) m) order
  unfolding brackets
  brackets_old b e = ground (arith, e)

Lists-new :
    (k : Bytes) (b : Bracket) (m : List (Bytes × Bracket)) (order : List Bytes)
    → lookup k m ≡ none
    → Lists m order
    → Lists (insert k b m) (order ++ k ∷ [])
Lists-new k b m order e h = (
  λ q. ground (arith, contains-append q k order, lookup-insert q k b m, h.0 q),
  append-DistinctStrings k order (h.0 k ∙ ground (arith, e)) h.1,
)

Lists-old :
    (k : Bytes) (b c : Bracket) (m : List (Bytes × Bracket)) (order : List Bytes)
    → lookup k m ≡ some c
    → Lists m order
    → Lists (insert k b m) order
Lists-old k b c m order e h = (
  λ q. elim (str_dec q k) [
    | yes same ↦ ground (arith, lookup-insert q k b m, h.0 k, e, same)
    | no differs ↦ ground (arith, lookup-insert q k b m, h.0 q)
  ],
  h.1,
)

pub brackets-Lists :
    (raw : List DiffRecord) (m : List (Bytes × Bracket)) (order : List Bytes)
    → Lists m order
    → Lists (brackets raw m order).0 (brackets raw m order).1
brackets-Lists [] m order h = unfold brackets in h
brackets-Lists (d ∷ raw) m order h = elim (Option-cases (lookup d.node_id m)) [
  | inl new ↦
      let b : Bracket = record { first = d; last = d } in
      subst (λ p. Lists p.0 p.1) (sym (brackets_new d raw m order new))
        (brackets-Lists raw (insert d.node_id b m) (order ++ d.node_id ∷ [])
          (Lists-new d.node_id b m order new h))
  | inr (b, old) ↦
      let longer : Bracket = record b { last = d } in
      subst (λ p. Lists p.0 p.1) (sym (brackets_old d raw m order b old))
        (brackets-Lists raw (insert d.node_id longer m) order
          (Lists-old d.node_id longer b m order old h))
]

-- The first diff of a bracket is about its key.
abbrev pub FirstOf : Bytes → Option Bracket → Type 0
FirstOf q none = Unit
FirstOf q (some b) = b.first.node_id ≡ q

module _ (q : Bytes) (o : Option Bracket) (d : DiffRecord) (raw : List DiffRecord) where
  pub bracket_of_hit :
      q ≡ d.node_id → bracket_of q o (d ∷ raw) ≡ bracket_of q (some (extend o d)) raw
  unfolding bracket_of
  bracket_of_hit e = ground (arith, e)

  pub bracket_of_miss : q ≢ d.node_id → bracket_of q o (d ∷ raw) ≡ bracket_of q o raw
  unfolding bracket_of
  bracket_of_miss e = ground (arith, e)

pub bracket_of_end : (q : Bytes) (o : Option Bracket) → bracket_of q o [] ≡ o
unfolding bracket_of
bracket_of_end q o = refl

FirstOf-extend :
    (q : Bytes) (o : Option Bracket) (d : DiffRecord)
    → FirstOf q o
    → q ≡ d.node_id
    → (extend o d).first.node_id ≡ q
FirstOf-extend q none d h e = sym e
FirstOf-extend q (some b) d h e = h

pub bracket_of-FirstOf :
    (q : Bytes) (o : Option Bracket) (raw : List DiffRecord)
    → FirstOf q o
    → FirstOf q (bracket_of q o raw)
bracket_of-FirstOf q o [] h = subst (FirstOf q) (sym (bracket_of_end q o)) h
bracket_of-FirstOf q o (d ∷ raw) h = elim (str_dec q d.node_id) [
  | yes e ↦
      subst (FirstOf q) (sym (bracket_of_hit q o d raw e))
        (bracket_of-FirstOf q (some (extend o d)) raw (FirstOf-extend q o d h e))
  | no e ↦ subst (FirstOf q) (sym (bracket_of_miss q o d raw e)) (bracket_of-FirstOf q o raw h)
]
