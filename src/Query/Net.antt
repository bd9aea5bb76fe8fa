-- ===== src/Query/Net.antt =====
-- The records of pkg/query/diff.go are the net changes of a range.
use remindb.Prelude.{
  ◌≡◌, refl, sym, ap, ◌∙◌, subst, ◌≢◌, inl, inr, Bool, true, false, Option, none, some, List, [],
  ◌∷◌, arith, if◌then◌else◌, Bool-cases, Option-cases, Bytes, str_dec,
}
use remindb.Prelude.Assoc.{lookup}
use remindb.Prelude.Sorting.{contains, DistinctStrings}
use remindb.Store.Snapshots.{DiffRecord}
use remindb.Query.Consolidate.{
  Bracket, brackets, is_add, is_rem, consolidate_bracket, consolidated, consolidate_diffs,
}
use remindb.Query.Brackets.{
  of_node, extend, bracket_of, Lists, FirstOf, bracket_of_end, lookup-brackets, bracket_of_miss,
  brackets-Lists, bracket_of_hit, bracket_of-FirstOf,
}

-- The content of a node on either side of a diff; `none` where there is no node.
abbrev before : DiffRecord → Option Bytes
before d = if is_add d.op then none else some d.old_content

abbrev after : DiffRecord → Option Bytes
after d = if is_rem d.op then none else some d.new_content

-- The diffs about `q` lead from one content to the next.
pub data Chain (q : Bytes) : Option Bytes → List DiffRecord → Option Bytes → Type 0 where
  finished : {s : Option Bytes} → Chain q s [] s
  other :
      {s s' : Option Bytes} (d : DiffRecord) (ds : List DiffRecord)
      → q ≢ d.node_id
      → Chain q s ds s'
      → Chain q s (d ∷ ds) s'
  here :
      {s' : Option Bytes} (d : DiffRecord) (ds : List DiffRecord)
      → q ≡ d.node_id
      → Chain q (after d) ds s'
      → Chain q (before d) (d ∷ ds) s'

-- The records that one bracket gives.
abbrev net_of : Option Bracket → List DiffRecord
net_of none = []
net_of (some b) = elim (consolidate_bracket b.first b.last) [ none ↦ [] | some d ↦ d ∷ [] ]

consolidate_bracket-node :
    (a b d : DiffRecord) → consolidate_bracket a b ≡ some d → d.node_id ≡ a.node_id
unfolding consolidate_bracket
consolidate_bracket-node a b d e = ground (arith, e)

of_node-consolidated :
    (q : Bytes) (order : List Bytes) (m : List (Bytes × Bracket))
    → ((k : Bytes) → FirstOf k (lookup k m))
    → DistinctStrings order
    → of_node q (consolidated order m) ≡ (if contains q order then net_of (lookup q m) else [])
unfolding of_node consolidated contains
of_node-consolidated q [] m f d = refl
of_node-consolidated q (k ∷ order) m f d =
    let rest = of_node-consolidated q order m f d.1 in
    elim (Option-cases (lookup k m)) [
      | inl missing ↦ elim (str_dec q k) [
        | yes e ↦ ground (arith, rest, missing, e, d.0)
        | no e ↦ ground (arith, rest, missing, e)
      ]
      | inr (b, found) ↦
          let key : b.first.node_id ≡ k = subst (FirstOf k) found (f k) in
          elim (Option-cases (consolidate_bracket b.first b.last)) [
            | inl dropped ↦ elim (str_dec q k) [
              | yes e ↦ ground (arith, rest, found, dropped, e, d.0)
              | no e ↦ ground (arith, rest, found, dropped, e)
            ]
            | inr (rec, made) ↦
                let about = consolidate_bracket-node b.first b.last rec made ∙ key in
                elim (str_dec q k) [
                  | yes e ↦ ground (arith, rest, found, made, about, e, d.0)
                  | no e ↦ ground (arith, rest, found, made, about, e)
                ]
          ]
    ]

-- What a bracket says of a chain's ends.
abbrev Open : Option Bytes → Option Bytes → Option Bracket → Type 0
Open s₀ s none = s₀ ≡ s
Open s₀ s (some b) = (before b.first ≡ s₀) × (after b.last ≡ s)

Open-extend :
    (s₀ : Option Bytes) (o : Option Bracket) (d : DiffRecord)
    → Open s₀ (before d) o
    → Open s₀ (after d) (some (extend o d))
Open-extend s₀ none d h = (sym h, refl)
Open-extend s₀ (some b) d h = (h.0, refl)

Chain-Open :
    (q : Bytes) (s₀ : Option Bytes) {s s' : Option Bytes} {raw : List DiffRecord}
    (o : Option Bracket)
    → Open s₀ s o
    → Chain q s raw s'
    → Open s₀ s' (bracket_of q o raw)
Chain-Open q s₀ {s = s} o h finished = subst (Open s₀ s) (sym (bracket_of_end q o)) h
Chain-Open q s₀ {s' = s'} o h (other d ds e c) =
    subst (Open s₀ s') (sym (bracket_of_miss q o d ds e)) (Chain-Open q s₀ o h c)
Chain-Open q s₀ {s' = s'} o h (here d ds e c) =
    subst (Open s₀ s') (sym (bracket_of_hit q o d ds e))
      (Chain-Open q s₀ (some (extend o d)) (Open-extend s₀ o d h) c)

-- What the records about one node say: nothing where its content is the same on both sides, and one
-- change from the one to the other where it is not.
pub data Net (s s' : Option Bytes) : List DiffRecord → Type 0 where
  unchanged : s ≡ s' → Net s s' []
  changed : (d : DiffRecord) → s ≢ s' → before d ≡ s → after d ≡ s' → Net s s' (d ∷ [])

module _ (a b : DiffRecord) where
  dropped_same : consolidate_bracket a b ≡ none → before a ≡ after b
  unfolding consolidate_bracket
  dropped_same e = ground (arith, e, Bool-cases (is_add a.op), Bool-cases (is_rem b.op))

  made_before : (d : DiffRecord) → consolidate_bracket a b ≡ some d → before d ≡ before a
  unfolding consolidate_bracket
  made_before d e = ground (arith, e, Bool-cases (is_add a.op), Bool-cases (is_rem b.op))

  made_after : (d : DiffRecord) → consolidate_bracket a b ≡ some d → after d ≡ after b
  unfolding consolidate_bracket
  made_after d e = ground (arith, e, Bool-cases (is_add a.op), Bool-cases (is_rem b.op))

  made_differs : (d : DiffRecord) → consolidate_bracket a b ≡ some d → before a ≢ after b
  unfolding consolidate_bracket
  made_differs d e same =
      ground (arith, e, same, Bool-cases (is_add a.op), Bool-cases (is_rem b.op))

net_of_dropped : (b : Bracket) → consolidate_bracket b.first b.last ≡ none → net_of (some b) ≡ []
net_of_dropped b e = ground (arith, e)

net_of_made :
    (b : Bracket) (d : DiffRecord)
    → consolidate_bracket b.first b.last ≡ some d
    → net_of (some b) ≡ d ∷ []
net_of_made b d e = ground (arith, e)

net_of-Net : (s s' : Option Bytes) (o : Option Bracket) → Open s s' o → Net s s' (net_of o)
net_of-Net s s' none h = unchanged h
net_of-Net s s' (some b) h = elim (Option-cases (consolidate_bracket b.first b.last)) [
  | inl dropped ↦
      subst (Net s s') (sym (net_of_dropped b dropped))
        (unchanged (sym h.0 ∙ dropped_same b.first b.last dropped ∙ h.1))
  | inr (d, made) ↦ subst (Net s s') (sym (net_of_made b d made)) (
      changed d (λ e. made_differs b.first b.last d made (h.0 ∙ e ∙ sym h.1))
        (made_before b.first b.last d made ∙ h.0) (made_after b.first b.last d made ∙ h.1))
]

empty-Lists : Lists [] []
unfolding contains lookup
empty-Lists = ((λ q. refl), tt)

listed_or_none :
    (o : Option Bracket) (b : Bool)
    → b ≡ elim o [ none ↦ false | some x ↦ true ]
    → (if b then net_of o else []) ≡ net_of o
listed_or_none none b e = ground (arith, e)
listed_or_none (some x) b e = ap (λ c. if c then net_of (some x) else []) e

consolidate_diffs_parts :
    (raw : List DiffRecord)
    → consolidate_diffs raw ≡ consolidated (brackets raw [] []).1 (brackets raw [] []).0
unfolding consolidate_diffs
consolidate_diffs_parts raw = refl

-- `consolidateDiffs` gives the net change of every node: where the diffs of a range about a node lead
-- from one content to another, one step after the other, the result has no record about it if both
-- are the same, and else exactly one, from the first content to the last. A node that is not there
-- counts as a content of its own.
pub consolidate_diffs-Net :
    (q : Bytes) (s s' : Option Bytes) (raw : List DiffRecord)
    → Chain q s raw s'
    → Net s s' (of_node q (consolidate_diffs raw))
unfolding lookup
consolidate_diffs-Net q s s' raw c =
    let m = (brackets raw [] []).0 in
    let order = (brackets raw [] []).1 in
    let at : (k : Bytes) → lookup k m ≡ bracket_of k none raw = λ k. lookup-brackets k raw [] [] in
    let lists = brackets-Lists raw [] [] empty-Lists in
    let firsts : (k : Bytes) → FirstOf k (lookup k m) =
      λ k. subst (FirstOf k) (sym (at k)) (bracket_of-FirstOf k none raw tt) in
    let all = of_node-consolidated q order m firsts lists.1 in
    let listed : (if contains q order then net_of (lookup q m) else []) ≡ net_of (lookup q m) =
      listed_or_none (lookup q m) (contains q order) (lists.0 q) in
    subst (Net s s')
      (ap net_of (sym (at q))
        ∙ sym listed
        ∙ sym all
        ∙ ap (of_node q) (sym (consolidate_diffs_parts raw)))
      (net_of-Net s s' (bracket_of q none raw) (Chain-Open q s none refl c))
