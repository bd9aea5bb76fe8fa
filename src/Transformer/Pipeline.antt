-- ===== src/Transformer/Pipeline.antt =====
-- pkg/transformer/transformer.go, tokenest.go and anchor.go: `Transform`. The goroutines of the
-- enrichment touch one node each, so that their order does not matter. `sort_hits` is the sort of
-- `Scrub`.
use remindb.Prelude.{ℕ, ◌+◌, ◌<◌, ◌≡◌, refl, false, Option, none, some, List, [], Bytes, All, ◌^◌}
use remindb.Parser.Ast.{ContextNode, Trees, node, nil, cons, flatten}
use remindb.Contentid.{content_hash, estimate}
use remindb.Redaction.{KindPattern, Hit, scrub}
use remindb.Diff.Patch.{Distinct}
use remindb.Transformer.{compress}
use remindb.Transformer.Label.{set_label}
use remindb.Transformer.Prefix.{prefix_of, strip_prefix}
use remindb.Prelude.Assoc.{insert}
use remindb.Transformer.Identity.{sibling_index, set_identity, wire_nodes, wire_identity}
use remindb.Transformer.Identity.Positions.{NoNul}
use remindb.Transformer.Identity.Apart.{any_collides}
use remindb.Transformer.Identity.Distinct.{hashed_payloads, wire_identity-Distinct}

-- A loop over the flat list that writes into each node.
unfoldable pub each_node : (ContextNode → ContextNode) → Trees → Trees
each_node f nil = nil
each_node f (cons (node n kids) ts) = cons (node (f n) (each_node f kids)) (each_node f ts)

unfoldable compress_node : ContextNode → ContextNode
unfolding compress
compress_node n = record n { content = compress n.content }

-- The loop of `Scrub`; `none` is a panic of a slice.
unfoldable scrub_nodes : (List Hit → List Hit) → List KindPattern → Trees → Option Trees
unfolding scrub
scrub_nodes sort_hits red nil = some nil
scrub_nodes sort_hits red (cons (node n kids) ts) = elim (scrub sort_hits red n.content) [
  | none ↦ none
  | some (content, hits) ↦ elim (scrub_nodes sort_hits red kids) [
    | none ↦ none
    | some kids' ↦ elim (scrub_nodes sort_hits red ts) [
      | none ↦ none
      | some ts' ↦ some (cons (node (record n { content = content }) kids') ts')
    ]
  ]
]

unfoldable compress_prefix : Bytes → Trees → Trees
unfolding prefix_of strip_prefix
compress_prefix compile_root roots =
    each_node (strip_prefix (prefix_of (flatten roots) compile_root)) roots

unfoldable set_content_hash : (Bytes → ℕ) → ContextNode → ContextNode
unfolding content_hash
set_content_hash hash n = record n { content_hash = content_hash hash n.content }

unfoldable set_token_count : ContextNode → ContextNode
unfolding estimate
set_token_count n = record n { token_count = estimate n.content }

unfoldable enrich : (Bytes → ℕ) → ContextNode → ContextNode
unfolding set_content_hash set_label set_token_count
enrich hash n = set_token_count (set_label (set_content_hash hash n))

module _ (hash : Bytes → ℕ) (sort_hits : List Hit → List Hit) (red : List KindPattern)
    (compile_root : Bytes) where
  -- `Transform` up to the ids.
  unfoldable pub prepare : Trees → Option Trees
  unfolding compress_node scrub_nodes compress_prefix enrich
  prepare roots = elim (scrub_nodes sort_hits red (each_node compress_node roots)) [
    | none ↦ none
    | some clean_roots ↦ some (each_node (enrich hash) (compress_prefix compile_root clean_roots))
  ]

  unfoldable pub transform : Trees → Option Trees
  transform nil = some nil
  transform (cons t ts) = elim (prepare (cons t ts)) [
    | none ↦ none
    | some roots ↦ some (wire_identity hash roots [])
  ]

-- Every node names its parent, and a root none.
abbrev pub Linked : Bytes → Trees → Type 0
Linked parent nil = Unit
Linked parent (cons (node n kids) ts) = (n.parent_id ≡ parent) × Linked n.id kids × Linked parent ts

wire_nodes-Linked :
    (hash : Bytes → ℕ) (parent : Bytes) (per_file : List (Bytes × ℕ)) (i : ℕ) (ts : Trees)
    → Linked parent (wire_nodes hash parent per_file i ts)
unfolding wire_nodes set_identity
wire_nodes-Linked hash parent per_file i nil = tt
wire_nodes-Linked hash parent per_file i (cons (node n kids) ts) =
    let at = sibling_index parent per_file i n in
    (
      refl,
      wire_nodes-Linked hash (set_identity hash parent at n).id [] 0 kids,
      wire_nodes-Linked hash parent (insert n.source_file (at + 1) per_file) (i + 1) ts,
    )

-- `Transform` sets ids that no two nodes of a compile share, and every node names the id of its
-- parent: where the redaction finds its matches in bounds, no path holds a NUL byte, hashes have 64
-- bits, and no two of the texts that are hashed for the ids collide.
pub transform-Distinct :
    (hash : Bytes → ℕ) (sort_hits : List Hit → List Hit) (red : List KindPattern)
    (compile_root : Bytes) (roots prepared : Trees)
    → prepare hash sort_hits red compile_root roots ≡ some prepared
    → ((s : Bytes) → hash s < 2 ^ 64)
    → All (λ (n : ContextNode). NoNul n.source_file) (flatten prepared)
    → any_collides hash (hashed_payloads hash prepared) (hashed_payloads hash prepared) ≡ false
    → (out : Trees) × (transform hash sort_hits red compile_root roots ≡ some out)
      × Distinct (flatten out)
      × Linked [] out
unfolding transform flatten wire_identity wire_nodes
transform-Distinct hash sort_hits red compile_root nil prepared e bound files apart =
    (nil, refl, tt, tt)
transform-Distinct hash sort_hits red compile_root (cons t ts) prepared e bound files apart = (
  wire_identity hash prepared [],
  rw (e, transform),
  wire_identity-Distinct hash prepared bound files apart,
  wire_nodes-Linked hash [] [] 0 prepared,
)
