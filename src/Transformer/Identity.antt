-- ===== src/Transformer/Identity.antt =====
-- pkg/transformer/anchor.go and the walk `wireIdentity` of transformer.go: the ids of the nodes.
pub mod Distinct
pub mod Positions
pub mod Siblings
pub mod Apart
use remindb.Prelude.{
  ℕ, zero, suc, ◌+◌, ◌-◌, ◌*◌, ◌/◌, ◌%◌, ◌≤◌, ◌<◌, min, max, ◌≡◌, refl, sym, ap, ◌∙◌, subst, ◌≢◌,
  ◌↔◌, ◌⊎◌, inl, inr, Bool, true, false, not, ◌&&◌, ◌||◌, Option, none, some, List, [], ◌∷◌, ◌++◌,
  map, append_assoc, append-nil, arith, ltb, leb, ◌==◌, if◌then◌else◌, Bool-cases, Option-cases,
  Bytes, codes, ◌=s◌, str_dec, length, get_elem?, set, take, drop, replicate, All, All-append,
  All-map, length-append,
}
use remindb.Prelude.Assoc.{lookup, insert}
use remindb.Prelude.Text.{itoa}
use remindb.Parser.Ast.{ContextNode, Tree, Trees, node, nil, cons}
use remindb.Store.Rows.{get_or}
use remindb.Contentid.{identify_node}

-- The index of a node among its siblings: roots are counted per file.
abbrev pub sibling_index : Bytes → List (Bytes × ℕ) → ℕ → ContextNode → ℕ
sibling_index parent per_file i n =
    if parent =s [] then get_or (lookup n.source_file per_file) 0 else i

module _ (hash : Bytes → ℕ) where
  -- `setIdentity`.
  unfoldable pub set_identity : Bytes → ℕ → ContextNode → ContextNode
  unfolding identify_node
  set_identity parent at n = record n {
    id = identify_node hash itoa n.source_file parent at;
    parent_id = parent;
  }

  -- Both loops of `wireIdentity`.
  unfoldable pub wire_nodes : Bytes → List (Bytes × ℕ) → ℕ → Trees → Trees
  unfolding set_identity
  wire_nodes parent per_file i nil = nil
  wire_nodes parent per_file i (cons (node n kids) ts) =
      let at = sibling_index parent per_file i n in
      let wired = set_identity parent at n in
      cons (node wired (wire_nodes wired.id [] 0 kids))
        (wire_nodes parent (insert n.source_file (at + 1) per_file) (i + 1) ts)

  unfoldable pub wire_identity : Trees → Bytes → Trees
  unfolding wire_nodes
  wire_identity nodes parent = wire_nodes parent [] 0 nodes
