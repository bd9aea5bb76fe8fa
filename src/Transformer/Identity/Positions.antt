-- ===== src/Transformer/Identity/Positions.antt =====
-- The ids of `wireIdentity` as a function of a node's place: the files and the sibling indices on
-- the way up to its root.
use remindb.Prelude.{
  ℕ, zero, suc, ◌+◌, ◌/◌, ◌<◌, ◌≡◌, refl, sym, ap, ◌∙◌, List, [], ◌∷◌, ◌++◌, map, append_assoc,
  append-nil, arith, Bytes, length, All,
}
use remindb.Prelude.Assoc.{insert}
use remindb.Prelude.Text.{itoa}
use remindb.Parser.Ast.{ContextNode, Trees, node, nil, cons, collect_nodes, flatten}
use remindb.Contentid.{identify_node, encode_places, encode_base62}
use remindb.Contentid.Base62.{length-encode_base62, take-all}
use mathlib.Core.List.{map-append}
use remindb.Transformer.Identity.{set_identity, sibling_index, wire_nodes}

abbrev pub Place : Type 0
Place = Bytes × ℕ

-- From the node up to its root.
abbrev pub Position : Type 0
Position = List Place

-- The nodes of trees in pre-order.
unfoldable pub nodes_of : Trees → List ContextNode
nodes_of nil = []
nodes_of (cons (node n kids) ts) = n ∷ nodes_of kids ++ nodes_of ts

collect_nodes-nodes_of :
    (out : List ContextNode) (ts : Trees) → collect_nodes out ts ≡ out ++ nodes_of ts
unfolding collect_nodes nodes_of
collect_nodes-nodes_of out nil = sym (append-nil out)
collect_nodes-nodes_of out (cons (node n kids) ts) =
    collect_nodes-nodes_of (collect_nodes (out ++ n ∷ []) kids) ts
    ∙ ap (λ l. l ++ nodes_of ts) (collect_nodes-nodes_of (out ++ n ∷ []) kids)
    ∙ simp append_assoc

pub flatten-nodes_of : (ts : Trees) → flatten ts ≡ nodes_of ts
unfolding flatten
flatten-nodes_of ts = collect_nodes-nodes_of [] ts

module _ (hash : Bytes → ℕ) where
  unfoldable pub id_of : Position → Bytes
  id_of [] = []
  id_of ((file, i) ∷ up) = identify_node hash itoa file (id_of up) i

  -- What is hashed for the id of a position.
  abbrev pub payload_of : Position → Bytes
  payload_of [] = []
  payload_of ((file, i) ∷ up) = file ++ 0 ∷ id_of up ++ 0 ∷ itoa i

  -- The positions of the nodes, in pre-order.
  unfoldable pub positions : Position → List (Bytes × ℕ) → ℕ → Trees → List Position
  positions up per_file i nil = []
  positions up per_file i (cons (node n kids) ts) =
      let at = sibling_index (id_of up) per_file i n in
      let here = (n.source_file, at) ∷ up in
      here ∷ positions here [] 0 kids
      ++ positions up (insert n.source_file (at + 1) per_file) (i + 1) ts

  pub map-id_of :
      (up : Position) (per_file : List (Bytes × ℕ)) (i : ℕ) (ts : Trees)
      → map (λ (n : ContextNode). n.id) (nodes_of (wire_nodes hash (id_of up) per_file i ts))
        ≡ map id_of (positions up per_file i ts)
  unfolding nodes_of wire_nodes positions id_of set_identity
  map-id_of up per_file i nil = refl
  map-id_of up per_file i (cons (node n kids) ts) =
      let at = sibling_index (id_of up) per_file i n in
      let here = (n.source_file, at) ∷ up in
      let below = map-id_of here [] 0 kids in
      let beside = map-id_of up (insert n.source_file (at + 1) per_file) (i + 1) ts in
      ap (λ l. id_of here ∷ l) (simp (map-append, below, beside))

-- No NUL byte.
abbrev pub NoNul : Bytes → Type 0
NoNul s = All (λ c. 0 < c) s

pub cut_nul : (a b r r' : Bytes) → NoNul a → NoNul b → a ++ 0 ∷ r ≡ b ++ 0 ∷ r' → (a ≡ b) × (r ≡ r')
cut_nul [] [] r r' ha hb e = (refl, cc)
cut_nul [] (y ∷ b) r r' ha hb e = ground arith
cut_nul (x ∷ a) [] r r' ha hb e = ground arith
cut_nul (x ∷ a) (y ∷ b) r r' ha hb e =
    let rest = cut_nul a b r r' ha.1 hb.1 (cc) in let first : x ≡ y = cc in (cc, rest.1)

encode_places-NoNul : (i v : ℕ) (buf : Bytes) → NoNul buf → NoNul (encode_places i v buf)
unfolding encode_places
encode_places-NoNul zero v buf h = h
encode_places-NoNul (suc i) v buf h = encode_places-NoNul i (v / 62) (_ ∷ buf) (ground arith, h)

identify_node-encode :
    (hash : Bytes → ℕ) (file parent : Bytes) (i : ℕ)
    → identify_node hash itoa file parent i
      ≡ encode_base62 (hash (file ++ 0 ∷ parent ++ 0 ∷ itoa i))
unfolding identify_node
identify_node-encode hash file parent i =
    take-all _ 11 (length-encode_base62 (hash (file ++ 0 ∷ parent ++ 0 ∷ itoa i)))

pub length-identify_node :
    (hash : Bytes → ℕ) (file parent : Bytes) (i : ℕ)
    → length (identify_node hash itoa file parent i) ≡ 11
length-identify_node hash file parent i =
    rw (identify_node-encode hash file parent i) (length-encode_base62 _)

pub id_of-NoNul : (hash : Bytes → ℕ) (p : Position) → NoNul (id_of hash p)
unfolding id_of encode_base62
id_of-NoNul hash [] = tt
id_of-NoNul hash ((file, i) ∷ up) =
    rw (identify_node-encode hash file (id_of hash up) i)
      (encode_places-NoNul 11 (hash (file ++ 0 ∷ id_of hash up ++ 0 ∷ itoa i)) [] tt)
