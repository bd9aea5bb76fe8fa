-- ===== src/Transformer/Identity/Apart.antt =====
-- Two positions of a tree never share an id, where the hash keeps apart what it is given.
use remindb.Prelude.{
  ℕ, ◌+◌, ◌<◌, ◌≡◌, refl, sym, ap, ◌∙◌, Bool, true, false, not, ◌&&◌, ◌||◌, List, [], ◌∷◌, ◌++◌,
  map, append_assoc, arith, ◌==◌, Bytes, ◌=s◌, length, All, All-append, All-map, ◌^◌,
  All-append_left, All-append_right,
}
use remindb.Prelude.Text.{itoa, itoa-injective}
use remindb.Prelude.Sorting.{contains}
use remindb.Parser.Ast.{ContextNode, Trees, node, nil, cons}
use remindb.Prelude.Assoc.{insert}
use remindb.Contentid.Base62.{identify_node-hash}
use remindb.Transformer.Identity.{sibling_index}
use remindb.Transformer.Identity.Positions.{
  Position, nodes_of, id_of, payload_of, positions, NoNul, cut_nul, id_of-NoNul,
  length-identify_node,
}

-- The hash has one value for a text and for another one of the list.
unfoldable collides : (Bytes → ℕ) → Bytes → List Bytes → Bool
collides hash s [] = false
collides hash s (t ∷ ts) = (hash s == hash t && not (s =s t)) || collides hash s ts

unfoldable pub any_collides : (Bytes → ℕ) → List Bytes → List Bytes → Bool
unfolding collides
any_collides hash all [] = false
any_collides hash all (s ∷ ss) = collides hash s all || any_collides hash all ss

collides-eq :
    (hash : Bytes → ℕ) (s t : Bytes) (ts : List Bytes)
    → collides hash s ts ≡ false
    → contains t ts ≡ true
    → hash s ≡ hash t
    → s ≡ t
unfolding collides contains
collides-eq hash s t [] c m e = cc
collides-eq hash s t (u ∷ ts) c m e = ground (arith, collides-eq hash s t ts)

any_collides-eq :
    (hash : Bytes → ℕ) (all ss : List Bytes) (s t : Bytes)
    → any_collides hash all ss ≡ false
    → contains s ss ≡ true
    → contains t all ≡ true
    → hash s ≡ hash t
    → s ≡ t
unfolding any_collides contains
any_collides-eq hash all [] s t c m m' e = cc
any_collides-eq hash all (u ∷ ss) s t c m m' e =
    ground (arith, any_collides-eq hash all ss s t, collides-eq hash u t all)

module _ (hash : Bytes → ℕ) (hashed : List Bytes) where
  -- Everything that is hashed on the way to a node is in a list.
  abbrev pub Hashed : Position → Type 0
  Hashed [] = Unit
  Hashed ((file, i) ∷ up) =
      (contains (payload_of hash ((file, i) ∷ up)) hashed ≡ true) × NoNul file × Hashed up

  pub id_of-injective :
      (p q : Position)
      → ((s : Bytes) → hash s < 2 ^ 64)
      → any_collides hash hashed hashed ≡ false
      → Hashed p
      → Hashed q
      → id_of hash p ≡ id_of hash q
      → p ≡ q
  unfolding id_of
  id_of-injective [] [] bound c hp hq e = refl
  id_of-injective [] ((g, j) ∷ q) bound c hp hq e =
      absurd (omega (arith, ap length e, length-identify_node hash g (id_of hash q) j))
  id_of-injective ((f, i) ∷ p) [] bound c hp hq e =
      absurd (omega (arith, ap length e, length-identify_node hash f (id_of hash p) i))
  id_of-injective ((f, i) ∷ p) ((g, j) ∷ q) bound c hp hq e =
      let same =
        any_collides-eq hash hashed hashed (payload_of hash ((f, i) ∷ p))
          (payload_of hash ((g, j) ∷ q)) c hp.0 hq.0
          (identify_node-hash hash itoa f g (id_of hash p) (id_of hash q) i j bound e) in
      let (files, rest) =
        cut_nul f g (id_of hash p ++ 0 ∷ itoa i) (id_of hash q ++ 0 ∷ itoa j) hp.1 hq.1 (
          sym (append_assoc f (0 ∷ id_of hash p) (0 ∷ itoa i))
          ∙ same
          ∙ append_assoc g (0 ∷ id_of hash q) (0 ∷ itoa j)) in
      let (parents, indices) =
        cut_nul (id_of hash p) (id_of hash q) (itoa i) (itoa j) (id_of-NoNul hash p)
          (id_of-NoNul hash q) rest in
      let ups = id_of-injective p q bound c hp.2 hq.2 parents in cc (itoa-injective i j indices)

  pub positions-Hashed :
      (up : Position) (per_file : List (Bytes × ℕ)) (i : ℕ) (ts : Trees)
      → Hashed up
      → All (λ (n : ContextNode). NoNul n.source_file) (nodes_of ts)
      → All (λ q. contains (payload_of hash q) hashed ≡ true) (positions hash up per_file i ts)
      → All Hashed (positions hash up per_file i ts)
  unfolding positions nodes_of
  positions-Hashed up per_file i nil hu hf hs = tt
  positions-Hashed up per_file i (cons (node n kids) ts) hu hf hs =
      let at = sibling_index (id_of hash up) per_file i n in
      let here : Position = (n.source_file, at) ∷ up in
      let per_file' = insert n.source_file (at + 1) per_file in
      let (own, files) = hf in
      let (fresh, rest) = hs in
      let hh : Hashed here = (fresh, own, hu) in
      let kid_files = All-append_left _ (nodes_of kids) (nodes_of ts) files in
      let more_files = All-append_right _ (nodes_of kids) (nodes_of ts) files in
      let below = positions hash here [] 0 kids in
      let beside = positions hash up per_file' (i + 1) ts in
      (
        hh,
        All-append _ below beside
            (positions-Hashed here [] 0 kids hh kid_files (All-append_left _ below beside rest))
            (positions-Hashed up per_file' (i + 1) ts hu more_files
              (All-append_right _ below beside rest)),
      )

-- A list holds its own members.
pub All-contains :
    {A : Type 0} (f : A → Bytes) (xs : List A) → All (λ x. contains (f x) (map f xs) ≡ true) xs
unfolding contains
All-contains f [] = tt
All-contains f (x ∷ xs) = (
  ground arith,
  All-map (λ y (h : contains (f y) (map f xs) ≡ true). ground arith) xs (All-contains f xs),
)
