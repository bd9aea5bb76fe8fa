-- ===== src/Transformer/Identity/Distinct.antt =====
-- The ids that `wireIdentity` sets are distinct.
use remindb.Prelude.{
  ℕ, ◌<◌, ◌≡◌, refl, ap, ◌∙◌, subst, ◌≢◌, false, List, [], ◌∷◌, map, arith, Bytes, All, ◌^◌,
}
use remindb.Parser.Ast.{ContextNode, Trees, flatten}
use remindb.Prelude.Sorting.{contains}
use remindb.Diff.{seen}
use remindb.Diff.Patch.{Distinct}
use remindb.Transformer.Identity.{wire_nodes, wire_identity}
use remindb.Transformer.Identity.Positions.{
  Position, nodes_of, flatten-nodes_of, id_of, payload_of, positions, NoNul, map-id_of,
}
use remindb.Transformer.Identity.Apart.{
  any_collides, Hashed, id_of-injective, positions-Hashed, All-contains,
}
use remindb.Transformer.Identity.Siblings.{DistinctPositions, positions-DistinctPositions}

seen-contains :
    (id : Bytes) (flat : List ContextNode)
    → seen id flat ≡ contains id (map (λ (n : ContextNode). n.id) flat)
unfolding seen contains
seen-contains id [] = refl
seen-contains id (n ∷ flat) = ground (arith, seen-contains id flat)

module _ (hash : Bytes → ℕ) (hashed : List Bytes) (bound : (s : Bytes) → hash s < 2 ^ 64)
    (no_collision : any_collides hash hashed hashed ≡ false) where
  id_of-fresh :
      (p : Position) (ps : List Position)
      → Hashed hash hashed p
      → All (Hashed hash hashed) ps
      → All (λ q. p ≢ q) ps
      → contains (id_of hash p) (map (id_of hash) ps) ≡ false
  unfolding contains
  id_of-fresh p [] hp hs apart = refl
  id_of-fresh p (q ∷ ps) hp hs apart = ground (
    arith,
    id_of-fresh p ps hp hs.1 apart.1,
    id_of-injective hash hashed p q bound no_collision hp hs.0,
    apart.0,
  )

  Distinct-map :
      (flat : List ContextNode) (ps : List Position)
      → map (λ (n : ContextNode). n.id) flat ≡ map (id_of hash) ps
      → All (Hashed hash hashed) ps
      → DistinctPositions ps
      → Distinct flat
  Distinct-map [] ps e hs d = tt
  Distinct-map (n ∷ flat) [] e hs d = ground arith
  Distinct-map (n ∷ flat) (p ∷ ps) e hs d =
      let ids : map (λ (m : ContextNode). m.id) flat ≡ map (id_of hash) ps = cc in
      let own : n.id ≡ id_of hash p = cc in
      (
        seen-contains n.id flat
            ∙ ap (λ l. contains n.id l) ids
            ∙ ap (λ s. contains s (map (id_of hash) ps)) own
            ∙ id_of-fresh p ps hs.0 hs.1 d.0,
        Distinct-map flat ps ids hs.1 d.1,
      )

-- What `wireIdentity` gives to the hash, for the roots of a compile.
unfoldable pub hashed_payloads : (Bytes → ℕ) → Trees → List Bytes
unfolding positions
hashed_payloads hash roots = map (payload_of hash) (positions hash [] [] 0 roots)

-- The nodes of a compile have distinct ids once `wireIdentity` has run on the roots: where no path
-- holds a NUL byte, hashes have 64 bits, and no two of the texts hashed in this run collide.
pub wire_identity-Distinct :
    (hash : Bytes → ℕ) (roots : Trees)
    → ((s : Bytes) → hash s < 2 ^ 64)
    → All (λ (n : ContextNode). NoNul n.source_file) (flatten roots)
    → any_collides hash (hashed_payloads hash roots) (hashed_payloads hash roots) ≡ false
    → Distinct (flatten (wire_identity hash roots []))
unfolding wire_identity hashed_payloads id_of
wire_identity-Distinct hash roots bound files no_collision =
    let ps = positions hash [] [] 0 roots in
    let own : All (λ (n : ContextNode). NoNul n.source_file) (nodes_of roots) =
      subst (All (λ (n : ContextNode). NoNul n.source_file)) (flatten-nodes_of roots) files in
    rw (flatten-nodes_of (wire_nodes hash [] [] 0 roots)) (
      Distinct-map hash (map (payload_of hash) ps) bound no_collision
        (nodes_of (wire_nodes hash [] [] 0 roots)) ps (map-id_of hash [] [] 0 roots)
        (positions-Hashed hash (map (payload_of hash) ps) [] [] 0 roots tt own
          (All-contains (payload_of hash) ps))
        (positions-DistinctPositions hash [] [] 0 roots))
