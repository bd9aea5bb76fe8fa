-- ===== src/Diff/Digests.antt =====
-- What the digests of pkg/diff/hash.go tell apart, and what they do not.
use remindb.Prelude.{
  ℕ, zero, suc, ◌/◌, ◌%◌, ◌<◌, ◌≡◌, refl, sym, ap, ◌∙◌, ◌≢◌, List, [], ◌∷◌, ◌++◌, arith, Bytes, ◌^◌,
}
use remindb.Prelude.Orders.{sort-Perm}
use remindb.Contentid.{hex_places}
use remindb.Parser.Ast.{ContextNode}
use remindb.Diff.{Delta}
use remindb.Diff.Hash.{
  put_uint, write_id, write_flat_pairs, write_delta_pairs, sum_hex, cursor_hash_for_compile,
  cursor_hash_for_change, cursor_hash_for_rollback, flat_pair, delta_pair, write_all,
}
use mathlib.Core.List.{Perm}

hex_places-injective :
    (i v w : ℕ) (buf buf' : Bytes)
    → hex_places i v buf ≡ hex_places i w buf'
    → v < 16 ^ i
    → w < 16 ^ i
    → (v ≡ w) × (buf ≡ buf')
unfolding hex_places
hex_places-injective zero v w buf buf' h k l = (omega arith, h)
hex_places-injective (suc i) v w buf buf' h k l =
    let r = hex_places-injective i (v / 16) (w / 16) _ _ h (omega arith) (omega arith) in
    (ground (arith, r), ground (arith, r.1))

put_uint-injective :
    (i v w : ℕ) (buf buf' : Bytes)
    → put_uint i v buf ≡ put_uint i w buf'
    → v < 256 ^ i
    → w < 256 ^ i
    → (v ≡ w) × (buf ≡ buf')
unfolding put_uint
put_uint-injective zero v w buf buf' h k l = (omega arith, h)
put_uint-injective (suc i) v w buf buf' h k l =
    let r = put_uint-injective i (v / 256) (w / 256) _ _ h (omega arith) (omega arith) in
    let low : v % 256 ≡ w % 256 = ground (arith, r.1) in
    (omega (arith, r.0, low), ground (arith, r.1))

put_uint-append : (i v : ℕ) (buf s : Bytes) → put_uint i v buf ++ s ≡ put_uint i v (buf ++ s)
unfolding put_uint
put_uint-append zero v buf s = refl
put_uint-append (suc i) v buf s = put_uint-append i (v / 256) ((v % 256) ∷ buf) s

write_id-head :
    (a b : ℕ) (s t : Bytes) → a < 2 ^ 64 → b < 2 ^ 64 → write_id a ++ s ≡ write_id b ++ t → a ≡ b
unfolding write_id
write_id-head a b s t h k eq =
    (put_uint-injective 8 a b s t (sym (put_uint-append 8 a [] s) ∙ eq ∙ put_uint-append 8 b [] t) h
      k).0

module _ (hash : Bytes → ℕ) where
  -- A digest holds all of a hash of 64 bits.
  sum_hex-hash :
      ((s : Bytes) → hash s < 2 ^ 64)
      → (s t : Bytes) → sum_hex hash s ≡ sum_hex hash t
      → hash s ≡ hash t
  unfolding sum_hex
  sum_hex-hash bounded s t h =
      (hex_places-injective 16 (hash s) (hash t) [] [] h (bounded s) (bounded t)).0

  -- Two compiles on different heads have different digests, whatever they leave in the database, where
  -- the hash has 64 bits and the two texts that are hashed do not collide, and the heads fit 64 bits.
  pub cursor_hash_for_compile-head :
      (a b : ℕ) (flat flat' : List ContextNode)
      → ((s : Bytes) → hash s < 2 ^ 64)
      → (hash (write_id a ++ write_flat_pairs flat) ≡ hash (write_id b ++ write_flat_pairs flat')
          → write_id a ++ write_flat_pairs flat ≡ write_id b ++ write_flat_pairs flat')
      → a < 2 ^ 64
      → b < 2 ^ 64
      → a ≢ b
      → cursor_hash_for_compile hash a flat ≢ cursor_hash_for_compile hash b flat'
  unfolding cursor_hash_for_compile
  cursor_hash_for_compile-head a b flat flat' bounded apart h k differ eq = differ (
      write_id-head a b (write_flat_pairs flat) (write_flat_pairs flat') h k
        (apart (sum_hex-hash bounded _ _ eq)))

  -- The order of nodes and of deltas does not matter to a digest: permuted nodes give a compile the
  -- same one, and permuted deltas a change and a rollback.
  pub digests-Perm :
      {flat flat' : List ContextNode} {deltas deltas' : List Delta} (head target : ℕ)
      → Perm flat flat'
      → Perm deltas deltas'
      → (cursor_hash_for_compile hash head flat ≡ cursor_hash_for_compile hash head flat')
        × (cursor_hash_for_change hash head deltas ≡ cursor_hash_for_change hash head deltas')
        × (cursor_hash_for_rollback hash head target deltas
            ≡ cursor_hash_for_rollback hash head target deltas')
  unfolding cursor_hash_for_compile cursor_hash_for_change cursor_hash_for_rollback write_flat_pairs
      write_delta_pairs
  digests-Perm head target p q = (
    ap (λ l. sum_hex hash (write_id head ++ write_all l)) (sort-Perm flat_pair p),
    ap (λ l. sum_hex hash (write_id head ++ write_all l)) (sort-Perm delta_pair q),
    ap (λ l. sum_hex hash (write_id head ++ write_id target ++ write_all l))
        (sort-Perm delta_pair q),
  )
