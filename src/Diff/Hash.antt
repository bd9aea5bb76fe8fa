-- ===== src/Diff/Hash.antt =====
-- pkg/diff/hash.go: the digests of cursors. xxhash is the parameter `hash`, on all that is written.
use remindb.Prelude.{ℕ, zero, suc, ◌/◌, ◌%◌, List, [], ◌∷◌, ◌++◌, map, Bytes, codes}
use remindb.Prelude.Sorting.{sort, str_leb}
use remindb.Contentid.{hex_places}
use remindb.Parser.Ast.{ContextNode, Trees, flatten}
use remindb.Diff.{Op, op_add, op_mod, op_rem, Delta}

-- The bytes of a number in big-endian order.
unfoldable pub put_uint : ℕ → ℕ → Bytes → Bytes
put_uint zero v buf = buf
put_uint (suc i) v buf = put_uint i (v / 256) ((v % 256) ∷ buf)

unfoldable pub write_id : ℕ → Bytes
unfolding put_uint
write_id id = put_uint 8 id []

unfoldable pub write_all : List Bytes → Bytes
write_all [] = []
write_all (s ∷ ss) = s ++ write_all ss

abbrev pub flat_pair : ContextNode → Bytes
flat_pair n = n.id ++ codes ":" ++ n.content_hash

unfoldable pub write_flat_pairs : List ContextNode → Bytes
unfolding write_all
write_flat_pairs flat = write_all (sort str_leb (map flat_pair flat))

abbrev op_string : Op → Bytes
op_string op_add = codes "add"
op_string op_mod = codes "mod"
op_string op_rem = codes "rem"

abbrev pub delta_pair : Delta → Bytes
delta_pair d =
    op_string d.op ++ codes ":" ++ d.node_id ++ codes ":" ++ d.old_hash ++ codes ":" ++ d.new_hash

unfoldable pub write_delta_pairs : List Delta → Bytes
unfolding write_all
write_delta_pairs deltas = write_all (sort str_leb (map delta_pair deltas))

module _ (hash : Bytes → ℕ) where
  -- `sumHex` of what was written.
  unfoldable pub sum_hex : Bytes → Bytes
  unfolding hex_places
  sum_hex text = hex_places 16 (hash text) []

  unfoldable cursor_hash_flat : List ContextNode → Bytes
  unfolding sum_hex
  cursor_hash_flat flat = sum_hex (write_flat_pairs flat)

  unfoldable cursor_hash : Trees → Bytes
  unfolding cursor_hash_flat
  cursor_hash roots = cursor_hash_flat (flatten roots)

  unfoldable pub cursor_hash_for_compile : ℕ → List ContextNode → Bytes
  cursor_hash_for_compile head flat = sum_hex (write_id head ++ write_flat_pairs flat)

  unfoldable pub cursor_hash_for_change : ℕ → List Delta → Bytes
  cursor_hash_for_change head deltas = sum_hex (write_id head ++ write_delta_pairs deltas)

  unfoldable pub cursor_hash_for_rollback : ℕ → ℕ → List Delta → Bytes
  cursor_hash_for_rollback head target deltas =
      sum_hex (write_id head ++ write_id target ++ write_delta_pairs deltas)
