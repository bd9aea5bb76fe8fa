-- ===== src/Diff/Examples.antt =====
-- pkg/diff at concrete inputs.
use remindb.Prelude.{
  ℕ, ◌%◌, ◌<◌, ◌≡◌, refl, ◌≢◌, false, none, some, List, [], ◌∷◌, arith, Bytes, codes, str_dec,
  get_elem?, All, ◌^◌,
}
use remindb.Prelude.Assoc.{lookup}
use remindb.Prelude.Sorting.{sort, str_leb}
use remindb.Parser.Ast.{ContextNode}
use remindb.Diff.{
  States, seen, find, changes, gone, removals, diff_flat, snapshot_flat, added, modified, removed,
}
use remindb.Diff.Patch.{Distinct, NoCollision, patch, patch-diff_flat}
use remindb.Diff.Genuine.{Genuine, diff_flat-Genuine}
use remindb.Diff.Distinct.{DistinctDeltas, diff_flat-DistinctDeltas}
use remindb.Diff.Idempotent.{diff_flat-snapshot}
use remindb.Diff.Hash.{
  write_id, cursor_hash_for_compile, cursor_hash_for_change, cursor_hash_for_rollback,
}
use remindb.Diff.Digests.{cursor_hash_for_compile-head, digests-Perm}
use mathlib.Core.List.Perm

abbrev leaf : Bytes → Bytes → Bytes → ContextNode
leaf id hash content = record {
  wikilink_refs = [];
  id = id;
  parent_id = [];
  source_file = codes "a.md";
  label = content;
  content = content;
  content_hash = hash;
  format = codes "plain";
  temperature = none;
  depth = 1;
  token_count = 1;
  seed_pinned = false;
  node_type = codes "text";
}

abbrev before : States
before =
    (codes "a", record { hash = codes "h1"; content = codes "one" })
    ∷ (codes "z", record { hash = codes "h9"; content = codes "nine" })
    ∷ (codes "y", record { hash = codes "h8"; content = codes "eight" })
    ∷ []

abbrev compiled : List ContextNode
compiled =
    leaf (codes "a") (codes "h2") (codes "two") ∷ leaf (codes "b") (codes "h3") (codes "three") ∷ []

-- A modification, an addition, and the removals in the order of their ids.
diff_run :
    diff_flat compiled before
    ≡ modified
        (leaf (codes "a") (codes "h2") (codes "two"))
        (record { hash = codes "h1"; content = codes "one" })
      ∷ added (leaf (codes "b") (codes "h3") (codes "three"))
      ∷ removed (codes "y") (record { hash = codes "h8"; content = codes "eight" })
      ∷ removed (codes "z") (record { hash = codes "h9"; content = codes "nine" })
      ∷ []
unfolding diff_flat changes gone removals sort lookup seen str_leb str_dec
diff_run = refl

compiled-Distinct : Distinct compiled
unfolding seen str_dec
compiled-Distinct = (refl, (refl, tt))

compiled-NoCollision : NoCollision before compiled
unfolding lookup find
compiled-NoCollision q old n e f h = ground arith

patch-diff_flat_example :
    lookup (codes "a") (patch (diff_flat compiled before) before)
    ≡ lookup (codes "a") (snapshot_flat compiled [])
patch-diff_flat_example =
    patch-diff_flat compiled before compiled-Distinct compiled-NoCollision (codes "a")

diff_flat-Genuine_example : All (Genuine before compiled) (diff_flat compiled before)
diff_flat-Genuine_example = diff_flat-Genuine compiled before compiled-Distinct

diff_flat-DistinctDeltas_example : DistinctDeltas (diff_flat compiled before)
unfolding lookup str_dec
diff_flat-DistinctDeltas_example =
    diff_flat-DistinctDeltas compiled before compiled-Distinct (refl, (refl, (refl, tt)))

diff_flat-snapshot_example : diff_flat compiled (snapshot_flat compiled []) ≡ []
diff_flat-snapshot_example = diff_flat-snapshot compiled compiled-Distinct

-- Of a hash, the byte at which a small head is written.
abbrev eighth_byte : Bytes → ℕ
eighth_byte s = elim (get_elem? s 7) [ none ↦ 0 | some b ↦ b % 2 ^ 64 ]

eighth_byte-bounded : (s : Bytes) → eighth_byte s < 2 ^ 64
eighth_byte-bounded s =
    elim (get_elem? s 7) as (λ o. elim o [ none ↦ 0 | some b ↦ b % 2 ^ 64 ] < 2 ^ 64) [
      | none ↦ omega arith
      | some b ↦ omega arith
    ]

-- The head is written as eight bytes, the highest first.
head_bytes : write_id 258 ≡ 0 ∷ 0 ∷ 0 ∷ 0 ∷ 0 ∷ 0 ∷ 1 ∷ 2 ∷ []
unfolding write_id
head_bytes = refl

-- Compiles of the same nodes on the heads 1 and 2.
cursor_hash_for_compile-head_example :
    cursor_hash_for_compile eighth_byte 1 compiled ≢ cursor_hash_for_compile eighth_byte 2 compiled
unfolding write_id
cursor_hash_for_compile-head_example =
    cursor_hash_for_compile-head eighth_byte 1 2 compiled compiled eighth_byte-bounded
      (λ h. absurd (ground (arith, h))) (omega arith) (omega arith) (omega arith)

digests-Perm_example :
    (cursor_hash_for_compile eighth_byte 1 (leaf (codes "b") [] [] ∷ leaf (codes "a") [] [] ∷ [])
      ≡ cursor_hash_for_compile eighth_byte 1
          (leaf (codes "a") [] [] ∷ leaf (codes "b") [] [] ∷ []))
    × (cursor_hash_for_change eighth_byte 1 [] ≡ cursor_hash_for_change eighth_byte 1 [])
    × (cursor_hash_for_rollback eighth_byte 1 2 [] ≡ cursor_hash_for_rollback eighth_byte 1 2 [])
digests-Perm_example =
    digests-Perm eighth_byte 1 2 (Perm.swap (leaf (codes "a") [] []) (leaf (codes "b") [] []) [])
      (Perm.refl [])
