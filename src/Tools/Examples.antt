-- ===== src/Tools/Examples.antt =====
-- pkg/mcp/tools at one node that snapshot 2 changed.
use remindb.Prelude.{
  ℕ, zero, suc, ◌+◌, ◌-◌, ◌*◌, ◌/◌, ◌%◌, ◌≤◌, ◌<◌, min, max, ◌≡◌, refl, sym, ap, ◌∙◌, subst, ◌≢◌,
  ◌↔◌, ◌⊎◌, inl, inr, Bool, true, false, not, ◌&&◌, ◌||◌, Option, none, some, List, [], ◌∷◌, ◌++◌,
  map, append_assoc, append-nil, arith, ltb, leb, ◌==◌, if◌then◌else◌, Bool-cases, Option-cases,
  Bytes, codes, ◌=s◌, str_dec, length, get_elem?, set, take, drop, replicate, All, All-append,
  All-map, length-append,
}
use remindb.Prelude.Assoc.{lookup, insert}
use remindb.Prelude.Result.{ok}
use remindb.Diff.{op_mod, Delta}
use remindb.Store.Rows.{Node, Table, default_temperature}
use remindb.Store.Snapshots.{
  Snapshot, DiffRecord, Database, RestoreResult, restore_to_snapshot, metadata_of,
}
use remindb.Emitter.Core.{Same}
use remindb.Tools.Forget.{build_forget_deltas, kept_delta, rem_delta}
use remindb.Tools.Forget.Coherent.{build_forget_deltas-Coherent}
use remindb.Tools.Rollback.{
  handle_rollback, rolled_back, Outcome, compute_rollback_deltas, apply_rollback_mutations,
}
use remindb.Tools.Rollback.Restores.{handle_rollback-Same}
use remindb.Store.Removal.{get_children, reparent}
use remindb.Emitter.Records.{Coherent}
use remindb.Parser.Ast.{Trees}

abbrev row : Bytes → ℕ → Node
row content updated = record {
  id = codes "a";
  parent_id = [];
  source_file = codes "a.md";
  node_type = codes "text";
  depth = 1;
  label = codes "x";
  content = content;
  format = codes "plain";
  token_count = 1;
  content_hash = content;
  temperature = 7;
  access_count = 0;
  last_accessed = none;
  created_at = 0;
  updated_at = updated;
  pinned = false;
  seed_pinned = false;
  seed_temp = none;
}

abbrev snapshot : ℕ → Bytes → Option ℕ → Snapshot
snapshot id hash parent = record {
  id = id;
  cursor_hash = hash;
  parent_id = parent;
  message = [];
  compile_root = [];
  created_at = 0;
}

abbrev change : ℕ → Bytes → Bytes → DiffRecord
change s before after = record {
  snapshot_id = s;
  node_id = codes "a";
  op = op_mod;
  old_hash = before;
  new_hash = after;
  old_content = before;
  new_content = after;
  old_metadata = some (record {
    old_parent_id = none;
    old_source_file = codes "a.md";
    old_node_type = codes "text";
    old_depth = 1;
    old_label = codes "x";
    old_format = codes "plain";
    old_token_count = 1;
  });
}

abbrev changed : Database
changed = record {
  nodes = (codes "a", row (codes "two") 3) ∷ [];
  snapshots = snapshot 1 (codes "c1") none ∷ snapshot 2 (codes "c2") (some 1) ∷ [];
  diffs = change 2 (codes "one") (codes "two") ∷ [];
  head = some 2;
  next_snapshot = 3;
}

abbrev restored : RestoreResult
restored = record { nodes = (codes "a", row (codes "one") 3) ∷ []; skipped = [] }

abbrev hash : ℕ → ℕ → List Delta → Bytes
hash head target deltas = codes "c3"

-- The evaluator of the runs.
runs : Unit {0}
unfolding handle_rollback str_dec restore_to_snapshot lookup insert
    remindb.Emitter.capture_pre_state remindb.Emitter.diff_record
    remindb.Store.Snapshots.create_snapshot remindb.Store.Snapshots.new_snapshot
    remindb.Store.Snapshots.has_snapshot remindb.Store.Snapshots.diffs_after
    remindb.Store.Snapshots.reverse_apply_all remindb.Store.Snapshots.reverse_apply_diff
    remindb.Prelude.Sorting.sort remindb.Store.Prune.prune_snapshots_after
    remindb.Tools.Rollback.Fate.rollback_closed remindb.Tools.Rollback.rollback_step
    remindb.Tools.Rollback.digits remindb.Emitter.Closed.closes remindb.Store.Rows.delete_node
runs = tt

restores : restore_to_snapshot changed 1 ≡ ok restored
unfolding runs
restores = refl

abbrev after : Database
after = record {
  nodes = (codes "a", row (codes "one") 9) ∷ [];
  snapshots =
      snapshot 1 (codes "c1") none
      ∷ snapshot 2 (codes "c2") (some 1)
      ∷ record (snapshot 3 (codes "c3") (some 2)) {
        message = codes "rollback to 1";
        created_at = 9;
      }
      ∷ [];
  diffs = change 2 (codes "one") (codes "two") ∷ change 3 (codes "two") (codes "one") ∷ [];
  head = some 3;
  next_snapshot = 4;
}

rolls_back : handle_rollback hash 9 1 false changed ≡ ok (rolled_back 3 1 0 [], after)
unfolding runs
rolls_back = refl

handle_rollback-Same_example : Same after.nodes restored.nodes
unfolding runs
handle_rollback-Same_example =
    handle_rollback-Same hash 9 1 false changed after 3 1 0 [] restored (λ q n e. ground arith)
      (refl, tt) (λ q n e. ground arith) (refl, tt) (λ q c t a b e. ground arith) refl restores
      rolls_back

abbrev at_parent : Bytes → Bytes → Node
at_parent id parent = record (row (codes "x") 3) { id = id; parent_id = parent }

-- `p` above `q` above `r`, and the same rows once `p` was forgotten and `q` moved up.
abbrev before_forget : Table
before_forget =
    (codes "p", at_parent (codes "p") [])
    ∷ (codes "q", at_parent (codes "q") (codes "p"))
    ∷ (codes "r", at_parent (codes "r") (codes "q"))
    ∷ []

abbrev after_forget : Table
after_forget =
    (codes "q", at_parent (codes "q") []) ∷ (codes "r", at_parent (codes "r") (codes "q")) ∷ []

-- The rollback from the first to the second deletes `p` first, which takes `q` and `r` along; only `q`
-- has a delta that brings it back.
cascade_loses :
    apply_rollback_mutations 9 after_forget
      (compute_rollback_deltas before_forget after_forget)
      before_forget
    ≡ ok (
        (
          codes "q",
          record (at_parent (codes "q") []) {
            temperature = default_temperature;
            created_at = 9;
            updated_at = 9;
          },
        )
        ∷ [])
unfolding runs remindb.Prelude.Sorting.str_leb
cascade_loses = refl

-- Forgetting `q` moves `r` up to `p`.
forgets :
    (roots : Trees) × (build_forget_deltas
        (at_parent (codes "q") (codes "p"))
        (get_children (codes "q") before_forget)
        reparent
        before_forget
      ≡ ok (
        roots,
        kept_delta (at_parent (codes "r") (codes "q"))
            ∷ rem_delta (at_parent (codes "q") (codes "p"))
            ∷ [],
      ))
unfolding build_forget_deltas get_children str_dec
forgets = (_, refl)

build_forget_deltas-Coherent_example : All (Coherent before_forget) (
    kept_delta (at_parent (codes "r") (codes "q"))
    ∷ rem_delta (at_parent (codes "q") (codes "p"))
    ∷ [])
unfolding lookup str_dec
build_forget_deltas-Coherent_example =
    build_forget_deltas-Coherent before_forget (at_parent (codes "q") (codes "p")) reparent
      forgets.0
      (kept_delta (at_parent (codes "r") (codes "q"))
        ∷ rem_delta (at_parent (codes "q") (codes "p"))
        ∷ [])
      (λ q n e. ground arith) (refl, (refl, (refl, tt))) refl forgets.1
