-- ===== src/Query/Examples.antt =====
-- pkg/query at concrete rows.
use remindb.Prelude.{
  ℕ, zero, suc, ◌+◌, ◌-◌, ◌*◌, ◌/◌, ◌%◌, ◌≤◌, ◌<◌, min, max, ◌≡◌, refl, sym, ap, ◌∙◌, subst, ◌≢◌,
  ◌↔◌, ◌⊎◌, inl, inr, Bool, true, false, not, ◌&&◌, ◌||◌, Option, none, some, List, [], ◌∷◌, ◌++◌,
  map, append_assoc, append-nil, arith, ltb, leb, ◌==◌, if◌then◌else◌, Bool-cases, Option-cases,
  Bytes, codes, ◌=s◌, str_dec, length, get_elem?, set, take, drop, replicate, All, All-append,
  All-map, All-append_left, All-append_right, All-zip, All-pure, length-append, length-take,
  last_of,
}
use remindb.Store.Rows.{Node}
use remindb.Query.Budget.{ScoredNode, fill_budget, sum_tokens, Chosen, fill_budget-Chosen, Filled}
use remindb.Store.Snapshots.{DiffRecord, Database}
use remindb.Query.Net.{finished, other, here, Net, consolidate_diffs-Net}
use remindb.Query.Batch.{Answers, Within, fetch_batch-Answers}
use remindb.Query.Delta.{delta}
use remindb.Query.Delta.Verdict.{Verdict}
use remindb.Diff.{op_add, Op, op_mod}
use remindb.Query.Delta.Resume.{delta-Verdict}
use remindb.Query.Engine.{QueryStore, Scoring, collect_context, fetch, fetch_batch}
use remindb.Query.Context.{fetch-budget, Fresh, has_id, collect_context-Fresh}
use remindb.Query.Consolidate.{consolidate_diffs}
use remindb.Query.Brackets.{of_node}
use remindb.Prelude.Sorting.{DistinctStrings, contains}

abbrev row : Bytes → ℕ → Node
row id tokens = record {
  id = id;
  parent_id = [];
  source_file = codes "a.md";
  node_type = codes "text";
  depth = 1;
  label = id;
  content = id;
  format = codes "plain";
  token_count = tokens;
  content_hash = id;
  temperature = 0;
  access_count = 0;
  last_accessed = none;
  created_at = 0;
  updated_at = 0;
  pinned = false;
  seed_pinned = false;
  seed_temp = none;
}

abbrev scored : Bytes → ℕ → ScoredNode
scored id tokens = record { node = row id tokens; score = 0 }

-- A budget of five: the node of four tokens does not fit beside the first, the last one does.
abbrev ranked : List ScoredNode
ranked = scored (codes "a") 3 ∷ scored (codes "b") 4 ∷ scored (codes "c") 2 ∷ []

fills :
    fill_budget ranked 5
    ≡ record { nodes = scored (codes "a") 3 ∷ scored (codes "c") 2 ∷ []; tokens_used = 5 }
unfolding fill_budget
fills = refl

fill_budget-Chosen_example :
    let r = fill_budget ranked 5 in
    (r.tokens_used ≤ 5)
    × (sum_tokens r.nodes 0 ≡ r.tokens_used)
    × Chosen (5 - r.tokens_used) ranked r.nodes
fill_budget-Chosen_example = fill_budget-Chosen ranked 5

abbrev diff_of : ℕ → Bytes → DiffRecord
diff_of s id = record {
  snapshot_id = s;
  node_id = id;
  op = op_add;
  old_hash = [];
  new_hash = id;
  old_content = [];
  new_content = id;
  old_metadata = none;
}

abbrev three_diffs : Database
three_diffs = record {
  nodes = [];
  snapshots = [];
  diffs = diff_of 2 (codes "a") ∷ diff_of 3 (codes "b") ∷ diff_of 3 (codes "c") ∷ [];
  head = some 3;
  next_snapshot = 4;
}

-- Two rows are asked for: the second is of the snapshot of the third, and the page ends before it.
trims :
    delta three_diffs 1 2
    ≡ record { diffs = diff_of 2 (codes "a") ∷ []; truncated = true; overflow = false }
unfolding delta remindb.Query.Delta.rows_since remindb.Prelude.Sorting.sort
    remindb.Store.Snapshots.diffs_after
trims = refl

-- From snapshot 2 on, one row is too few for the snapshot that is next.
overflows :
    delta three_diffs 2 1
    ≡ record { diffs = diff_of 3 (codes "b") ∷ []; truncated = true; overflow = true }
unfolding delta remindb.Query.Delta.rows_since remindb.Prelude.Sorting.sort
    remindb.Store.Snapshots.diffs_after
overflows = refl

delta-Verdict_example : Verdict three_diffs 1 2 (delta three_diffs 1 2)
delta-Verdict_example = delta-Verdict three_diffs 1 2 (omega arith)

-- The anchor `a` with a parent `b` that is also listed as a sibling, and a sibling `c`.
abbrev small_store : QueryStore
small_store = record {
  get_node = λ id. some (row (codes "a") 2);
  get_nodes_by_ids = λ ids. some (row (codes "a") 2 ∷ []);
  get_ancestors = λ id. some (row (codes "a") 2 ∷ row (codes "b") 1 ∷ []);
  get_descendants = λ id depth. some [];
  get_siblings = λ id. some (row (codes "b") 1 ∷ row (codes "c") 7 ∷ []);
  search_ranked = λ query limit. some [];
}

abbrev flat_scoring : Scoring
flat_scoring = record {
  score_node = λ n rank. rank;
  one = 1;
  negate = λ rank. rank;
  at_least = λ a b. leb b a;
}

collect_context-Fresh_example :
    (context : List Node) × (collect_context small_store flat_scoring (row (codes "a") 2) 32
      ≡ some context)
    × Fresh (codes "a" ∷ []) context
    × (has_id (codes "c") context
        ≡ has_id (codes "c") (
            (row (codes "a") 2 ∷ row (codes "b") 1 ∷ [])
            ++ []
            ++ row (codes "b") 1 ∷ row (codes "c") 7 ∷ []))
collect_context-Fresh_example =
    collect_context-Fresh small_store flat_scoring (row (codes "a") 2) 32
      (row (codes "a") 2 ∷ row (codes "b") 1 ∷ []) [] (row (codes "b") 1 ∷ row (codes "c") 7 ∷ [])
      (codes "c") other refl refl refl
  where
    other : codes "c" ≢ codes "a"
    other e = ground arith

abbrev fetched : Filled
fetched = record {
  nodes =
      record { node = row (codes "b") 1; score = 1 }
      ∷ record { node = row (codes "a") 2; score = 1 }
      ∷ [];
  tokens_used = 3;
}

-- The sibling of seven tokens does not fit.
fetch_runs : fetch small_store flat_scoring (codes "a") 5 0 ≡ some fetched
unfolding fetch fill_budget remindb.Prelude.Sorting.sort str_dec
fetch_runs = refl

fetch-budget_example :
    (sum_tokens fetched.nodes 0 ≤ max 5 2)
    × (fetched.tokens_used ≡ sum_tokens fetched.nodes 0)
    × (last_of fetched.nodes ≡ some (record { node = row (codes "a") 2; score = 1 }))
fetch-budget_example =
    fetch-budget small_store flat_scoring (codes "a") 5 0 (row (codes "a") 2) fetched refl
      (omega arith) fetch_runs

abbrev edit : ℕ → Op → Bytes → Bytes → DiffRecord
edit s o old new = record {
  snapshot_id = s;
  node_id = codes "n";
  op = o;
  old_hash = old;
  new_hash = new;
  old_content = old;
  new_content = new;
  old_metadata = none;
}

-- A node is added, changed, and removed again; another one is added in between.
abbrev range : List DiffRecord
range =
    edit 2 op_add [] (codes "x")
    ∷ diff_of 2 (codes "a")
    ∷ edit 3 op_mod (codes "x") (codes "y")
    ∷ []

net : consolidate_diffs range ≡ edit 3 op_add [] (codes "y") ∷ diff_of 2 (codes "a") ∷ []
unfolding consolidate_diffs remindb.Prelude.Assoc.lookup remindb.Prelude.Assoc.insert str_dec
net = refl

consolidate_diffs-Net_example :
    Net none (some (codes "y")) (of_node (codes "n") (consolidate_diffs range))
consolidate_diffs-Net_example = consolidate_diffs-Net (codes "n") none (some (codes "y")) range (
    here (edit 2 op_add [] (codes "x"))
      (diff_of 2 (codes "a") ∷ edit 3 op_mod (codes "x") (codes "y") ∷ []) refl
      (other (diff_of 2 (codes "a")) (edit 3 op_mod (codes "x") (codes "y") ∷ []) differs
        (here (edit 3 op_mod (codes "x") (codes "y")) [] refl finished)))
  where
    differs : codes "n" ≢ codes "a"
    differs e = ground arith

-- The id `z` is asked for twice and is nowhere.
fetch_batch-Answers_example :
    (r : Filled × List Bytes) × (unique : List Bytes) × (fetch_batch small_store flat_scoring
        (codes "z" ∷ codes "a" ∷ codes "z" ∷ [])
        0
      ≡ some r)
    × DistinctStrings unique
    × Within unique (codes "z" ∷ codes "a" ∷ codes "z" ∷ [])
    × ((q : Bytes) → contains q unique ≡ contains q (codes "z" ∷ codes "a" ∷ codes "z" ∷ []))
    × Answers small_store flat_scoring (row (codes "a") 2 ∷ []) unique r.0.nodes r.1
fetch_batch-Answers_example =
    fetch_batch-Answers small_store flat_scoring (codes "z") (codes "a" ∷ codes "z" ∷ [])
      (row (codes "a") 2 ∷ []) refl
